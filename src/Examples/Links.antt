-- ===== src/Examples/Links.antt =====
-- A Codex session that connects to a Claude session, and the agent above a process.
use peer_chat.Base.{
  ℕ, ◌≡◌, refl, String, Option, none, some, List, [], ◌∷◌, if◌then◌else◌, nat_eq, ◌==◌,
}
use peer_chat.Base.Int.{pos}
use peer_chat.Base.Json.{Value, null, int, str, obj, end, field, member}
use peer_chat.Selection.{Choice}
use peer_chat.Store.{get, put}
use peer_chat.Connect.{
  Processes, Agent, caller_agent, Actions, Ran, finished, Stores, connect, all_sessions,
}
use peer_chat.Selection.Strategies.{select_session}
use peer_chat.Connect.Caller.{ancestors, first_agent, caller_agent-nearest}
use peer_chat.Connect.Retained.{Steps, own_thread, connect-Steps}
use peer_chat.Examples.{empty}

-- A shell with the number 9 in a Codex session with the number 7.
abbrev terminal : Processes
terminal = record {
  parent = λ p. if nat_eq p 9 then some 7 else some 1;
  comm = λ p. if nat_eq p 7 then some "codex" else some "bash";
}

nearest_codex : caller_agent terminal (some 9) ≡ some (Agent.codex, 7)
unfolding caller_agent
nearest_codex = refl

caller_agent-nearest_example :
    caller_agent terminal (some 9) ≡ first_agent terminal (ancestors terminal 64 (some 9))
caller_agent-nearest_example = caller_agent-nearest terminal (some 9)

abbrev own_row : Value
own_row = obj (
    field "kind" (str "codex") (
      field "thread" (str "t")
        (field "owner_pid" (int (pos 7)) (field "owner_identity" (str "i") end))))

abbrev reviewer : Value
reviewer = obj (field "name" (str "reviewer") (field "session" (str "s") end))

abbrev actions : Actions
actions = record {
  identity = λ pid. str "i";
  run = λ home command stores. (finished "claude-key", stores);
  register = λ thread stores. (some own_row, stores);
}

abbrev lower : String → String
lower s = s

abbrev number : String → Option ℕ
number s = none

abbrev bridges : Stores
bridges thread = put "config" (obj (field "socket" (str "/tmp/t") end)) empty

abbrev linked : Stores
linked =
    (connect actions lower number [] (reviewer ∷ []) (some (Agent.codex, 7)) (str "reviewer") "t"
      bridges).1

new_default : member (get (linked "t") "config" null) "default_peer" ≡ str "claude-key"
unfolding member connect peer_chat.Selection.Strategies.select_session peer_chat.Base.Text.strip
    peer_chat.Selection.choose peer_chat.Connect.all_sessions peer_chat.Base.Json.insert
    peer_chat.Connect.start peer_chat.Connect.at_thread peer_chat.Connect.set_default
    peer_chat.Connect.seed_phase
new_default = refl

other_default : member (get (linked "u") "config" null) "default_peer" ≡ null
unfolding member connect peer_chat.Selection.Strategies.select_session peer_chat.Base.Text.strip
    peer_chat.Selection.choose peer_chat.Connect.all_sessions peer_chat.Base.Json.insert
    peer_chat.Connect.start peer_chat.Connect.at_thread
other_default = refl

connect-Steps_example :
    Steps actions
      (select_session lower number (all_sessions [] (reviewer ∷ [])) (str "reviewer") none)
      (own_thread (some (Agent.codex, 7)) "t")
      bridges
      linked
connect-Steps_example =
    connect-Steps actions lower number [] (reviewer ∷ []) (some (Agent.codex, 7)) (str "reviewer")
      "t" bridges
