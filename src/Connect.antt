-- ===== src/Connect.antt =====
-- src/peer_connect.py: which agent asks for a connection, and the connection of two sessions. The
-- table of processes, the lists of sessions, `register` and the runs of `peer-chat start` are arguments.
-- The snapshot of the destination in the report of `connect` is that of src/peer_observe.py, and is left
-- out here. A bridge that was started has a configuration.
pub mod Caller
pub mod Retained
use Prim.Native.String.{◌++◌}
use peer_chat.Base.{
  ℕ, zero, suc, String, Bool, true, false, not, ◌&&◌, ◌||◌, Option, none, some, List, [], ◌∷◌,
  ◌++◌ as join_lists, map, if◌then◌else◌, ◌==◌, leb, nat_eq, any, find, is_some,
}
use peer_chat.Base.Format.{show_int}
use peer_chat.Base.Int.{pos, negsuc}
use peer_chat.Base.Json.{Value, null, int, str, obj, member, insert, is_text, or_else}
use peer_chat.Base.Text.{prefix, strip}
use peer_chat.Budget.{DeliveryState, delivery_state, lifecycle_observed}
use peer_chat.Selection.{Choice, one, ambiguous, none_match}
use peer_chat.Selection.Strategies.{select_session}
use peer_chat.Store.{Store, get, put}

-- The table of processes: `parent_pid` and `process_comm`.
pub record Processes : Type 0 where
  pub parent : ℕ → Option ℕ
  pub comm : ℕ → Option String

pub data Agent : Type 0 where
  codex claude : Agent

abbrev pub agent_of : Option String → Option Agent
agent_of none = none
agent_of (some n) =
    if n == "codex" then some Agent.codex else if n == "claude" then some Agent.claude else none

abbrev was_seen : ℕ → List ℕ → Bool
was_seen pid seen = any (λ p. nat_eq p pid) seen

-- The loop of `caller_agent`, with the steps that are left.
unfoldable pub climb : Processes → ℕ → List ℕ → Option ℕ → Option (Agent × ℕ)
climb w zero seen pid = none
climb w (suc n) seen none = none
climb w (suc n) seen (some p) =
    let rest = climb w n (p ∷ seen) (w.parent p) in
    if leb p 1 || was_seen p seen
    then none
    else (elim (agent_of (w.comm p)) [ some a ↦ some (a, p) | none ↦ rest ])

-- `caller_agent`, from the parent of the process.
unfoldable pub caller_agent : Processes → Option ℕ → Option (Agent × ℕ)
unfolding climb
caller_agent w start = climb w 64 [] start

-- A row of `peers()`, as it stands among the sessions.
abbrev native_row : Value → Value
native_row (obj r) = obj (insert "id" (member (obj r) "session") (insert "kind" (str "claude") r))
native_row v = v

-- `all_sessions`
unfoldable pub all_sessions : List Value → List Value → List Value
all_sessions sessions natives = join_lists sessions (map native_row natives)

abbrev known_phase : Value → Value
known_phase v =
    if is_text v "idle" || (is_text v "active" || is_text v "unknown") then v else str "unknown"

-- `_seed_phase`
unfoldable pub seed_phase : Value → Store → Store
seed_phase phase s = elim (s.meta "phase") [ none ↦ put "phase" (known_phase phase) s | some v ↦ s ]

-- The stores under the root of the state, by thread.
abbrev pub Stores : Type 0
Stores = String → Store

unfoldable pub at_thread : String → (Store → Store) → Stores → Stores
at_thread t f stores k = if t == k then f (stores k) else stores k

-- What a run of `peer-chat start` ends in: its error output, or the key that it prints.
pub data Ran : Type 0 where
  failed : String → Ran
  finished : String → Ran

-- What `connect` calls: the identity of a process, the run of a command in an environment with a
-- CODEX_HOME, and the registration of a session of the caller.
pub record Actions : Type 0 where
  pub identity : Value → Value
  pub run : Value → List String → Stores → Ran × Stores
  pub register : String → Stores → Option Value × Stores

abbrev pub is_codex : Value → Bool
is_codex peer = is_text (member peer "kind") "codex"

abbrev pub text_of : Value → String
text_of (str s) = s
text_of _ = ""

abbrev pub thread_of : Value → String
thread_of row = text_of (member row "thread")

abbrev pub has_pid : ℕ → Value → Bool
has_pid pid row = elim (member row "pid") [ int (pos n) ↦ nat_eq n pid | _ ↦ false ]

abbrev number_text : Value → String
number_text (int n) = show_int n
number_text _ = ""

abbrev link_arguments : Value → List String
link_arguments peer =
    if is_codex peer
    then "--peer-thread" ∷ thread_of peer ∷ []
    else "--peer-pid"
      ∷ number_text (member peer "pid")
      ∷ "--peer-socket"
      ∷ text_of (member peer "socket")
      ∷ "--peer-name"
      ∷ text_of (or_else (member peer "name") (str "Claude"))
      ∷ []

-- The arguments of `peer-chat`, but for the root of the state.
unfoldable pub start_command : Value → Value → List String
start_command recipient peer =
    "--thread"
    ∷ thread_of recipient
    ∷ "start"
    ∷ "--owner-pid"
    ∷ number_text (member recipient "owner_pid")
    ∷ "--owner-identity"
    ∷ text_of (member recipient "owner_identity")
    ∷ "--delivery"
    ∷ "auto"
    ∷ link_arguments peer

-- The end of `_start`.
pub data Started : Type 0 where
  refused : String → Started
  enrolled : String → Started

abbrev pub started_of : Ran × Stores → Started × Stores
started_of (failed error, stores) =
    (refused ("Connection failed: " ++ prefix 500 (strip error)), stores)
started_of (finished key, stores) = (enrolled key, stores)

-- `_start` for a recipient and a peer.
unfoldable pub start : Actions → Value → Value → Stores → Started × Stores
unfolding start_command
start a recipient peer stores =
    if is_text (a.identity (member recipient "owner_pid"))
      (text_of (member recipient "owner_identity"))
    then started_of (a.run (member recipient "codex_home") (start_command recipient peer) stores)
    else (refused "Selected Codex process exited; discover sessions again", stores)

pub record Report : Type 0 where
  pub thread : String
  pub peer : Value
  pub address : String
  pub delivery : Value
  pub phase : Value
  pub delivery_state : DeliveryState
  pub recipient_phase : Value
  pub recipient_delivery_state : DeliveryState
  pub is_observed : Bool
  pub next : String

-- What `connect` ends in: an error, the endpoint of a native peer, or a report.
pub data Outcome : Type 0 where
  raised : String → Outcome
  unselected : Option (Choice Value) → Outcome
  native : Value → String → Outcome
  connected : Report → Outcome

abbrev pub is_claude_at : ℕ → Value → Bool
is_claude_at pid row = is_text (member row "kind") "claude" && has_pid pid row

abbrev phase_of : Value → Value
phase_of row = elim (member row "phase") [ null ↦ str "unknown" | v ↦ v ]

abbrev uds : Value → String
uds socket = "uds:" ++ text_of socket

-- The default destination of the initiating session.
unfoldable pub set_default : String → Store → Store
set_default key s = elim (get s "config" null) [
  | obj config ↦ put "config" (obj (insert "default_peer" (str key) config)) s
  | _ ↦ s
]

abbrev next_step : Bool → Bool → String
next_step from_claude observed =
    (if from_claude
      then "Send using native SendMessage to this address."
      else "Send with peer-chat send --to SESSION_NAME --file PATH; use --reply-to MESSAGE_ID for replies.")
    ++ (if observed
        then ""
        else " Messages are retained in the inbox until Codex runs its hooks; connecting does not wake an untouched tab.")

-- The report: `s` is the store of the thread, and `d` that of the recipient of the messages.
unfoldable pub report : Bool → String → Value → Store → Store → Report
report from_claude thread peer s d = record {
  thread = thread;
  peer = member peer "name";
  address = uds (member (get s "config" null) "socket");
  delivery = get s "delivery" null;
  phase = get s "phase" (str "unknown");
  delivery_state = delivery_state (get s);
  recipient_phase = get d "phase" (str "unknown");
  recipient_delivery_state = delivery_state (get d);
  is_observed = lifecycle_observed (get d);
  next = next_step from_claude (lifecycle_observed (get d));
}

abbrev and_report : Bool → String → Value → Stores → Outcome × Stores
and_report from_claude thread peer stores = (
  connected (
      report from_claude thread peer (stores thread)
        (if not from_claude && is_codex peer then stores (thread_of peer) else stores thread)),
  stores,
)

-- The end for a Claude caller: the phase of the recipient is seeded.
unfoldable pub finish_claude : Value → Stores → Outcome × Stores
unfolding report
finish_claude peer stores =
    and_report true (thread_of peer) peer
      (at_thread (thread_of peer) (seed_phase (phase_of peer)) stores)

-- The end for a Codex caller, whose default destination changes.
unfoldable pub finish_codex : String → Value → String → Stores → Outcome × Stores
unfolding report
finish_codex thread peer key stores =
    and_report false thread peer
      (at_thread thread (set_default key) (at_thread thread (seed_phase (str "active")) stores))

unfoldable pub started_claude : Value → Started × Stores → Outcome × Stores
unfolding finish_claude
started_claude peer (refused text, stores) = (raised text, stores)
started_claude peer (enrolled key, stores) = finish_claude peer stores

-- The endpoint of another native session.
abbrev pub native_link : Bool → Value → Outcome
native_link here peer =
    if here
    then raised "Select another session"
    else native (member peer "name") (uds (member peer "socket"))

-- A Claude caller, by its row among the sessions.
unfoldable pub connect_claude : Actions → ℕ → Value → Option Value → Stores → Outcome × Stores
unfolding started_claude
connect_claude a pid peer none stores =
    (raised "This Claude session has no live native messaging endpoint", stores)
connect_claude a pid peer (some caller) stores =
    if is_text (member peer "kind") "claude"
    then (native_link (has_pid pid peer) peer, stores)
    else started_claude peer (start a peer caller stores)

-- The other half of a link between two Codex sessions.
unfoldable pub back_started : String → Value → String → Started × Stores → Outcome × Stores
unfolding finish_codex
back_started thread peer key (refused text, stores) = (
  raised ("Reciprocal connection incomplete; the first enrollment is retained for retry. " ++ text),
  stores,
)
back_started thread peer key (enrolled _, stores) =
    finish_codex thread peer key (at_thread (thread_of peer) (seed_phase (phase_of peer)) stores)

unfoldable pub started_codex :
    Actions → String → Value → Value → Started × Stores → Outcome × Stores
unfolding back_started finish_codex
started_codex a thread caller peer (refused text, stores) = (raised text, stores)
started_codex a thread caller peer (enrolled key, stores) =
    if is_codex peer
    then back_started thread peer key (start a peer caller stores)
    else finish_codex thread peer key stores

unfoldable pub registered_codex :
    Actions → String → Value → Option Value × Stores → Outcome × Stores
unfolding started_codex
registered_codex a thread peer (none, stores) =
    (raised "Could not identify this Codex session", stores)
registered_codex a thread peer (some caller, stores) =
    if is_codex peer && is_text (member peer "thread") thread
    then (raised "Select another session", stores)
    else started_codex a thread caller peer (start a caller peer stores)

-- The caller, the thread that it names, and the peer that was selected.
unfoldable pub connect_to :
    Actions → List Value → Option (Agent × ℕ) → String → Value → Stores → Outcome × Stores
unfolding connect_claude registered_codex
connect_to a rows (some (Agent.claude, pid)) thread peer stores =
    connect_claude a pid peer (find (is_claude_at pid) rows) stores
connect_to a rows (some (Agent.codex, pid)) thread peer stores =
    if thread == ""
    then (raised "Run connect from the intended Codex or Claude session", stores)
    else registered_codex a thread peer (a.register thread stores)
connect_to a rows none thread peer stores =
    (raised "Run connect from the intended Codex or Claude session", stores)

-- The outcome of `select_session`.
unfoldable pub connect_choice :
    Actions
    → List Value
    → Option (Agent × ℕ)
    → String
    → Option (Choice Value)
    → Stores
    → Outcome × Stores
unfolding connect_to
connect_choice a rows caller thread (some (one peer)) stores =
    connect_to a rows caller thread peer stores
connect_choice a rows caller thread choice stores = (unselected choice, stores)

-- `connect`
unfoldable pub connect :
    Actions
    → (String → String)
    → (String → Option ℕ)
    → List Value
    → List Value
    → Option (Agent × ℕ)
    → Value
    → String
    → Stores
    → Outcome × Stores
unfolding connect_choice
connect a lower number sessions natives caller target thread stores =
    let rows = all_sessions sessions natives in
    connect_choice a rows caller thread (select_session lower number rows target none) stores
