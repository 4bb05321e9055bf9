-- ===== src/Listener/Begin.antt =====
-- `start_bridge` of src/peer_chat.py, up to the launch of the listener: what it refuses, and what it writes.
-- What it finds out about processes, paths, sessions and the saved hook is an argument, and so is the
-- allowance, which parse_budget has accepted. What other processes write meanwhile, such as the listener
-- that is asked to stop, is left out.
use peer_chat.Base.{
  String, Bool, true, false, not, ◌&&◌, ◌||◌, Option, none, some, List, [], ◌∷◌, if◌then◌else◌,
  ◌==◌, is_some, leb,
}
use peer_chat.Base.Json.{
  Value, null, bool, int, str, obj, Fields, end, field, insert, member, truthy, is_text,
}
use peer_chat.Base.Int.{pos}
use peer_chat.Budget.{unlimited}
use peer_chat.Registry.{Earlier, seed_lifecycle}
use peer_chat.Store.{Store, get, put, delete}
use peer_chat.Peers.{Host, all_peers, enroll}
use peer_chat.Peers.Resolve.{first_reason}

-- The peer that the arguments select: none, the reason of an error, or a record.
pub data Chosen : Type 0 where
  nobody : Chosen
  unavailable : String → Chosen
  chosen : Value → Chosen

pub record Ask : Type 0 where
  pub thread : String
  pub home : String
  pub recover : Bool
  pub owner : Value
  pub identity : Option String
  pub given : Option String
  pub live : Bool
  pub incompatible : Option String
  pub peer : Chosen
  pub socket : String
  pub path_error : Option String
  pub executable : Option String
  pub delivery : Option String
  pub budget : Option Value
  pub earlier : Earlier
  pub leaves : Bool

-- How it ends after its writes: a listener of this protocol runs already, an older one was asked to stop
-- and did not, or a new one is launched.
pub data Ending : Type 0 where
  running stuck launching : Ending

pub data Begun : Type 0 where
  refused : String → Begun
  begun : Ending → Fields → Store → Begun

abbrev text : Option String → String
text none = ""
text (some s) = s

abbrev is_mismatch : Option String → Option String → Bool
is_mismatch none given = true
is_mismatch (some i) none = false
is_mismatch (some i) (some g) = not (g == "") && not (g == i)

abbrev chosen_error : Chosen → Option String
chosen_error (unavailable reason) = some reason
chosen_error _ = none

abbrev is_nobody : Chosen → Bool
is_nobody nobody = true
is_nobody _ = false

abbrev is_empty : Fields → Bool
is_empty end = true
is_empty (field k v rest) = false

-- The owner that a bridge had is another one.
abbrev pub is_new_owner : Ask → Value → Bool
is_new_owner a previous = not (is_text (member previous "owner_identity") (text a.identity))

abbrev pub set_owner : Ask → Fields → Fields
set_owner a d = insert "supervision" (bool true) (
    insert "codex_bin" (str (text a.executable))
      (insert "owner_identity" (str (text a.identity)) (insert "owner_pid" a.owner d)))

abbrev new_config : Ask → Fields
new_config a =
    field "thread" (str a.thread)
      (field "socket" (str a.socket) (field "codex_home" (str a.home) end))

abbrev pub base_config : Ask → Value → Fields
base_config a (obj (field k v rest)) = field k v rest
base_config a _ = new_config a

-- The lifecycle that was seen is that of the owner.
abbrev pub is_seen : Ask → Store → Bool
is_seen a s = is_text (member (get s "hook_seen" null) "owner_identity") (text a.identity)

-- What an earlier owner was seen to do does not count for a new one; `seen` says that the lifecycle is its
-- own.
unfoldable pub reset : Bool → Bool → Store → Store
reset false seen s = s
reset true true s = delete "wake_pending" s
reset true false s = delete "wake_pending" (delete "hook_seen" (put "phase" (str "unknown") s))

abbrev pub reset_owner : Ask → Value → Store → Store
reset_owner a previous s = reset (truthy previous && is_new_owner a previous) (is_seen a s) s

abbrev pub with_default : Fields → Fields → Fields
with_default (field key v rest) config =
    if truthy (member (obj config) "default_peer")
    then config
    else insert "default_peer" (str key) config
with_default end config = config

abbrev pub set_delivery : Ask → Value → Store → Store
set_delivery a previous s =
    if truthy previous
    then s
    else put "delivery"
        (elim a.delivery [ none ↦ str "inbox" | some d ↦ if d == "" then str "inbox" else str d ]) s

abbrev pub put_budget : Value → Store → Store
put_budget v s = put "budget_limit" v (put "wake_remaining" v (put "remaining" v s))

abbrev pub set_budget : Option Value → Value → Store → Store
set_budget (some v) previous s = put_budget v s
set_budget none previous s = if truthy previous then s else put_budget unlimited s

-- The listener that was there at the start speaks protocol 6 or a later one.
abbrev pub is_current : Value → Bool
is_current runtime = elim (member runtime "protocol_version") [ int (pos n) ↦ leb 6 n | _ ↦ false ]

-- The end, with the stop of an older listener: `live` and `current` say of the listener that was there that
-- it runs and that it speaks the protocol, `leaves` that it exits within the time it is given.
unfoldable pub hand_over : Bool → Bool → Bool → Fields → Store → Begun
hand_over true true leaves config s = begun running config s
hand_over true false true config s =
    begun launching config (put "stop" (bool false) (put "stop" (bool true) s))
hand_over true false false config s = begun stuck config (put "stop" (bool true) s)
hand_over false current leaves config s = begun launching config (put "stop" (bool false) s)

module _ (host : Host) where
  abbrev pub reasons : Ask → Store → List (Bool × String)
  reasons a s =
      let previous = get s "config" null in
      (
        a.recover
            && (truthy (get s "stop" (bool false))
                || (truthy previous && not (truthy (member previous "supervision")))),
        "Bridge explicitly stopped; automatic recovery cancelled",
      )
      ∷ (is_mismatch a.identity a.given, "Owning Codex process exited or changed identity")
      ∷ (
        truthy previous
            && not (
                is_text (member previous "thread") a.thread
                && is_text (member previous "codex_home") a.home),
        "Saved bridge belongs to another thread or Codex home",
      )
      ∷ (is_some a.incompatible, text a.incompatible)
      ∷ (
        a.live && is_new_owner a previous,
        "Existing listener still belongs to the previous owner; wait for it to exit",
      )
      ∷ (is_some (chosen_error a.peer), text (chosen_error a.peer))
      ∷ (
        is_nobody a.peer && (not (truthy previous) || is_empty (all_peers host previous)),
        "Select a peer before starting a new bridge",
      )
      ∷ (is_some a.path_error, text a.path_error)
      ∷ (not (is_some a.executable), "Cannot resolve owning Codex executable")
      ∷ []

  -- The peers of the new configuration, stored with it.
  abbrev pub set_peers : Chosen → Fields → Store → Option (Fields × Store)
  set_peers (chosen peer) config s = enroll host peer (put "config" (obj config) s)
  set_peers _ config s =
      let table = insert "peers" (obj (all_peers host (obj config))) config in
      some (table, put "config" (obj table) s)

  -- The end, once the peers are stored, for the `runtime` that was read at the start.
  abbrev pub finish : Ask → Value → Value → Option (Fields × Store) → Begun
  finish a previous runtime none = refused "Peer record is incomplete"
  finish a previous runtime (some (config, s)) =
      let final = with_default (all_peers host (obj config)) config in
      let written =
        set_budget a.budget previous (set_delivery a previous (put "config" (obj final) s)) in
      hand_over a.live (is_current runtime) a.leaves final (seed_lifecycle a.earlier written).1

  unfoldable pub write_bridge : Ask → Value → Store → Begun
  unfolding reset hand_over
  write_bridge a previous s =
      finish a previous (get s "runtime" null)
        (set_peers a.peer (set_owner a (base_config a previous)) (reset_owner a previous s))

  abbrev pub unless : Ask → Store → Option String → Begun
  unless a s (some reason) = refused reason
  unless a s none = write_bridge a (get s "config" null) s

  -- `start_bridge`
  unfoldable pub begin : Ask → Store → Begun
  unfolding write_bridge first_reason
  begin a s = unless a s (first_reason (reasons a s))
