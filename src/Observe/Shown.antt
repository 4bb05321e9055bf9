-- ===== src/Observe/Shown.antt =====
-- The row of src/peer_observe.py that is shown of a bridge, and its `_runtime_state`.
use Prim.Native.String.{◌++◌}
use text.Mathlib.Text.{starts_with}
use peer_chat.Base.{
  ℕ, String, Bool, true, false, not, ◌&&◌, Option, none, some, List, [], ◌∷◌, if◌then◌else◌, ◌==◌,
  leb, length,
}
use peer_chat.Base.Int.{ℤ}
use peer_chat.Base.Json.{Value, null, bool, int, str, member, is_obj}
use peer_chat.Base.Text.{prefix}
use peer_chat.Base.Format.{drop_text, split_list, join_with}
use peer_chat.Store.{Status}
use peer_chat.Budget.{DeliveryState}
use peer_chat.Observe.Counts.{Timings, Failure}

pub data RuntimeState : Type 0 where
  running listener_down owner_offline stopped unconfigured unreadable : RuntimeState

abbrev pub runtime_name : RuntimeState → String
runtime_name RuntimeState.running = "running"
runtime_name RuntimeState.listener_down = "listener_down"
runtime_name RuntimeState.owner_offline = "owner_offline"
runtime_name RuntimeState.stopped = "stopped"
runtime_name RuntimeState.unconfigured = "unconfigured"
runtime_name RuntimeState.unreadable = "unreadable"

abbrev pub delivery_name : DeliveryState → String
delivery_name DeliveryState.manual_inbox = "manual_inbox"
delivery_name DeliveryState.paused_interrupted = "paused_interrupted"
delivery_name DeliveryState.paused_budget = "paused_budget"
delivery_name DeliveryState.after_turn_queue = "after_turn_queue"
delivery_name DeliveryState.awaiting_lifecycle_hook = "awaiting_lifecycle_hook"
delivery_name DeliveryState.paused_wake_budget = "paused_wake_budget"
delivery_name DeliveryState.active_hooks = "active_hooks"
delivery_name DeliveryState.idle_live_only = "idle_live_only"
delivery_name DeliveryState.idle_wake_enabled = "idle_wake_enabled"

-- The field `delivery_state`: that of the store while the bridge runs, else the runtime state.
pub data Delivery : Type 0 where
  unknown awaiting_listener_upgrade : Delivery
  stored : DeliveryState → Delivery
  offline : RuntimeState → Delivery

abbrev pub shown_delivery : Delivery → String
shown_delivery Delivery.unknown = "unknown"
shown_delivery Delivery.awaiting_listener_upgrade = "awaiting_listener_upgrade"
shown_delivery (Delivery.stored d) = delivery_name d
shown_delivery (Delivery.offline r) = runtime_name r

-- `row["delivery_state"] in REACHABLE_STATES`
abbrev pub is_reachable : Delivery → Bool
is_reachable (Delivery.stored DeliveryState.active_hooks) = true
is_reachable (Delivery.stored DeliveryState.idle_wake_enabled) = true
is_reachable (Delivery.stored _) = false
is_reachable _ = false

-- What is found out about processes and sockets.
pub record Probe : Type 0 where
  pub process_identity : ℤ → Option String
  pub socket_ok : Value → Bool

-- `_alive`
unfoldable pub is_alive : Probe → Value → Value → Bool
is_alive probe (int pid) (str identity) = elim (probe.process_identity pid) [
  | none ↦ false
  | some found ↦ found == identity
]
is_alive probe _ _ = false

abbrev pub is_stop : Value → Bool
is_stop (bool b) = b
is_stop _ = false

abbrev pub listener_of : Probe → Value → Bool
listener_of probe runtime =
    is_obj runtime && is_alive probe (member runtime "pid") (member runtime "identity")

-- The precedence of `_runtime_state`, over its tests in their order.
unfoldable pub judge_runtime : Bool → Bool → Bool → Bool → Bool → RuntimeState × Bool
judge_runtime configured stop owner listener socket =
    if not configured
    then (RuntimeState.unconfigured, false)
    else if stop
    then (RuntimeState.stopped, listener)
    else if not owner
    then (RuntimeState.owner_offline, listener)
    else if listener && socket
    then (RuntimeState.running, true)
    else (RuntimeState.listener_down, listener)

-- `_runtime_state`
unfoldable pub runtime_state : Probe → (String → Value) → RuntimeState × Bool
unfolding is_alive judge_runtime
runtime_state probe meta =
    let config = meta "config" in
    judge_runtime (is_obj config) (is_stop (meta "stop"))
      (is_alive probe (member config "owner_pid") (member config "owner_identity"))
      (listener_of probe (meta "runtime")) (probe.socket_ok (member config "socket"))

abbrev last_of : List String → String
last_of [] = ""
last_of (x ∷ []) = x
last_of (x ∷ y ∷ xs) = last_of (y ∷ xs)

abbrev last_two : List String → List String
last_two [] = []
last_two (x ∷ []) = x ∷ []
last_two (x ∷ y ∷ []) = x ∷ y ∷ []
last_two (x ∷ y ∷ z ∷ xs) = last_two (y ∷ z ∷ xs)

-- `key_short`, of a key that is text.
unfoldable pub key_short : String → String
key_short text =
    let parts = split_list b':' text in
    if starts_with text "codex:"
    then "codex:"
      ++ (if leb 3 (length parts) then prefix 8 (last_of parts) else prefix 8 (drop_text 6 text))
    else if leb 3 (length parts)
    then join_with ":" (last_two parts)
    else prefix 20 text

pub record PeerRow : Type 0 where
  pub kind : Value
  pub name : Value
  pub key : String
  pub short : String

pub data WakeSource : Type 0 where
  explicit legacy_fallback : WakeSource

-- The row; a value that the source shows as `None` is `none` or `null`.
pub record Row : Type 0 where
  pub thread : String
  pub name : String
  pub runtime_state : RuntimeState
  pub delivery_state : Delivery
  pub delivery_configured : Option DeliveryState
  pub reachable : Bool
  pub pending_count : ℕ
  pub pending_by_status : List (Status × ℕ)
  pub outgoing_uncertain : ℕ
  pub oldest_pending_age : Option ℕ
  pub pending_ages : List (Status × ℕ)
  pub delivery_timing : Option Timings
  pub notice_failures : List Failure
  pub received_total : Option ℕ
  pub acknowledged_total : Option ℕ
  pub remaining : Value
  pub wake_remaining : Value
  pub budget_limit : Value
  pub phase : String
  pub phase_evidence : Option Value
  pub evidence_stale : Bool
  pub orphan : Bool
  pub hook_seen : Option Value
  pub hook_rejected : Option Value
  pub hook_age : Option ℕ
  pub watch : Option Value
  pub worker_error : Option String
  pub restore_error : Option String
  pub wake_pending : Option Value
  pub supervision_enabled : Option Bool
  pub peers : List PeerRow
  pub default_peer : Option String
  pub runtime_pid : Value
  pub owner_pid : Value
  pub listener_alive : Bool
  pub socket_ok : Bool
  pub error : Option String
  pub warning : Option String

-- The row as it stands before anything was read.
abbrev pub blank_row : String → String → Row
blank_row thread name = record {
  thread = thread;
  name = name;
  runtime_state = RuntimeState.unreadable;
  delivery_state = Delivery.unknown;
  delivery_configured = none;
  reachable = false;
  pending_count = 0;
  pending_by_status = [];
  outgoing_uncertain = 0;
  oldest_pending_age = none;
  pending_ages = [];
  delivery_timing = none;
  notice_failures = [];
  received_total = none;
  acknowledged_total = none;
  remaining = null;
  wake_remaining = null;
  budget_limit = null;
  phase = "unknown";
  phase_evidence = none;
  evidence_stale = false;
  orphan = false;
  hook_seen = none;
  hook_rejected = none;
  hook_age = none;
  watch = none;
  worker_error = none;
  restore_error = none;
  wake_pending = none;
  supervision_enabled = none;
  peers = [];
  default_peer = none;
  runtime_pid = null;
  owner_pid = null;
  listener_alive = false;
  socket_ok = false;
  error = none;
  warning = none;
}

-- `wake_remaining_effective` and `wake_remaining_source`: without a wake allowance it is the other.
abbrev pub wake_effective : Row → Value
wake_effective r = elim r.wake_remaining [ null ↦ r.remaining | v ↦ v ]

abbrev pub wake_source : Row → Option WakeSource
wake_source r = elim r.wake_remaining [
  | null ↦ (elim r.remaining [ null ↦ none | _ ↦ some WakeSource.legacy_fallback ])
  | _ ↦ some WakeSource.explicit
]
