-- ===== src/Observe/Snapshot.antt =====
-- `snapshot` of src/peer_observe.py: the row of one bridge. The database is the store that was read,
-- `none` with the error where it cannot be; `second` is the number of ticks in a second.
use peer_chat.Base.{
  ℕ, suc, ◌+◌, ◌-◌, String, Bool, true, false, not, ◌&&◌, ◌||◌, Option, none, some, List, [], ◌∷◌,
  map, if◌then◌else◌, ◌==◌, max,
}
use Prim.Native.Nat.{◌/◌}
use peer_chat.Base.Int.{pos, negsuc}
use peer_chat.Base.Json.{
  Value, null, bool, int, real, str, obj, Fields, end, field, member, is_obj, is_text, truthy,
}
use peer_chat.Base.Text.{prefix, is_uuid}
use peer_chat.Base.Format.{show}
use peer_chat.Store.{Store, Status}
use peer_chat.Budget.{delivery_state}
use peer_chat.Lifecycle.{Rollout, turn_end_evidence}
use peer_chat.Peers.{Host, all_peers}
use peer_chat.Observe.Counts.{
  statuses, read_meta, pending_groups, unconsumed, total, group_count, pending_since, read_timings,
  open_writes, notice_failures,
}
use peer_chat.Observe.Shown.{
  RuntimeState, Delivery, is_reachable, Probe, runtime_state, key_short, PeerRow, Row, blank_row,
}
use peer_chat.Observe.Evidence.{view, with_evidence, show_delivery}
use peer_chat.Observe.Warning.{full_warning}

-- What the checks of the files find, before the database is opened.
pub record Files : Type 0 where
  pub exists : Bool
  pub dir_link : Bool
  pub dir_foreign : Bool
  pub link : Bool
  pub regular : Bool
  pub foreign : Bool

-- The errors of the files, the first that there is.
unfoldable pub file_error : Files → Option String
file_error f =
    if f.dir_link
    then some "bridge directory is a symlink"
    else if f.dir_foreign
    then some "bridge directory belongs to another user"
    else if f.link
    then some "state database is a symlink"
    else if not f.regular
    then some "state database is not a regular file"
    else if f.foreign
    then some "state database belongs to another user"
    else none

-- `max(0, int(now - at))`, in seconds.
abbrev age : ℕ → ℕ → ℕ → ℕ
age second now at = (now - at) / second

abbrev age_since : ℕ → ℕ → Value → Option ℕ
age_since second now (real at) = some (age second now at)
age_since second now (int (pos at)) = some (age second now at)
age_since second now (int (negsuc n)) = some ((now + suc n) / second)
age_since second now _ = none

-- `max(ages.values(), default=None)`
abbrev greatest : List (Status × ℕ) → Option ℕ
greatest [] = none
greatest ((status, age) ∷ rest) = some (elim (greatest rest) [ none ↦ age | some t ↦ max age t ])

abbrev allowance : Value → Value
allowance (int n) = int n
allowance v = if is_text v "unlimited" then v else null

abbrev known_phase : Value → String
known_phase (str p) = if p == "idle" || (p == "active" || p == "interrupted") then p else "unknown"
known_phase _ = "unknown"

-- `{k: d.get(k) for k in keys}`
abbrev pick : List String → Value → Fields
pick [] d = end
pick (k ∷ ks) d = field k (member d k) (pick ks d)

abbrev pick_from : List String → Value → Option Value
pick_from keys v = if is_obj v then some (obj (pick keys v)) else none

abbrev hook_keys : List String
hook_keys = "at" ∷ "event" ∷ "turn" ∷ "routing" ∷ []

abbrev watch_keys : List String
watch_keys =
    "attempts" ∷ "next_at" ∷ "last_result" ∷ "last_error" ∷ "last_attempt" ∷ "recovered_at"
    ∷ "paused_until" ∷ []

abbrev text? : Value → Option String
text? (str s) = some s
text? _ = none

-- `x is True`
abbrev is_true : Value → Bool
is_true (bool b) = b
is_true _ = false

-- `x if isinstance(x, int) else None`: Python's bool is an int.
abbrev int? : Value → Value
int? (int n) = int n
int? (bool b) = bool b
int? _ = null

module _ (other : Value → String) where
  abbrev peer_row : Value → PeerRow
  peer_row r = record {
    kind = member r "kind";
    name = member r "name";
    key = (elim (member r "key") [ null ↦ "" | v ↦ show other v ]);
    short = (elim (member r "key") [ null ↦ "" | v ↦ key_short (show other v) ]);
  }

  -- `_peers`
  unfoldable pub peer_rows : Fields → List PeerRow
  peer_rows end = []
  peer_rows (field key r rest) = peer_row r ∷ peer_rows rest

-- What `snapshot` uses beside the store.
pub record Context : Type 0 where
  pub host : Host
  pub probe : Probe
  pub rollout : Rollout
  pub other : Value → String
  pub second : ℕ
  pub now : ℕ
  pub notice_peers : List String

abbrev owner_identity : Context → Value → Value
owner_identity c config = elim (member config "owner_pid") [
  | int pid ↦ (elim (c.probe.process_identity pid) [ none ↦ null | some i ↦ str i ])
  | _ ↦ null
]

abbrev evidence_for : Context → Value → Value → Option Value
evidence_for c config seen = turn_end_evidence c.rollout (owner_identity c config) c.now config seen

-- The values of `meta` as the row is computed from them, with the evidence.
unfoldable pub observed_meta : Context → (String → Value) → (String → Value) × Option Value
unfolding runtime_state with_evidence
observed_meta c meta = elim (runtime_state c.probe meta).0 [
  | RuntimeState.running ↦ with_evidence (evidence_for c) meta
  | _ ↦ (meta, none)
]

-- The state that the row shows.
unfoldable pub observed_delivery : Context → (String → Value) → Delivery
unfolding observed_meta show_delivery
observed_delivery c meta =
    let (seen, evidence) = observed_meta c meta in
    show_delivery (runtime_state c.probe meta).0 (delivery_state (view seen)) evidence
      (meta "runtime")

abbrev pub is_running : RuntimeState → Bool
is_running RuntimeState.running = true
is_running _ = false

abbrev is_unconfigured : RuntimeState → Bool
is_unconfigured RuntimeState.unconfigured = true
is_unconfigured _ = false

abbrev is_filled_config : Value → Bool
is_filled_config config = is_obj config && truthy config

abbrev ages : Context → Store → List (Status × ℕ)
ages c s =
    map (λ p. let (status, at) = p in (status, age c.second c.now at))
      (pending_since statuses s.messages)

-- The row of a database that can be read, without its warning.
unfoldable pub readable_row : Context → String → String → Store → Row
unfolding observed_meta observed_delivery read_meta
readable_row c thread name s =
    let meta = read_meta s in
    let (runtime, listener) = runtime_state c.probe meta in
    let (seen, evidence) = observed_meta c meta in
    let delivery = observed_delivery c meta in
    let groups = pending_groups s in
    let config = meta "config" in
    let filled = is_filled_config config in
    let phase = known_phase (seen "phase") in
    record (blank_row thread name) {
      runtime_state = runtime;
      listener_alive = listener;
      socket_ok = filled && c.probe.socket_ok (member config "socket");
      phase_evidence = evidence;
      delivery_configured = some (delivery_state (view seen));
      delivery_state = delivery;
      pending_by_status = unconsumed groups;
      pending_count = total (unconsumed groups);
      received_total = some (total groups);
      acknowledged_total = some (group_count Status.consumed groups);
      delivery_timing = some (read_timings s);
      notice_failures = notice_failures c.notice_peers s;
      pending_ages = ages c s;
      oldest_pending_age = greatest (ages c s);
      outgoing_uncertain = open_writes s;
      remaining = allowance (meta "remaining");
      wake_remaining = allowance (meta "wake_remaining");
      budget_limit = allowance (meta "budget_limit");
      phase = phase;
      evidence_stale =
          not (is_running runtime) && (not (phase == "unknown") || is_obj (meta "hook_seen"));
      orphan = is_unconfigured runtime && (elim groups [ [] ↦ true | g ∷ gs ↦ false ]);
      hook_seen = pick_from hook_keys (meta "hook_seen");
      hook_age =
          (if is_obj (meta "hook_seen")
            then age_since c.second c.now (member (meta "hook_seen") "at")
            else none);
      hook_rejected = pick_from hook_keys (meta "hook_rejected");
      watch = pick_from watch_keys (meta "watch");
      worker_error = text? (meta "worker_error");
      restore_error = text? (meta "restore_error");
      wake_pending = pick_from ("id" ∷ "status" ∷ []) (meta "wake_pending");
      supervision_enabled = (if filled then some (is_true (member config "supervision")) else none);
      peers = (if filled then peer_rows c.other (all_peers c.host config) else []);
      default_peer =
          (if filled && truthy (member config "default_peer")
            then some (show c.other (member config "default_peer"))
            else none);
      owner_pid = (if filled then int? (member config "owner_pid") else null);
      runtime_pid = int? (member (meta "runtime") "pid");
      reachable = is_running runtime && is_reachable delivery;
    }

-- `row["warning"]` in the end; where an error ends the row early there is nothing to append.
abbrev pub warned : (Value → String) → Row → Row
warned other r = record r { warning = full_warning other r }

abbrev pub error_row : (Value → String) → String → String → String → Row
error_row other thread name why = warned other (record (blank_row thread name) { error = some why })

-- What reading the database gives: the store, or the text of the error.
pub data Database : Type 0 where
  opened : Store → Database
  broken : String → Database

abbrev pub name_or : Option String → String → String
name_or none thread = prefix 8 thread
name_or (some name) thread = name

unfoldable pub row_of : Context → String → String → Option String → Database → Row
unfolding readable_row full_warning
row_of c thread name (some why) database = error_row c.other thread name why
row_of c thread name none (broken why) = error_row c.other thread name why
row_of c thread name none (opened s) = warned c.other (readable_row c thread name s)

-- `snapshot`; `name` is what the registry says, if it says one.
unfoldable pub snapshot : Context → Files → Option String → Database → String → Option Row
unfolding file_error row_of
snapshot c files name database thread =
    if not (is_uuid thread && files.exists)
    then none
    else some (row_of c thread (name_or name thread) (file_error files) database)
