-- ===== src/Observe/Reachable.antt =====
-- When `snapshot` of src/peer_observe.py shows a bridge as reachable, and what it warns of.
use peer_chat.Base.{
  and_first, and_second, String, ◌≡◌, refl, ap, ◌∙◌, ◌⊎◌, inl, inr, Bool, true, false, ◌&&◌, Option,
  none, some, arith, if◌then◌else◌, is_some, Bool-cases, some_inj,
}
use peer_chat.Base.Json.{Value, member, is_obj}
use peer_chat.Base.Text.{is_uuid}
use peer_chat.Store.{Store}
use peer_chat.Budget.{DeliveryState, delivery_state}
use peer_chat.Observe.Counts.{read_meta}
use peer_chat.Observe.Shown.{
  RuntimeState, Delivery, is_reachable, Probe, is_alive, is_stop, listener_of, judge_runtime,
  runtime_state, Row,
}
use peer_chat.Observe.Evidence.{view, is_old, show_delivery}
use peer_chat.Observe.Snapshot.{
  Context, Files, Database, opened, broken, file_error, observed_meta, observed_delivery,
  readable_row, row_of, snapshot, is_running, name_or,
}

-- The bridge runs: its configuration is there, it was not stopped, the processes of its owner and its
-- listener are those that were recorded, and its socket is in place.
pub record Runs (probe : Probe) (meta : String → Value) : Type 0 where
  pub configured : is_obj (meta "config") ≡ true
  pub not_stopped : is_stop (meta "stop") ≡ false
  pub owner :
      is_alive probe (member (meta "config") "owner_pid") (member (meta "config") "owner_identity")
      ≡ true
  pub listener :
      is_alive probe (member (meta "runtime") "pid") (member (meta "runtime") "identity") ≡ true
  pub socket : probe.socket_ok (member (meta "config") "socket") ≡ true

judge_runtime-running :
    (a b c d e : Bool)
    → is_running (judge_runtime a b c d e).0 ≡ true
    → (a ≡ true) × (b ≡ false) × (c ≡ true) × (d ≡ true) × (e ≡ true)
unfolding judge_runtime
judge_runtime-running a b c d e h =
    (ground arith, ground arith, ground arith, ground arith, ground arith)

pub runtime_state-Runs :
    (probe : Probe) (meta : String → Value)
    → is_running (runtime_state probe meta).0 ≡ true
    → Runs probe meta
unfolding runtime_state
runtime_state-Runs probe meta h =
    let all =
      judge_runtime-running (is_obj (meta "config")) (is_stop (meta "stop"))
        (is_alive probe (member (meta "config") "owner_pid")
          (member (meta "config") "owner_identity"))
        (listener_of probe (meta "runtime")) (probe.socket_ok (member (meta "config") "socket"))
        h in
    record {
      configured = all.0;
      not_stopped = all.1;
      owner = all.2;
      listener = and_second (is_obj (meta "runtime")) _ all.3;
      socket = all.4;
    }

-- The states in which a message reaches the model.
abbrev pub Reaches : DeliveryState → Type 0
Reaches d = (d ≡ DeliveryState.active_hooks) ⊎ (d ≡ DeliveryState.idle_wake_enabled)

show_delivery-Reaches :
    (r : RuntimeState) (d : DeliveryState) (evidence : Option Value) (runtime : Value)
    → is_reachable (show_delivery r d evidence runtime) ≡ true
    → Reaches d
unfolding show_delivery
show_delivery-Reaches RuntimeState.running d evidence runtime h =
    by_old d (is_some evidence && is_old runtime) h
  where
    by_old :
        (e : DeliveryState) (old : Bool)
        → is_reachable (
            if old
            then elim e [
              | DeliveryState.idle_wake_enabled ↦ Delivery.awaiting_listener_upgrade
              | other ↦ Delivery.stored other
            ]
            else Delivery.stored e)
          ≡ true
        → Reaches e
    by_old DeliveryState.active_hooks old h = inl refl
    by_old DeliveryState.idle_wake_enabled old h = inr refl
    by_old e true h = cc
    by_old e false h = cc
show_delivery-Reaches r d evidence runtime h = cc

-- What stands behind a row that shows a bridge as reachable.
pub record Reached (c : Context) (files : Files) (database : Database) : Type 0 where
  pub store : Store
  pub opens : database ≡ opened store
  pub sound : file_error files ≡ none
  pub runs : Runs c.probe (read_meta store)
  pub reaches : Reaches (delivery_state (view (observed_meta c (read_meta store)).0))

readable-Reached :
    (c : Context) (files : Files) (thread name : String) (s : Store)
    → file_error files ≡ none
    → (readable_row c thread name s).reachable ≡ true
    → Reached c files (opened s)
unfolding readable_row observed_delivery
readable-Reached c files thread name s sound h =
    let runtime = (runtime_state c.probe (read_meta s)).0 in
    record {
      store = s;
      opens = refl;
      sound = sound;
      runs = runtime_state-Runs c.probe (read_meta s) (and_first (is_running runtime) _ h);
      reaches = show_delivery-Reaches runtime _ _ _ (and_second (is_running runtime) _ h);
    }

row_of-Reached :
    (c : Context) (files : Files) (thread name : String) (error : Option String)
    (database : Database)
    → file_error files ≡ error
    → (row_of c thread name error database).reachable ≡ true
    → Reached c files database
unfolding row_of
row_of-Reached c files thread name (some why) database e h = cc
row_of-Reached c files thread name none (broken why) e h = cc
row_of-Reached c files thread name none (opened s) e h = readable-Reached c files thread name s e h

pub snapshot-row :
    (c : Context) (files : Files) (name : Option String) (database : Database) (thread : String)
    (row : Row)
    → snapshot c files name database thread ≡ some row
    → row_of c thread (name_or name thread) (file_error files) database ≡ row
unfolding snapshot
snapshot-row c files name database thread row h =
    elim (Bool-cases (is_uuid thread && files.exists)) [
      | inr n ↦ cc (rw (n, snapshot) at h)
      | inl y ↦ some_inj _ row (rw (y, snapshot) at h)
    ]

-- A row that shows a bridge as reachable comes from a database whose files are sound and that was
-- opened; there the bridge is configured and not stopped, its owner and its listener are the live
-- processes on record and its socket is in place; and the delivery state, the phase corrected by the
-- evidence, is active_hooks or idle_wake_enabled.
pub snapshot-Reached :
    (c : Context) (files : Files) (name : Option String) (database : Database) (thread : String)
    (row : Row)
    → snapshot c files name database thread ≡ some row
    → row.reachable ≡ true
    → Reached c files database
snapshot-Reached c files name database thread row h r =
    row_of-Reached c files thread (name_or name thread) (file_error files) database refl
      (ap (λ x. x.reachable) (snapshot-row c files name database thread row h) ∙ r)
