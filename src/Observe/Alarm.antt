-- ===== src/Observe/Alarm.antt =====
-- The warning of a row of src/peer_observe.py that is not reachable.
use peer_chat.Base.{
  ℕ, String, ◌≡◌, refl, sym, ap, ◌∙◌, inl, inr, Bool, true, false, ◌&&◌, Option, none, some, arith,
  if◌then◌else◌, is_some, length, Bool-cases,
}
use peer_chat.Base.Json.{Value}
use peer_chat.Store.{Store, Status}
use peer_chat.Budget.{DeliveryState}
use peer_chat.Observe.Counts.{read_meta, group_count}
use peer_chat.Observe.Shown.{RuntimeState, Delivery, is_reachable, runtime_state, Row, blank_row}
use peer_chat.Observe.Warning.{
  runtime_warning, delivery_warning, warning, with_held, with_failures, full_warning,
}
use peer_chat.Observe.Snapshot.{
  Context, Files, Database, opened, broken, file_error, observed_delivery, readable_row, error_row,
  row_of, snapshot, is_running, name_or,
}
use peer_chat.Observe.Evidence.{is_old, show_delivery}
use peer_chat.Observe.Reachable.{snapshot-row}

not_second : (a b : Bool) → a ≡ true → (a && b) ≡ false → b ≡ false
not_second a b e h = ground arith

with_notes :
    (held failures : ℕ) (w : Option String)
    → is_some w ≡ true
    → is_some (with_failures failures (with_held held w)) ≡ true
with_notes held failures w h = ground arith

-- The delivery states that a running bridge can show.
abbrev is_live : Delivery → Bool
is_live (Delivery.stored d) = true
is_live Delivery.awaiting_listener_upgrade = true
is_live _ = false

show_delivery-live :
    (d : DeliveryState) (evidence : Option Value) (runtime : Value)
    → is_live (show_delivery RuntimeState.running d evidence runtime) ≡ true
unfolding show_delivery
show_delivery-live d evidence runtime = by_old d (is_some evidence && is_old runtime)
  where
    by_old :
        (e : DeliveryState) (old : Bool)
        → is_live (
            if old
            then elim e [
              | DeliveryState.idle_wake_enabled ↦ Delivery.awaiting_listener_upgrade
              | other ↦ Delivery.stored other
            ]
            else Delivery.stored e)
          ≡ true
    by_old DeliveryState.idle_wake_enabled true = refl
    by_old e true = refl
    by_old e false = refl

module _ (other : Value → String) (r : Row) where
  runtime_warning-down :
      (s : RuntimeState) → is_running s ≡ false → is_some (runtime_warning other s r) ≡ true
  unfolding runtime_warning
  runtime_warning-down RuntimeState.running h = cc
  runtime_warning-down s h = refl

  delivery_warning-unreachable :
      (d : Delivery)
      → is_live d ≡ true
      → is_reachable d ≡ false
      → is_some (delivery_warning other d r) ≡ true
  unfolding delivery_warning
  delivery_warning-unreachable Delivery.unknown l h = cc
  delivery_warning-unreachable (Delivery.offline s) l h = cc
  delivery_warning-unreachable Delivery.awaiting_listener_upgrade l h = refl
  delivery_warning-unreachable (Delivery.stored DeliveryState.active_hooks) l h = cc
  delivery_warning-unreachable (Delivery.stored DeliveryState.idle_wake_enabled) l h = cc
  delivery_warning-unreachable (Delivery.stored d) l h = refl

  -- The first of the warnings.
  warning-runtime :
      is_some (runtime_warning other r.runtime_state r) ≡ true → is_some (warning other r) ≡ true
  unfolding warning
  warning-runtime h = ground arith

  warning-delivery :
      is_some (delivery_warning other r.delivery_state r) ≡ true → is_some (warning other r) ≡ true
  unfolding warning
  warning-delivery h = ground arith

  warning-unreachable :
      (is_running r.runtime_state ≡ true → is_live r.delivery_state ≡ true)
      → (is_running r.runtime_state && is_reachable r.delivery_state) ≡ false
      → is_some (warning other r) ≡ true
  warning-unreachable live h = elim (Bool-cases (is_running r.runtime_state)) [
    | inr down ↦ warning-runtime (runtime_warning-down r.runtime_state down)
    | inl up ↦ warning-delivery (
        delivery_warning-unreachable r.delivery_state (live up)
          (not_second (is_running r.runtime_state) _ up h))
  ]

show_delivery-running :
    (state : RuntimeState) (d : DeliveryState) (evidence : Option Value) (runtime : Value)
    → is_running state ≡ true
    → is_live (show_delivery state d evidence runtime) ≡ true
show_delivery-running RuntimeState.running d evidence runtime h =
    show_delivery-live d evidence runtime
show_delivery-running state d evidence runtime h = cc

observed_delivery-live :
    (c : Context) (meta : String → Value)
    → is_running (runtime_state c.probe meta).0 ≡ true
    → is_live (observed_delivery c meta) ≡ true
unfolding observed_delivery
observed_delivery-live c meta h = show_delivery-running (runtime_state c.probe meta).0 _ _ _ h

-- In a row that was read, a state that is not reachable has a warning.
readable-warned :
    (c : Context) (thread name : String) (s : Store)
    → (readable_row c thread name s).reachable ≡ false
    → is_some (warning c.other (readable_row c thread name s)) ≡ true
unfolding readable_row
readable-warned c thread name s h =
    warning-unreachable c.other (readable_row c thread name s)
      (observed_delivery-live c (read_meta s)) h

full_warning-some :
    (other : Value → String) (r : Row)
    → is_some (warning other r) ≡ true
    → is_some (full_warning other r) ≡ true
unfolding full_warning
full_warning-some other r h =
    with_notes (group_count Status.held r.pending_by_status) (length r.notice_failures)
      (warning other r) h

error-warned :
    (other : Value → String) (thread name why : String)
    → is_some (error_row other thread name why).warning ≡ true
error-warned other thread name why =
    full_warning-some other (record (blank_row thread name) { error = some why })
      (warning-runtime other (record (blank_row thread name) { error = some why })
        (runtime_warning-down other (record (blank_row thread name) { error = some why })
          RuntimeState.unreadable refl))

row_of-warned :
    (c : Context) (thread name : String) (error : Option String) (database : Database)
    → (row_of c thread name error database).reachable ≡ false
    → is_some (row_of c thread name error database).warning ≡ true
unfolding row_of
row_of-warned c thread name (some why) database h = error-warned c.other thread name why
row_of-warned c thread name none (broken why) h = error-warned c.other thread name why
row_of-warned c thread name none (opened s) h =
    full_warning-some c.other (readable_row c thread name s) (readable-warned c thread name s h)

-- A row that does not show its bridge as reachable has a warning.
pub snapshot-warned :
    (c : Context) (files : Files) (name : Option String) (database : Database) (thread : String)
    (row : Row)
    → snapshot c files name database thread ≡ some row
    → row.reachable ≡ false
    → is_some row.warning ≡ true
snapshot-warned c files name database thread row h r =
    let same = snapshot-row c files name database thread row h in
    ap (λ x. is_some x.warning) (sym same)
    ∙ row_of-warned c thread (name_or name thread) (file_error files) database
        (ap (λ x. x.reachable) same ∙ r)
