-- ===== src/Wake/Decide.antt =====
-- `active_hook` and `record_wake` of src/peer_wake.py, for a wake that is pending.
use peer_chat.Base.{
  ℕ, String, ◌≡◌, refl, sym, ap, ◌∙◌, ◌<◌, Bool, true, false, none, some, arith, ◌&&◌, not, ltb,
  Bool-cases, inl, inr, if◌then◌else◌,
}
use peer_chat.Base.Json.{Value, null, str, obj, Fields, member, is_text, is_null, is_obj}
use peer_chat.Store.{Store}
use peer_chat.Wake.{
  WakeState, Evidence, name, rank, rank_of, get_or, record_state, refuses, refuse, proceed, begin,
  bump, advance, fresh, pending, is_pending, mark, valid_id,
}
use peer_chat.Wake.Events.{
  active_hook, decide_wake, hook_evidence, record_wake, record_producer, is_writing, producer,
  cleared_detail, is_stale, is_withdrawn, verdict, is_notice, is_active_event, producer_state,
}
use peer_chat.Wake.Rank.{
  final-refuses, is_last, last_state, progress, is_last-fields, record_state-last,
  record_state-other, record_state-Shows, begin-Shows,
}

pending-mark :
    (wake : String) (state : WakeState) (d : Fields) (s : Store)
    → is_pending state ≡ false
    → get_or (mark wake state d s) "wake_pending" null ≡ null
pending-mark wake WakeState.writing d s h = cc
pending-mark wake WakeState.queued d s h = cc
pending-mark wake WakeState.failed d s h = cc
pending-mark wake WakeState.uncertain d s h = cc
pending-mark wake _ d s h = refl

progress-fields :
    (wake : String) (d : Fields) (s : Store)
    → get_or s "last_wake" null ≡ obj d
    → is_text (member (obj d) "id") wake ≡ true
    → progress wake s ≡ rank_of (member (obj d) "state")
progress-fields wake d s e k = rw (e, k)

open-refuses :
    (state : WakeState) (d : Fields)
    → rank state ≡ 3
    → rank_of (member (obj d) "state") < 3
    → refuses state d ≡ false
open-refuses state d h k = ground arith

not_pending : (state : WakeState) → rank state ≡ 3 → is_pending state ≡ false
not_pending WakeState.writing h = absurd (omega arith)
not_pending _ h = ground arith

last_not_stale : (w o t : Bool) → (o && t) ≡ true → (not w && (o && not (o && t))) ≡ false
last_not_stale w o t h = ground arith

lt→ltb : (a b : ℕ) → a < b → ltb a b ≡ true
lt→ltb a b h = ground arith

proceed-pending :
    (wake : String) (state : WakeState) (e : Evidence) (now : ℕ) (d : Fields) (s : Store)
    → rank state ≡ 3
    → get_or (proceed wake state e now d s).1 "wake_pending" null ≡ null
unfolding proceed
proceed-pending wake state e now d s h =
    pending-mark wake state (advance state e now d) _ (not_pending state h)

begin-pending :
    (wake : String) (state : WakeState) (e : Evidence) (now : ℕ) (s : Store)
    → rank state ≡ 3
    → get_or (begin wake state e now s).1 "wake_pending" null ≡ null
unfolding begin
begin-pending wake state e now s h =
    pending-mark wake state (fresh wake state e now) (bump state s) (not_pending state h)

-- An outcome for a wake that has none: it is recorded, and `wake_pending` is cleared.
record_state-decides :
    (wake : String) (state : WakeState) (e : Evidence) (now : ℕ) (s : Store)
    → rank state ≡ 3
    → progress wake s < 3
    → (get_or (record_state wake state e now s).1 "wake_pending" null ≡ null)
      × (is_last wake (record_state wake state e now s).1 ≡ true)
      × (last_state (record_state wake state e now s).1 ≡ str (name state))
record_state-decides wake state e now s h k = elim (Bool-cases (is_last wake s)) [
  | inl l ↦
      let (d, e₁, t) = is_last-fields wake (get_or s "last_wake" null) l in
      let r : refuses state d ≡ false =
        open-refuses state d h (rw (progress-fields wake d s e₁ t) at k) in
      let after = record_state-Shows wake state e now d s e₁ t in
      (
        rw (record_state-last wake state e now d s e₁ t)
            (rw r (proceed-pending wake state e now d s h)),
        after.0,
        after.1 ∙ rw r,
      )
  | inr l ↦ rw (record_state-other wake state e now _ s refl l) (
    begin-pending wake state e now s h,
    (begin-Shows wake state e now s).0,
    (begin-Shows wake state e now s).1,
  )
]

verdict-rank : (payload waiting : Value) (wake : String) → rank (verdict payload waiting wake).0 ≡ 3
verdict-rank payload waiting wake =
    elim (Bool-cases
      (is_text (member payload "hook_event_name") "UserPromptSubmit" && is_notice payload wake)) [
        | inl e ↦ rw e
        | inr e ↦ rw e (elim (Bool-cases (is_text (member waiting "status") "writing")) [
          | inl w ↦ rw w
          | inr w ↦ rw w
        ])
      ]

verdict-name :
    (payload waiting : Value) (wake : String)
    → name (verdict payload waiting wake).0 ≡ (
        if is_text (member payload "hook_event_name") "UserPromptSubmit" && is_notice payload wake
        then "activated"
        else if is_text (member waiting "status") "writing"
        then "raced"
        else "cancelled")
verdict-name payload waiting wake =
    elim (Bool-cases
      (is_text (member payload "hook_event_name") "UserPromptSubmit" && is_notice payload wake)) [
        | inl e ↦ rw e refl
        | inr e ↦ rw e (elim (Bool-cases (is_text (member waiting "status") "writing")) [
          | inl w ↦ rw w refl
          | inr w ↦ rw w refl
        ])
      ]

decide_wake-state :
    (payload waiting : Value) (wake : String) (now : ℕ) (s : Store)
    → member waiting "id" ≡ str wake
    → (decide_wake payload waiting now s).1
      ≡ (record_state wake
          (verdict payload waiting wake).0
          (hook_evidence payload (verdict payload waiting wake).1)
          now
          s).1
decide_wake-state payload waiting wake now s i = rw (i, decide_wake)

active_hook-state :
    (payload waiting : Value) (now : ℕ) (s : Store)
    → is_active_event (member payload "hook_event_name") ≡ true
    → pending s ≡ some waiting
    → (active_hook payload now s).1 ≡ (decide_wake payload waiting now s).1
unfolding active_hook
active_hook-state payload waiting now s a p = rw (a, p)

-- The hook of an active turn decides a pending wake that has no outcome: the marker is cleared, and
-- the record says activated if the prompt is the queued notice, else raced if the queue call had
-- not returned, else cancelled.
pub active_hook_decides :
    (payload waiting : Value) (wake : String) (now : ℕ) (s : Store)
    → is_active_event (member payload "hook_event_name") ≡ true
    → pending s ≡ some waiting
    → member waiting "id" ≡ str wake
    → progress wake s < 3
    → (get_or (active_hook payload now s).1 "wake_pending" null ≡ null)
      × (is_last wake (active_hook payload now s).1 ≡ true)
      × (last_state (active_hook payload now s).1
          ≡ str (
              if is_text (member payload "hook_event_name") "UserPromptSubmit"
                && is_notice payload wake
              then "activated"
              else if is_text (member waiting "status") "writing"
              then "raced"
              else "cancelled"))
active_hook_decides payload waiting wake now s a p i k =
    let (cleared, latest, state) =
      record_state-decides wake (verdict payload waiting wake).0
        (hook_evidence payload (verdict payload waiting wake).1) now s
        (verdict-rank payload waiting wake) k in
    rw (active_hook-state payload waiting now s a p, decide_wake-state payload waiting wake now s i)
      (cleared, latest, state ∙ ap str (verdict-name payload waiting wake))

refuse-nothing : (e : Evidence) (d : Fields) (s : Store) → e.queue_id ≡ none → (refuse e d s).1 ≡ s
unfolding refuse
refuse-nothing e d s h = rw h

record_state-decided :
    (wake : String) (state : WakeState) (e : Evidence) (now : ℕ) (s : Store)
    → is_last wake s ≡ true
    → rank_of (last_state s) ≡ 3
    → e.queue_id ≡ none
    → (record_state wake state e now s).1 ≡ s
record_state-decided wake state e now s l r q =
    let (d, e₁, t) = is_last-fields wake (get_or s "last_wake" null) l in
    let same : last_state s ≡ member (obj d) "state" = ap (λ v. member v "state") e₁ in
    rw (record_state-last wake state e now d s e₁ t)
      (rw (final-refuses state d (sym (ap rank_of same) ∙ r)) (refuse-nothing e d s q))

-- Where the latest record of the pending wake is decided already, the hook of an active turn
-- changes nothing: the marker stays, as it does after the same message was claimed again.
pub active_hook_stuck :
    (payload waiting : Value) (wake : String) (now : ℕ) (s : Store)
    → is_active_event (member payload "hook_event_name") ≡ true
    → pending s ≡ some waiting
    → member waiting "id" ≡ str wake
    → is_last wake s ≡ true
    → rank_of (last_state s) ≡ 3
    → (active_hook payload now s).1 ≡ s
active_hook_stuck payload waiting wake now s a p i l r =
    rw (active_hook-state payload waiting now s a p, decide_wake-state payload waiting wake now s i)
      (record_state-decided wake (verdict payload waiting wake).0
        (hook_evidence payload (verdict payload waiting wake).1) now s l r refl)

record_wake-producer :
    (marker : Value) (wake : String) (state : WakeState) (now : ℕ) (s : Store)
    → member marker "id" ≡ str wake
    → valid_id (str wake) ≡ true
    → producer_state (member marker "status") ≡ some state
    → record_wake marker now s ≡ record_producer wake state marker now s
unfolding record_wake
record_wake-producer marker wake state now s i v p =
    rw (i, record_wake) (rw v (rw (p, record_wake)))

-- A producer's outcome that arrives after a newer wake was claimed changes nothing.
pub record_wake_older :
    (marker : Value) (wake : String) (state : WakeState) (now : ℕ) (s : Store)
    → member marker "id" ≡ str wake
    → valid_id (str wake) ≡ true
    → producer_state (member marker "status") ≡ some state
    → is_writing state ≡ false
    → is_obj (get_or s "last_wake" null) ≡ true
    → is_last wake s ≡ false
    → (record_wake marker now s).1 ≡ s
unfolding record_producer
record_wake_older marker wake state now s i v p w o l =
    let stale : is_stale state wake s ≡ true = rw (w, l) (rw o) in
    rw (record_wake-producer marker wake state now s i v p) (rw stale)

-- A producer's outcome that arrives after the marker was cleared, while the wake had none, is
-- recorded as cancelled, and the marker is not set again.
pub record_wake_cleared :
    (marker : Value) (wake : String) (state : WakeState) (now : ℕ) (s : Store)
    → member marker "id" ≡ str wake
    → valid_id (str wake) ≡ true
    → producer_state (member marker "status") ≡ some state
    → is_writing state ≡ false
    → is_last wake s ≡ true
    → progress wake s < 3
    → is_null (get_or s "wake_pending" null) ≡ true
    → (get_or (record_wake marker now s).1 "wake_pending" null ≡ null)
      × (last_state (record_wake marker now s).1 ≡ str (name WakeState.cancelled))
unfolding record_producer
record_wake_cleared marker wake state now s i v p w l k u =
    let open_wake : ltb (rank_of (last_state s)) 3 ≡ true = lt→ltb _ 3 (rw l at k) in
    let fresh_one : is_stale state wake s ≡ false =
      last_not_stale (is_writing state) (is_obj (get_or s "last_wake" null)) _ l in
    let withdrawn : is_withdrawn state wake s ≡ true = rw (w, l, open_wake) u in
    let decided =
      record_state-decides wake WakeState.cancelled
        (producer marker (cleared_detail (member marker "status"))) now s refl k in
    rw (record_wake-producer marker wake state now s i v p)
      (rw (fresh_one, withdrawn) (decided.0, decided.2))
