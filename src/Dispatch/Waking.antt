-- ===== src/Dispatch/Waking.antt =====
-- The claim of `wake_idle` of src/peer_chat.py.
use peer_chat.Base.{
  ℕ, String, ◌≡◌, refl, sym, ap, ◌∙◌, inl, inr, Bool, true, false, ◌&&◌, Option, none, some, List,
  [], ◌∷◌, arith, Bool-cases, Option-cases, All, some_inj,
}
use peer_chat.Base.Json.{Value, null}
use peer_chat.Store.{Store, Message, Status, get, update_messages, pending, has_key, is_message}
use peer_chat.Store.Progress.{
  row, Progress, Progress-refl, Progress-trans, same-Progress, update-Progress, started-Advances,
}
use peer_chat.Store.Unique.{update-Keyed}
use peer_chat.Store.Keys.{Keyed, IsReceived, pending-IsReceived}
use peer_chat.Budget.{spend}
use peer_chat.Peers.{Host}
use peer_chat.Dispatch.{
  claim_wake, scan, hold_row, marker_of, wakes_left, may_wake, spend_wake, wake_refusal,
}

third_true : (a b c : Bool) → (a && (b && c)) ≡ true → c ≡ true
third_true a b c h = ground arith

hold_row-Progress :
    (m : Message) (reason : String) (now : ℕ) (s : Store) → Progress s (hold_row m reason now s)
hold_row-Progress m reason now s = update-Progress _ Status.held reason now s λ r e.
    started-Advances Status.received r.status Status.held
      (third_true (has_key m.peer m.id r) (is_message r) _ e) (λ x. cc) (λ x. cc)

module _ (host : Host) (config : Value) where
  scan-stop :
      (now : ℕ) (m : Message) (ms : List Message) (s : Store)
      → wake_refusal host config m ≡ none
      → scan host config now (m ∷ ms) s ≡ (some m, s)
  unfolding scan
  scan-stop now m ms s e = rw (e, scan)

  scan-hold :
      (now : ℕ) (m : Message) (ms : List Message) (s : Store) (r : String)
      → wake_refusal host config m ≡ some r
      → scan host config now (m ∷ ms) s ≡ scan host config now ms (hold_row m r now s)
  unfolding scan
  scan-hold now m ms s r e = rw (e, scan)

  pub scan-Progress :
      (now : ℕ) (ms : List Message) (s : Store) → Progress s (scan host config now ms s).1
  unfolding scan
  scan-Progress now [] s = Progress-refl s
  scan-Progress now (m ∷ ms) s = elim (Option-cases (wake_refusal host config m)) [
    | inl e ↦ rw (scan-stop now m ms s e) (Progress-refl s)
    | inr (r, e) ↦
        rw (scan-hold now m ms s r e)
          (Progress-trans (hold_row-Progress m r now s) (scan-Progress now ms (hold_row m r now s)))
  ]

  scan-Keyed :
      (now : ℕ) (ms : List Message) (s : Store)
      → Keyed s.messages
      → Keyed (scan host config now ms s).1.messages
  unfolding scan
  scan-Keyed now [] s k = k
  scan-Keyed now (m ∷ ms) s k = elim (Option-cases (wake_refusal host config m)) [
    | inl e ↦ rw (scan-stop now m ms s e) k
    | inr (r, e) ↦
        rw (scan-hold now m ms s r e)
          (scan-Keyed now ms (hold_row m r now s) (update-Keyed _ Status.held r now s k))
  ]

  scan-meta :
      (now : ℕ) (ms : List Message) (s : Store) → (scan host config now ms s).1.meta ≡ s.meta
  unfolding scan update_messages
  scan-meta now [] s = refl
  scan-meta now (m ∷ ms) s = elim (Option-cases (wake_refusal host config m)) [
    | inl e ↦ rw (scan-stop now m ms s e) refl
    | inr (r, e) ↦ rw (scan-hold now m ms s r e) (scan-meta now ms (hold_row m r now s))
  ]

  -- The row that is found is one of the candidates, and nothing is against it.
  scan-found :
      (P : Message → Type 0) (now : ℕ) (ms : List Message) (s : Store) (m : Message)
      → All P ms
      → (scan host config now ms s).0 ≡ some m
      → P m × (wake_refusal host config m ≡ none)
  unfolding scan
  scan-found P now [] s m a h = cc
  scan-found P now (x ∷ ms) s m a h = elim (Option-cases (wake_refusal host config x)) [
    | inl e ↦
        let same : x ≡ m = some_inj x m (rw (scan-stop now x ms s e) at h) in
        (rw (← same) a.0, rw (← same) e)
    | inr (r, e) ↦
        scan-found P now ms (hold_row x r now s) m a.1 (rw (scan-hold now x ms s r e) at h)
  ]

  -- While a wake is pending, the session is not idle or an allowance is used up, nothing changes.
  pub claim_wake-blocked :
      (now : ℕ) (s : Store) → may_wake s ≡ false → claim_wake host config now s ≡ (none, s)
  unfolding claim_wake
  claim_wake-blocked now s h = rw h

  claim_wake-open :
      (now : ℕ) (s : Store)
      → may_wake s ≡ true
      → let (row, held) = scan host config now (pending s) s in
        claim_wake host config now s ≡ (
          row,
          (elim row as (λ x. Store) [
            | none ↦ held
            | some m ↦ spend_wake (wakes_left s) m now held
          ]),
        )
  unfolding claim_wake
  claim_wake-open now s h = rw h refl

  abbrev claimed : ℕ → Option Message → Store → Store → Store
  claimed now none held s = held
  claimed now (some m) held s = spend_wake (wakes_left s) m now held

  claim_wake-state :
      (now : ℕ) (s : Store)
      → may_wake s ≡ true
      → claim_wake host config now s ≡ (
        (scan host config now (pending s) s).0,
        claimed now (scan host config now (pending s) s).0 (scan host config now (pending s) s).1 s,
      )
  unfolding claim_wake
  claim_wake-state now s h =
      rw h (go (scan host config now (pending s) s).0 (scan host config now (pending s) s).1)
    where
      go :
          (row : Option Message) (held : Store)
          → Path
              (Option Message × Store)
              (
                row,
                (elim row as (λ x. Store) [
                  | none ↦ held
                  | some m ↦ spend_wake (wakes_left s) m now held
                ]),
              )
              (row, claimed now row held s)
      go none held = refl
      go (some m) held = refl

  pub claim_wake-Progress : (now : ℕ) (s : Store) → Progress s (claim_wake host config now s).1
  claim_wake-Progress now s = elim (Bool-cases (may_wake s)) [
    | inr e ↦ rw (claim_wake-blocked now s e) (Progress-refl s)
    | inl e ↦
        rw (claim_wake-state now s e)
          (go (scan host config now (pending s) s).0 (scan-Progress now (pending s) s))
  ]
    where
      go :
          (row : Option Message) {held : Store}
          → Progress s held
          → Progress s (claimed now row held s)
      go none h = h
      go (some m) h = Progress-trans h (same-Progress refl)

  pub claim_wake-Keyed :
      (now : ℕ) (s : Store) → Keyed s.messages → Keyed (claim_wake host config now s).1.messages
  claim_wake-Keyed now s k = elim (Bool-cases (may_wake s)) [
    | inr e ↦ rw (claim_wake-blocked now s e) k
    | inl e ↦ rw (claim_wake-state now s e) (
        go (scan host config now (pending s) s).0 (scan host config now (pending s) s).1
          (scan-Keyed now (pending s) s k))
  ]
    where
      go :
          (row : Option Message) (held : Store)
          → Keyed held.messages
          → Keyed (claimed now row held s).messages
      go none held h = h
      go (some m) held h = h

  -- A wake is claimed only where it may be, for a received message that nothing is against; it pays
  -- one wake, leaves the message allowance, and sets the marker, so that nothing more is claimed.
  pub claim_wake-claims :
      (now now' : ℕ) (s : Store) (m : Message)
      → Keyed s.messages
      → (claim_wake host config now s).0 ≡ some m
      → let s' = (claim_wake host config now s).1 in
        (may_wake s ≡ true)
        × (wake_refusal host config m ≡ none)
        × (row m.peer m.id s.messages ≡ some m)
        × (m.status ≡ Status.received)
        × (get s' "wake_remaining" null ≡ spend (wakes_left s))
        × (get s' "remaining" null ≡ get s "remaining" null)
        × (get s' "wake_pending" null ≡ marker_of m now)
        × (claim_wake host config now' s' ≡ (none, s'))
  claim_wake-claims now now' s m k h = elim (Bool-cases (may_wake s)) [
    | inr e ↦ cc (claim_wake-blocked now s e, h)
    | inl e ↦
        let r = (scan host config now (pending s) s).1 in
        let found : (scan host config now (pending s) s).0 ≡ some m =
          ap (λ x. x.0) (sym (claim_wake-state now s e)) ∙ h in
        let (q, free) =
          scan-found (IsReceived s.messages) now (pending s) s m (pending-IsReceived s k) found in
        let state : (claim_wake host config now s).1 ≡ spend_wake (wakes_left s) m now r =
          ap (λ x. x.1) (claim_wake-state now s e) ∙ ap (λ x. claimed now x r s) found in
        rw state (
          e,
          free,
          q.0,
          q.1,
          refl,
          ap (λ f. get (record s { meta = f }) "remaining" null) (scan-meta now (pending s) s),
          refl,
          claim_wake-blocked now' (spend_wake (wakes_left s) m now r) (blocked_by_marker r),
        )
  ]
    where
      blocked_by_marker : (r : Store) → may_wake (spend_wake (wakes_left s) m now r) ≡ false
      blocked_by_marker r = ground arith
