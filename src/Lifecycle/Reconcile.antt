-- ===== src/Lifecycle/Reconcile.antt =====
-- `reconcile` of src/peer_lifecycle.py.
use peer_chat.Base.{
  String, ◌≡◌, refl, ap, ◌⊎◌, Bool, true, false, not, ◌&&◌, ◌||◌, Option, none, some, arith,
  if◌then◌else◌, ◌==◌, Bool-cases, inl, inr, eq_iff, is_some,
}
use peer_chat.Base.Json.{Value, null, bool, str, member, is_text, truthy}
use peer_chat.Store.{Store, get, put}
use peer_chat.Budget.{lifecycle_observed}
use peer_chat.Lifecycle.{ended_phase, may_reconcile, reconcile, same_phase}

-- What a reconciliation was made for, and what it did.
pub record Reconciled (e : Option Value) (unchanged : Bool) (before s : Store) (r : Bool × Store)
    : Type 0 where
  pub made : r.0 ≡ true
  pub evidence : Value
  pub found : e ≡ some evidence
  pub phase : String
  pub was : get before "phase" null ≡ str phase
  pub started : (phase ≡ "active") ⊎ (phase ≡ "idle")
  pub observed : lifecycle_observed (get before) ≡ true
  pub still : get s "phase" null ≡ str phase
  pub rests : unchanged ≡ true
  pub runs : truthy (get s "stop" (bool false)) ≡ false
  pub ended :
      get r.1 "phase" null
      ≡ str (if is_text (member evidence "event") "turn_aborted" then "interrupted" else "idle")
  pub stored : get r.1 "lifecycle_reconciled" null ≡ evidence
  pub messages : s.messages ≡ r.1.messages
  pub outgoing : s.outgoing ≡ r.1.outgoing
  pub timing : s.timing ≡ r.1.timing
  pub others :
      (key : String)
      → (("phase" == key) || ("lifecycle_reconciled" == key)) ≡ false
      → s.meta key ≡ r.1.meta key

is_text-str : (v : Value) (t : String) → is_text v t ≡ true → v ≡ str t
is_text-str (str x) t h = ap str ((eq_iff x t).0 h)
is_text-str null t h = cc
is_text-str v t h = cc

same_phase-str : (p : String) (v w : Value) → v ≡ str p → same_phase v w ≡ true → w ≡ str p
same_phase-str p v w e h = is_text-str w p (rw e at h)

starts :
    (before : Store)
    → may_reconcile before ≡ true
    → (phase : String) × (get before "phase" null ≡ str phase)
      × ((phase ≡ "active") ⊎ (phase ≡ "idle"))
starts before h = elim (Bool-cases (is_text (get before "phase" null) "active")) [
  | inl a ↦ ("active", is_text-str _ "active" a, inl refl)
  | inr a ↦ ("idle", is_text-str _ "idle" (ground arith), inr refl)
]

reconciled :
    (e : Value) (unchanged : Bool) (before s : Store)
    → may_reconcile before ≡ true
    → (truthy (get s "stop" (bool false))
        || (not (same_phase (get before "phase" null) (get s "phase" null)) || not unchanged))
      ≡ false
    → Reconciled
        (some e)
        unchanged
        before
        s
        (true, put "lifecycle_reconciled" e (put "phase" (str (ended_phase e)) s))
reconciled e unchanged before s a c =
    let (phase, was, started) = starts before a in
    record {
      made = refl;
      evidence = e;
      found = refl;
      phase = phase;
      was = was;
      started = started;
      observed = ground arith;
      still = same_phase-str phase (get before "phase" null) _ was (ground arith);
      rests = ground arith;
      runs = ground arith;
      ended = refl;
      stored = refl;
      messages = refl;
      outgoing = refl;
      timing = refl;
      others = λ key k. ground arith;
    }

-- There is evidence for a phase that was active and is, with no stop and nothing else changed.
abbrev pub is_ripe : Option Value → Bool → Store → Store → Bool
is_ripe e unchanged before s =
    (is_some e && unchanged)
    && ((is_text (get before "phase" null) "active" && is_text (get s "phase" null) "active")
        && (lifecycle_observed (get before)
            && (not (truthy (get before "stop" (bool false)))
                && not (truthy (get s "stop" (bool false))))))

not_ended :
    (e v : Value) (same : Bool)
    → (is_text v (ended_phase e) && same) ≡ true
    → is_text v "active" ≡ false
not_ended e v same h = elim (Bool-cases (is_text v "active")) [
  | inr a ↦ a
  | inl a ↦ (elim (Bool-cases (is_text (member e "event") "turn_aborted")) [
    | inl b ↦ cc (rw (is_text-str v "active" a, b) at h)
    | inr b ↦ cc (rw (is_text-str v "active" a, b) at h)
  ])
]

not_due :
    (e : Value) (unchanged : Bool) (before s : Store)
    → (truthy (get s "stop" (bool false))
        || (not (same_phase (get before "phase" null) (get s "phase" null)) || not unchanged))
      ≡ true
    → is_ripe (some e) unchanged before s ≡ false
not_due e unchanged before s h = elim (Bool-cases (is_text (get before "phase" null) "active")) [
  | inr a ↦ ground arith
  | inl a ↦ let k = rw (is_text-str (get before "phase" null) "active" a) at h in ground arith
]

-- A reconciliation either leaves the store as it is, and then it was not due for an active phase
-- (evidence, an observed lifecycle, no stop, nothing changed meanwhile), or there is evidence, the store that was read
-- had an active or idle phase and an observed lifecycle, and in the transaction the phase is still
-- that one, nothing it rests on changed and no stop is asked for. Then the phase is interrupted where
-- the turn was aborted and idle where it was not, the evidence is stored, and no table and no other
-- key changes.
pub reconcile-phase :
    (e : Option Value) (same unchanged : Bool) (before s : Store)
    → ((reconcile e same unchanged before s ≡ (false, s)) × (is_ripe e unchanged before s ≡ false))
      ⊎ Reconciled e unchanged before s (reconcile e same unchanged before s)
unfolding reconcile
reconcile-phase none same unchanged before s = inl (refl, refl)
reconcile-phase (some e) same unchanged before s = elim (Bool-cases (may_reconcile before)) [
  | inr a ↦ rw a (inl (refl, ground arith))
  | inl a ↦ (elim (Bool-cases (is_text (get before "phase" null) (ended_phase e) && same)) [
    | inl b ↦
        let off = not_ended e (get before "phase" null) same b in
        rw (a, b) (inl (refl, ground arith))
    | inr b ↦
        (elim (Bool-cases (
          truthy (get s "stop" (bool false))
          || (not (same_phase (get before "phase" null) (get s "phase" null)) || not unchanged))) [
            | inl c ↦ rw (a, b, c) (inl (refl, not_due e unchanged before s c))
            | inr c ↦ rw (a, b, c) (inr (reconciled e unchanged before s a c))
          ])
  ])
]
