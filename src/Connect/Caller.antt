-- ===== src/Connect/Caller.antt =====
-- `caller_agent` of src/peer_connect.py: the nearest agent among the ancestors of a process.
use peer_chat.Base.{
  ℕ, zero, suc, ◌≡◌, refl, ap, sym, ◌∙◌, true, false, ◌||◌, ◌⊎◌, inl, inr, Option, none, some, List,
  [], ◌∷◌, arith, if◌then◌else◌, leb, nat_eq, Bool-cases,
}
use peer_chat.Connect.{Processes, Agent, agent_of, was_seen, climb, caller_agent}

-- The processes above, from a first one up to the first of the system, and `n` at most.
unfoldable pub ancestors : Processes → ℕ → Option ℕ → List ℕ
ancestors w zero start = []
ancestors w (suc n) none = []
ancestors w (suc n) (some p) =
    let rest = ancestors w n (w.parent p) in if leb p 1 then [] else p ∷ rest

abbrev or_later : Option Agent → ℕ → Option (Agent × ℕ) → Option (Agent × ℕ)
or_later (some a) p later = some (a, p)
or_later none p later = later

-- The first agent of a list of processes.
unfoldable pub first_agent : Processes → List ℕ → Option (Agent × ℕ)
first_agent w [] = none
first_agent w (p ∷ ps) = or_later (agent_of (w.comm p)) p (first_agent w ps)

nat_eq-≡ : (a b : ℕ) → nat_eq a b ≡ true → a ≡ b
nat_eq-≡ a b h = ground arith

nat_eq_same : (a : ℕ) → nat_eq a a ≡ true
nat_eq_same a = ground arith

-- A process that was passed is no agent, and its parent was passed or is the next one.
record Passed (w : Processes) (seen : List ℕ) (next : Option ℕ) (p : ℕ) : Type 0 where
  above : leb p 1 ≡ false
  other : agent_of (w.comm p) ≡ none
  onward : (w.parent p ≡ next) ⊎ ((q : ℕ) × (w.parent p ≡ some q) × (was_seen q seen ≡ true))

AllPassed : Processes → List ℕ → Option ℕ → Type 0
AllPassed w seen next = (p : ℕ) → was_seen p seen ≡ true → Passed w seen next p

module _ (w : Processes) where
  -- From a process that was passed, with its parent among them too, no agent is reached.
  first_agent-cycle :
      (n : ℕ) (seen : List ℕ) (p : ℕ)
      → was_seen p seen ≡ true
      → AllPassed w seen (some p)
      → (q : ℕ) → was_seen q seen ≡ true
      → first_agent w (ancestors w n (some q)) ≡ none
  unfolding first_agent ancestors AllPassed
  first_agent-cycle zero seen p m all q h = refl
  first_agent-cycle (suc n) seen p m all q h = rw (
    (all q h).above,
    (all q h).other,
    reached (λ r k. first_agent-cycle n seen p m all r k) (all q h).onward,
  )
    where
      reached :
          ((r : ℕ) → was_seen r seen ≡ true → first_agent w (ancestors w n (some r)) ≡ none)
          → (w.parent q ≡ some p) ⊎ ((r : ℕ) × (w.parent q ≡ some r) × (was_seen r seen ≡ true))
          → first_agent w (ancestors w n (w.parent q)) ≡ none
      reached ih (inl e) = ap (λ o. first_agent w (ancestors w n o)) e ∙ ih p m
      reached ih (inr (r, e, k)) = ap (λ o. first_agent w (ancestors w n o)) e ∙ ih r k

  Passed-step :
      (seen : List ℕ) (p : ℕ)
      → leb p 1 ≡ false
      → agent_of (w.comm p) ≡ none
      → AllPassed w seen (some p)
      → AllPassed w (p ∷ seen) (w.parent p)
  unfolding AllPassed
  Passed-step seen p low other all q h = elim (Bool-cases (nat_eq p q)) [
    | inl e ↦ same (nat_eq-≡ p q e)
    | inr n ↦ earlier (all q (rw (n) at h))
  ]
    where
      same : p ≡ q → Passed w (p ∷ seen) (w.parent p) q
      same e = record {
        above = ap (λ r. leb r 1) (sym e) ∙ low;
        other = ap (λ r. agent_of (w.comm r)) (sym e) ∙ other;
        onward = inl (ap (λ r. w.parent r) (sym e));
      }

      earlier : Passed w seen (some p) q → Passed w (p ∷ seen) (w.parent p) q
      earlier e = record {
        above = e.above;
        other = e.other;
        onward = (elim e.onward [
          | inl k ↦ inr (p, k, ap (λ b. b || was_seen p seen) (nat_eq_same p))
          | inr (r, k, m) ↦ inr (r, k, later r m)
        ]);
      }
        where
          later : (r : ℕ) → was_seen r seen ≡ true → was_seen r (p ∷ seen) ≡ true
          later r m = ground arith

  climb-first_agent :
      (n : ℕ) (seen : List ℕ) (next : Option ℕ)
      → AllPassed w seen next
      → climb w n seen next ≡ first_agent w (ancestors w n next)
  unfolding climb first_agent ancestors AllPassed
  climb-first_agent zero seen next all = refl
  climb-first_agent (suc n) seen none all = refl
  climb-first_agent (suc n) seen (some p) all = elim (Bool-cases (leb p 1)) [
    | inl b ↦ rw b
    | inr b ↦ elim (Bool-cases (was_seen p seen)) [
      | inl m ↦ stopped b m ∙ sym (first_agent-cycle (suc n) seen p m all p m)
      | inr m ↦
          by_name (λ e. climb-first_agent n (p ∷ seen) (w.parent p) (Passed-step seen p b e all)) b
            m (agent_of (w.comm p)) refl
    ]
  ]
    where
      stopped : leb p 1 ≡ false → was_seen p seen ≡ true → climb w (suc n) seen (some p) ≡ none
      stopped b m = rw (b, m)

      by_name :
          (agent_of (w.comm p) ≡ none
            → climb w n (p ∷ seen) (w.parent p) ≡ first_agent w (ancestors w n (w.parent p)))
          → leb p 1 ≡ false
          → was_seen p seen ≡ false
          → (a : Option Agent) → agent_of (w.comm p) ≡ a
          → climb w (suc n) seen (some p) ≡ first_agent w (ancestors w (suc n) (some p))
      by_name ih b m none e = rw (b, m, e, ih e)
      by_name ih b m (some a) e = rw (b, m, e)

-- The agent that `caller_agent` names is the nearest one among the first 64 ancestors of the process
-- that lie below the first process of the system; its test for a process that was seen never changes
-- the answer.
pub caller_agent-nearest :
    (w : Processes) (start : Option ℕ) → caller_agent w start ≡ first_agent w (ancestors w 64 start)
unfolding caller_agent AllPassed
caller_agent-nearest w start = climb-first_agent w 64 [] start (λ p h. cc)
