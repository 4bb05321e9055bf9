-- ===== src/Budget/Allowance.antt =====
-- `parse_budget`, `available` and `spend` of src/peer_budget.py.
use peer_chat.Base.{
  ℕ, ◌-◌, ◌<◌, String, ◌≡◌, refl, ◌⊎◌, inl, inr, true, Option, some, arith, ◌==◌, min, eq_iff, ap,
  leb, Bool-cases, Option-cases,
}
use peer_chat.Base.Int.{ℤ, pos, negsuc, to_ℕ}
use peer_chat.Base.Json.{Value, int, str, is_text}
use peer_chat.Budget.{parse_budget, available, spend, unlimited, is_window}

window_bounds : (n : ℕ) → leb (min n 50) 50 ≡ true
window_bounds n = ground arith

-- A parsed budget is unlimited, or a window of 0 to 50 that the renewal accepts; a number outside
-- that range is brought to its nearer end.
pub parse_budget_bounds :
    (to_int : Value → Option ℤ) (v : Value) {b : Value}
    → parse_budget to_int v ≡ some b
    → (b ≡ unlimited)
      ⊎ ((n : ℤ) × (to_int v ≡ some n) × (b ≡ int (pos (min (to_ℕ n) 50))) × (is_window b ≡ true))
unfolding parse_budget
parse_budget_bounds to_int v h = elim (Bool-cases (is_text v "unlimited")) [
  | inl e ↦ inl (ground arith)
  | inr e ↦ (elim (Option-cases (to_int v)) [
    | inl none_ ↦ absurd (ground arith)
    | inr (n, some_) ↦ inr (n, some_, ground arith, ground (arith, window_bounds (to_ℕ n)))
  ])
]

is_unlimited : (s : String) → (s == "unlimited") ≡ true → s ≡ "unlimited"
is_unlimited s h = (eq_iff s "unlimited").0 h

-- What is left after spending an available allowance: unlimited stays, a window falls by one and is
-- never negative.
pub spend-available :
    (v : Value)
    → available v ≡ true
    → ((v ≡ unlimited) × (spend v ≡ unlimited))
      ⊎ ((n : ℕ) × (0 < n) × (v ≡ int (pos n)) × (spend v ≡ int (pos (n - 1))))
spend-available (int (pos n)) h = inr (n, ground arith, refl, refl)
spend-available (str s) h = inl (ap str (is_unlimited s h), ap str (is_unlimited s h))
spend-available (int (negsuc n)) h = cc
spend-available v h = cc
