-- ===== src/Budget/Renewal.antt =====
-- `renew_for_owner_prompt` of src/peer_budget.py.
use peer_chat.Base.{
  String, ◌≡◌, refl, Bool, true, false, not, ◌||◌, none, some, arith, eq_refl, Bool-cases,
  Option-cases, inl, inr,
}
use mathlib.Core.Bool.{false≢true}
use peer_chat.Base.Json.{Value, null, str, member, is_text}
use peer_chat.Store.{Store, get}
use peer_chat.Budget.{
  is_external, is_window, owner_turn, renew_turn, renewed, renew_for_owner_prompt,
}

owner_turn_external :
    (payload : Value) (prompt : String)
    → member payload "prompt" ≡ str prompt
    → is_external prompt ≡ true
    → owner_turn payload ≡ none
unfolding owner_turn
owner_turn_external payload prompt p e = ground arith

or_true : (b : Bool) → (b || true) ≡ true
or_true true = refl
or_true false = refl

not_blocked : (w t : Bool) → (not w || t) ≡ false → w ≡ true
not_blocked w t h = ground arith

renew-none :
    (payload : Value) (s : Store)
    → owner_turn payload ≡ none
    → renew_for_owner_prompt payload s ≡ (false, s)
unfolding renew_for_owner_prompt
renew-none payload s e = rw (e, renew_for_owner_prompt)

renew-some :
    (payload : Value) (turn : String) (s : Store)
    → owner_turn payload ≡ some turn
    → renew_for_owner_prompt payload s ≡ renew_turn turn s
unfolding renew_for_owner_prompt
renew-some payload turn s e = rw (e, renew_for_owner_prompt)

-- A prompt that carries a marker of peer text changes nothing.
pub renew_external :
    (payload : Value) (prompt : String) (s : Store)
    → member payload "prompt" ≡ str prompt
    → is_external prompt ≡ true
    → renew_for_owner_prompt payload s ≡ (false, s)
renew_external payload prompt s p e = renew-none payload s (owner_turn_external payload prompt p e)

renew_turn_once :
    (turn : String) (s : Store)
    → (renew_turn turn s).0 ≡ true
    → (is_window (get s "budget_limit" null) ≡ true)
      × ((renew_turn turn s).1 ≡ renewed (get s "budget_limit" null) turn s)
renew_turn_once turn s h =
    elim (Bool-cases (
      not (is_window (get s "budget_limit" null))
      || is_text (get s "budget_owner_turn" null) turn)) [
        | inl e ↦ absurd (false≢true (rw e at h))
        | inr e ↦ (not_blocked _ _ e, rw e)
      ]

renew_turn_again :
    (turn : String) (s : Store)
    → renew_turn turn (renewed (get s "budget_limit" null) turn s)
      ≡ (false, renewed (get s "budget_limit" null) turn s)
renew_turn_again turn s = rw (eq_refl turn) (rw (or_true _))

-- A renewal sets both allowances to the declared window, and the same prompt does not renew again.
pub renew_once :
    (payload : Value) (s : Store)
    → (renew_for_owner_prompt payload s).0 ≡ true
    → let s' = (renew_for_owner_prompt payload s).1 in
      (is_window (get s "budget_limit" null) ≡ true)
      × (get s' "remaining" null ≡ get s "budget_limit" null)
      × (get s' "wake_remaining" null ≡ get s "budget_limit" null)
      × (renew_for_owner_prompt payload s' ≡ (false, s'))
renew_once payload s h = elim (Option-cases (owner_turn payload)) [
  | inl e ↦ absurd (false≢true (rw (renew-none payload s e) at h))
  | inr (turn, e) ↦
      let once = renew_turn_once turn s (rw (renew-some payload turn s e) at h) in
      rw (renew-some payload turn s e, once.1)
        (
          once.0,
          refl,
          refl,
          rw (renew-some payload turn (renewed (get s "budget_limit" null) turn s) e)
              (renew_turn_again turn s),
        )
]
