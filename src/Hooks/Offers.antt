-- ===== src/Hooks/Offers.antt =====
-- The loop of `deliver` of src/peer_hooks.py: pieces and allowance.
use peer_chat.Base.{
  ℕ, ◌+◌, ◌≤◌, String, ◌≡◌, refl, inl, inr, true, false, List, [], ◌∷◌, ◌++◌, arith, ltb, length,
  length-append, Bool-cases, All,
}
use peer_chat.Base.Int.{pos, to_ℕ}
use peer_chat.Base.Json.{Value, null, int}
use peer_chat.Base.Text.{text_length}
use peer_chat.Store.{Message}
use peer_chat.Budget.{available, spend}
use peer_chat.Peers.{Host}
use peer_chat.Hooks.{Offer, total, max_context, offer, hold, give, is_blocked, offered_text}

total-append : (ps : List String) (p : String) → total (ps ++ p ∷ []) ≡ total ps + text_length p
unfolding total
total-append [] p = omega arith
total-append (q ∷ ps) p = omega (arith, total-append ps p)

-- The units of a window that are left; an unlimited allowance has no count.
abbrev pub units : Value → ℕ
units (int n) = to_ℕ n
units _ = 0

abbrev pub IsCount : Value → Type 0
IsCount v = v ≡ int (pos (units v))

spend-IsCount :
    (v : Value)
    → IsCount v
    → available v ≡ true
    → IsCount (spend v) × (units (spend v) + 1 ≡ units v)
spend-IsCount (int (pos n)) h a = (refl, ground arith)
spend-IsCount null h a = cc
spend-IsCount _ h a = cc

pub any_row : (ms : List Message) → All {0, 0} (λ m. Unit) ms
any_row [] = tt
any_row (m ∷ ms) = (tt, any_row ms)

module _ (host : Host) (quote : String → String) (config : Value) where
  abbrev run : ℕ → List Message → Offer → Offer
  run = offer host quote config

  abbrev Limits : Offer → Message → Type 0
  Limits o m =
      (available o.remaining ≡ true)
      × (is_blocked host quote config m ≡ false)
      × ((total o.pieces + text_length (offered_text host quote config m)) ≤ max_context)

  -- What holding and giving a row keep, the loop keeps.
  pub offer-keeps :
      (P : Offer → Type 0) (Q : Message → Type 0)
      → ((now : ℕ) (m : Message) (o : Offer) → Q m → P o → P (hold host quote config now m o))
      → ((now : ℕ) (m : Message) (o : Offer)
          → Q m
          → Limits o m
          → P o
          → P (give host quote config now m o))
      → (now : ℕ) (ms : List Message) (o : Offer) → All Q ms
      → P o
      → P (run now ms o)
  unfolding offer
  offer-keeps P Q kh kg now [] o q h = h
  offer-keeps P Q kh kg now (m ∷ ms) o q h = elim (Bool-cases (available o.remaining)) [
    | inr e ↦ rw e h
    | inl e ↦ (elim (Bool-cases (is_blocked host quote config m)) [
      | inl b ↦
          rw (e, b)
            (offer-keeps P Q kh kg now ms (hold host quote config now m o) q.1 (kh now m o q.0 h))
      | inr b ↦
          (elim (Bool-cases
            (ltb max_context (total o.pieces + text_length (offered_text host quote config m)))) [
              | inl t ↦ rw (e, b, t) h
              | inr t ↦
                  rw (e, b, t)
                    (offer-keeps P Q kh kg now ms (give host quote config now m o) q.1
                      (kg now m o q.0 (e, b, ground arith) h))
            ])
    ])
  ]

  -- The pieces stay within the limit, separators not counted, if what is there at the start does.
  pub offer-total :
      (now : ℕ) (ms : List Message) (o : Offer)
      → total o.pieces ≤ max_context
      → total (offer host quote config now ms o).pieces ≤ max_context
  offer-total now ms o h =
      offer-keeps (λ o. total o.pieces ≤ max_context) (λ m. Unit) (λ now m o q h. h)
        (λ now m o q l h. rw (total-append o.pieces (offered_text host quote config m)) l.2) now ms
        o (any_row ms) h

  -- A window pays one unit for every piece that the loop adds, and is never overdrawn.
  pub offer-units :
      (now : ℕ) (ms : List Message) (o : Offer)
      → IsCount o.remaining
      → let o' = offer host quote config now ms o in
        IsCount o'.remaining
        × (units o'.remaining + length o'.pieces ≡ units o.remaining + length o.pieces)
  offer-units now ms o h =
      offer-keeps
        (λ o'.
          IsCount o'.remaining
          × (units o'.remaining + length o'.pieces ≡ units o.remaining + length o.pieces))
        (λ m. Unit) (λ now m o q h. h)
        (λ now m o₁ q l k.
          let (c, e) = spend-IsCount o₁.remaining k.0 l.0 in
          (
            c,
            omega (arith, e, k.1, length-append o₁.pieces (offered_text host quote config m ∷ [])),
          ))
        now ms o (any_row ms) (h, refl)
