-- ===== src/Selection.antt =====
-- The choice of one row by a selector: `select_peer` of src/peer_peers.py and `select_session` of
-- src/peer_registry.py run the same loop over their strategies.
pub mod Strategies
use peer_chat.Base.{All, ◌≡◌, refl, Bool, List, [], ◌∷◌, select}

-- `none_match` and `ambiguous` are the two ValueErrors, the latter with its candidates.
pub data Choice {ℓ} (A : Type ℓ) : Type ℓ where
  one : A → Choice A
  ambiguous : List A → Choice A
  none_match : Choice A

module _ {ℓ} {A : Type ℓ} where
  abbrev settle : List A → Choice A → Choice A
  settle [] next = next
  settle (r ∷ []) next = one r
  settle (r ∷ q ∷ rs) next = ambiguous (r ∷ q ∷ rs)

  -- The loop `for strategy in strategies`.
  unfoldable pub choose : List (A → Bool) → List A → Choice A
  choose [] rows = none_match
  choose (p ∷ ps) rows = let next = choose ps rows in settle (select p rows) next

  -- The strategy that decides, with those before it finding nothing.
  pub data DecidedBy (rows : List A) : List (A → Bool) → (A → Bool) → Type ℓ where
    here : {p : A → Bool} {ps : List (A → Bool)} → DecidedBy rows (p ∷ ps) p
    later :
        {p q : A → Bool} {ps : List (A → Bool)}
        → select p rows ≡ []
        → DecidedBy rows ps q
        → DecidedBy rows (p ∷ ps) q

  -- A row that is chosen is the only match of some strategy, and no strategy before that one has
  -- a match.
  pub choose_one :
      (ps : List (A → Bool)) (rows : List A) (r : A)
      → choose ps rows ≡ one r
      → (p : A → Bool) × DecidedBy rows ps p × (select p rows ≡ r ∷ [])
  unfolding choose
  choose_one [] rows r h = cc
  choose_one (p ∷ ps) rows r h = go (select p rows) refl h (choose_one ps rows r)
    where
      go :
          (found : List A)
          → select p rows ≡ found
          → settle found (choose ps rows) ≡ one r
          → (choose ps rows ≡ one r
              → (q : A → Bool) × DecidedBy rows ps q × (select q rows ≡ r ∷ []))
          → (q : A → Bool) × DecidedBy rows (p ∷ ps) q × (select q rows ≡ r ∷ [])
      go [] e k ih = let (q, d, m) = ih k in (q, later e d, m)
      go (x ∷ []) e k ih = (p, here, cc)
      go (x ∷ y ∷ xs) e k ih = cc

  -- Nothing matches any strategy, where no row is found.
  pub choose-none_match :
      (ps : List (A → Bool)) (rows : List A)
      → choose ps rows ≡ none_match
      → All (λ p. select p rows ≡ []) ps
  unfolding choose
  choose-none_match [] rows h = tt
  choose-none_match (p ∷ ps) rows h = go (select p rows) refl h (choose-none_match ps rows)
    where
      go :
          (found : List A)
          → select p rows ≡ found
          → settle found (choose ps rows) ≡ none_match
          → (choose ps rows ≡ none_match → All (λ q. select q rows ≡ []) ps)
          → (select p rows ≡ []) × All (λ q. select q rows ≡ []) ps
      go [] e k ih = (e, ih k)
      go (x ∷ []) e k ih = cc
      go (x ∷ y ∷ xs) e k ih = cc
