-- ===== src/Hooks/Safety.antt =====
-- The messages under the offering transaction of `deliver` of src/peer_hooks.py.
use mathlib.Core.Logic.{◌≢◌}
use mathlib.Core.Path.{subst}
use peer_chat.Base.{
  ℕ, String, ◌≡◌, refl, sym, ap, ◌∙◌, inl, inr, ◌⊎◌, false, ◌||◌, List, arith, Bool-cases, All,
  take, some,
}
use peer_chat.Base.Json.{Value, null, is_text}
use peer_chat.Store.{Store, Message, Status, get, pending, update_meta}
use peer_chat.Store.Progress.{Progress, Progress-refl, Progress-trans, same-Progress, row}
use peer_chat.Store.Keys.{
  update_meta-messages, Keyed, IsReceived, status_of, status_at, update_key-status, at_key,
  update_key-Progress, update_key-open, pending-IsReceived, take-All,
}
use peer_chat.Peers.{Host}
use peer_chat.Hooks.{Offer, offer, offer_all, is_blocked, mark_row}
use peer_chat.Hooks.Offers.{any_row, offer-keeps}
use peer_chat.Store.Unique.{update-Keyed}

update_meta-Progress :
    (key : String) (v : Value) (s s' : Store) → Progress s s' → Progress s (update_meta key v s')
update_meta-Progress key v s s' h = Progress-trans h (same-Progress {s = s'} (ground arith))

update_meta-status :
    (key : String) (v : Value) (p i : String) (s : Store)
    → status_of p i (update_meta key v s) ≡ status_of p i s
update_meta-status key v p i s = ground arith

module _ (host : Host) (quote : String → String) (config : Value) where
  abbrev run : ℕ → List Message → Offer → Offer
  run = offer host quote config

  abbrev Tracks : Store → Offer → Type 0
  Tracks s o =
      Progress s o.store
      × ((p i : String)
          → status_of p i s ≢ some Status.consumed
          → status_of p i o.store ≢ some Status.consumed)

  update-Tracks :
      (s : Store) (m : Message) (o : Offer) (status : Status) (detail : String) (now : ℕ)
      → status ≢ Status.consumed
      → status ≢ Status.received
      → IsReceived s.messages m
      → Tracks s o
      → Progress s (mark_row m status detail now o.store)
        × ((p i : String)
            → status_of p i s ≢ some Status.consumed
            → status_of p i (mark_row m status detail now o.store) ≢ some Status.consumed)
  update-Tracks s m o status detail now c r q t =
      let open_row : status_of m.peer m.id s ≢ some Status.consumed =
        λ e. cc (ap status_at q.0, q.1, e) in
      (
        Progress-trans t.0 (
            update_key-Progress m.peer m.id status detail now o.store (t.1 m.peer m.id open_row) r),
        λ p i h. update_key-open m.peer m.id p i status detail now o.store c (t.1 p i h),
      )

  -- What an offer turns on a row that was received.
  abbrev pub IsOfferable : Store → String → String → Type 0
  IsOfferable s p i =
      (m : Message) × (row p i s.messages ≡ some m)
      × (m.status ≡ Status.received)
      × (is_blocked host quote config m ≡ false)

  abbrev OnlyOfferable : Store → Offer → Type 0
  OnlyOfferable s o =
      (p i : String)
      → status_of p i o.store ≡ some Status.hook_offered
      → (status_of p i s ≡ some Status.hook_offered) ⊎ IsOfferable s p i

  give-OnlyOfferable :
      (s : Store) (m : Message) (o : Offer) (detail : String) (now : ℕ) (p i : String)
      → IsReceived s.messages m
      → is_blocked host quote config m ≡ false
      → OnlyOfferable s o
      → status_of p i (mark_row m Status.hook_offered detail now o.store) ≡ some Status.hook_offered
      → (status_of p i s ≡ some Status.hook_offered) ⊎ IsOfferable s p i
  give-OnlyOfferable s m o detail now p i q b k e =
      elim (update_key-status m.peer m.id p i Status.hook_offered Status.hook_offered detail now
        o.store e) [
          | inl before ↦ k p i before
          | inr (e₁, e₂, same) ↦ inr (m, rw (← e₁, ← e₂) q.0, q.1, b)
        ]

  hold-OnlyOfferable :
      (s : Store) (m : Message) (o : Offer) (detail : String) (now : ℕ)
      → OnlyOfferable s o
      → (p i : String)
      → status_of p i (mark_row m Status.held detail now o.store) ≡ some Status.hook_offered
      → (status_of p i s ≡ some Status.hook_offered) ⊎ IsOfferable s p i
  hold-OnlyOfferable s m o detail now k p i e =
      elim (update_key-status m.peer m.id p i Status.held Status.hook_offered detail now o.store
        e) [ inl before ↦ k p i before | inr (e₁, e₂, same) ↦ cc same ]

  pub offer-OnlyOfferable :
      (now : ℕ) (ms : List Message) (o : Offer)
      → All (IsReceived o.store.messages) ms
      → OnlyOfferable o.store (offer host quote config now ms o)
  offer-OnlyOfferable now ms o h =
      offer-keeps host quote config (OnlyOfferable o.store) (IsReceived o.store.messages)
        (λ now m o₁ q k. hold-OnlyOfferable o.store m o₁ _ now k)
        (λ now m o₁ q l k p i. give-OnlyOfferable o.store m o₁ _ now p i q l.1 k) now ms o h
        (λ p i e. inl e)

  pub offer-Progress :
      (now : ℕ) (ms : List Message) (o : Offer)
      → All (IsReceived o.store.messages) ms
      → Progress o.store (offer host quote config now ms o).store
  offer-Progress now ms o h =
      (offer-keeps host quote config (Tracks o.store) (IsReceived o.store.messages)
        (λ now m o₁ q t. update-Tracks o.store m o₁ Status.held _ now (λ e. cc) (λ e. cc) q t)
        (λ now m o₁ q l t.
          update-Tracks o.store m o₁ Status.hook_offered _ now (λ e. cc) (λ e. cc) q t)
        now ms o h (Progress-refl o.store, λ p i k. k)).0

  take-IsReceived :
      (s : Store) → Keyed s.messages → All (IsReceived s.messages) (take 4 (pending s))
  take-IsReceived s k = take-All (IsReceived s.messages) 4 (pending s) (pending-IsReceived s k)

  pub offer_all-cases :
      (now : ℕ) (notice : String) (s : Store) (P : Store → Type 0)
      → P s
      → ((o : Offer)
          → o.store ≡ s
          → P (
              update_meta "remaining"
                (run now (take 4 (pending s)) o).remaining
                (run now (take 4 (pending s)) o).store))
      → P (offer_all host quote config now notice s).1
  unfolding offer_all
  offer_all-cases now notice s P h k =
      elim (Bool-cases
        (is_text (get s "delivery" null) "live" || is_text (get s "delivery" null) "auto")) [
          | inl e ↦ rw e (k _ refl)
          | inr e ↦ rw e h
        ]

  offer-Keyed :
      (now : ℕ) (ms : List Message) (o : Offer)
      → Keyed o.store.messages
      → Keyed (offer host quote config now ms o).store.messages
  offer-Keyed now ms o k =
      offer-keeps host quote config (λ o'. Keyed o'.store.messages) (λ m. Unit)
        (λ now m o' q h. update-Keyed (at_key m.peer m.id) Status.held _ now o'.store h)
        (λ now m o' q l h. update-Keyed (at_key m.peer m.id) Status.hook_offered _ now o'.store h)
        now ms o (any_row ms) k

  pub offer_all-Keyed :
      (now : ℕ) (notice : String) (s : Store)
      → Keyed s.messages
      → Keyed (offer_all host quote config now notice s).1.messages
  offer_all-Keyed now notice s k =
      offer_all-cases now notice s (λ t. Keyed t.messages) k
        λ o e.
          subst Keyed
            (update_meta-messages "remaining" (run now (take 4 (pending s)) o).remaining
              (run now (take 4 (pending s)) o).store)
            (offer-Keyed now (take 4 (pending s)) o (rw e k))

  pub offer_all-Progress :
      (now : ℕ) (notice : String) (s : Store)
      → Keyed s.messages
      → Progress s (offer_all host quote config now notice s).1
  offer_all-Progress now notice s k =
      offer_all-cases now notice s (Progress s) (Progress-refl s) λ o e.
        update_meta-Progress "remaining" (run now (take 4 (pending s)) o).remaining s
          (run now (take 4 (pending s)) o).store
          (subst (λ t. Progress t (run now (take 4 (pending s)) o).store) e
            (offer-Progress now (take 4 (pending s)) o (rw e (take-IsReceived s k))))

  -- A message that a hook newly offers was received, its peer is enrolled, and it has made fewer
  -- than eight hops.
  pub offer_all-OnlyOfferable :
      (now : ℕ) (notice : String) (s : Store) (p i : String)
      → Keyed s.messages
      → status_of p i (offer_all host quote config now notice s).1 ≡ some Status.hook_offered
      → (status_of p i s ≡ some Status.hook_offered) ⊎ IsOfferable s p i
  offer_all-OnlyOfferable now notice s p i k =
      offer_all-cases now notice s
        (λ s'.
          status_of p i s' ≡ some Status.hook_offered
          → (status_of p i s ≡ some Status.hook_offered) ⊎ IsOfferable s p i)
        (λ e. inl e)
        λ o e h. rw e at (
          offer-OnlyOfferable now (take 4 (pending s)) o (rw e (take-IsReceived s k)) p i (
            sym (
              update_meta-status "remaining" (run now (take 4 (pending s)) o).remaining p i
                (run now (take 4 (pending s)) o).store)
            ∙ h))
