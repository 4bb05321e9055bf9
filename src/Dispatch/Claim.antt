-- ===== src/Dispatch/Claim.antt =====
-- The claim of a row for the queue in `dispatch` of src/peer_chat.py.
use peer_chat.Base.{
  and_second, String, ◌≡◌, refl, inl, inr, ◌⊎◌, true, false, some, map, any, arith, Bool-cases,
  Option-cases, Bool, List, [], ◌∷◌, sym, ◌||◌, ◌&&◌,
}
use peer_chat.Base.Int.{pos}
use peer_chat.Base.Json.{Value, null, int, is_text}
use peer_chat.Store.{Store, Message, Status, get, put, update_meta, has_key, is_status}
use peer_chat.Store.Progress.{
  Follows, Progress, Progress-refl, Progress-trans, same-Progress, started-Advances,
}
use peer_chat.Store.Unique.{KeepsKey, map-Progress, Keyed-map}
use peer_chat.Store.Keys.{Keyed, update_meta-messages}
use peer_chat.Budget.{available, spend}
use peer_chat.Dispatch.{claim_queue, forward, is_claimable}

module _ (m : Message) where
  forward-KeepsKey : KeepsKey (forward m)
  forward-KeepsKey = record {
    peer = λ r. ground arith;
    id = λ r. ground arith;
    kind = λ r. ground arith;
  }

  forward-Follows : (r : Message) → Follows r (forward m r)
  forward-Follows r = elim (Bool-cases (is_claimable m r)) [
    | inl e ↦ rw e (record {
      body = refl;
      mode = refl;
      hops = refl;
      created = refl;
      status =
          started-Advances Status.received r.status Status.forwarding (and_second _ _ e) (λ x. cc)
            (λ x. cc);
    })
    | inr e ↦
        rw e (record { body = refl; mode = refl; hops = refl; created = refl; status = inl refl })
  ]

-- A claim for the queue changes nothing where it fails; else the store is in queue mode with an
-- open allowance, the row was received, and the rows and the allowance are what is left.
pub claim_queue-cases :
    (m : Message) (s : Store)
    → (claim_queue m s ≡ (false, s))
      ⊎ ((is_text (get s "delivery" null) "queue" ≡ true)
          × (available (get s "remaining" (int (pos 0))) ≡ true)
          × (any (is_claimable m) s.messages ≡ true)
          × (claim_queue m s ≡ (
            true,
            update_meta "remaining"
                (spend (get s "remaining" null))
                (record s { messages = map (forward m) s.messages }),
          )))
unfolding claim_queue
claim_queue-cases m s = elim (Bool-cases (is_text (get s "delivery" null) "queue")) [
  | inr e ↦ rw e (inl refl)
  | inl e ↦ (elim (Bool-cases (available (get s "remaining" (int (pos 0))))) [
    | inr f ↦ rw (e, f) (inl refl)
    | inl f ↦ (elim (Bool-cases (any (is_claimable m) s.messages)) [
      | inr g ↦ rw (e, f, g) (inl refl)
      | inl g ↦ rw (e, f, g) (inr (refl, refl, refl, refl))
    ])
  ])
]

available-some :
    (s : Store)
    → available (get s "remaining" (int (pos 0))) ≡ true
    → (v : Value) × (s.meta "remaining" ≡ some v) × (available v ≡ true)
available-some s h = elim (Option-cases (s.meta "remaining")) [
  | inl e ↦ cc (rw (e, get, available) at h)
  | inr (v, e) ↦ (v, e, rw (e, get) at h)
]

update_meta-found :
    (key : String) (v w : Value) (s : Store)
    → s.meta key ≡ some v
    → update_meta key w s ≡ put key w s
update_meta-found key v w s e = rw (e, update_meta)

or_none : (a b : Bool) → a ≡ false → b ≡ false → (a || b) ≡ false
or_none a b h k = ground arith

or_right : (a b : Bool) → b ≡ true → (a || b) ≡ true
or_right a b h = ground arith

none_claimable :
    (m : Message) (rs : List Message) → any (is_claimable m) (map (forward m) rs) ≡ false
none_claimable m [] = refl
none_claimable m (r ∷ rs) = elim (Bool-cases (is_claimable m r)) [
  | inl e ↦ rw e (or_none _ _ (ground arith) (none_claimable m rs))
  | inr e ↦ rw e (or_none _ _ e (none_claimable m rs))
]

-- The row of a message is `forwarding`.
abbrev pub is_forwarding : Message → Message → Bool
is_forwarding m r = has_key m.peer m.id r && is_status Status.forwarding r

forward-forwarding :
    (m : Message) (rs : List Message)
    → any (is_claimable m) rs ≡ true
    → any (is_forwarding m) (map (forward m) rs) ≡ true
forward-forwarding m [] h = cc
forward-forwarding m (r ∷ rs) h = elim (Bool-cases (is_claimable m r)) [
  | inl e ↦ rw e (ground arith)
  | inr e ↦ or_right _ _ (forward-forwarding m rs (rw e at h))
]

-- The store of a claim that was made.
abbrev claimed : Message → Store → Store
claimed m s =
    update_meta "remaining" (spend (get s "remaining" null))
      (record s { messages = map (forward m) s.messages })

claim_queue-messages :
    (m : Message) (s : Store) → (claimed m s).messages ≡ map (forward m) s.messages
claim_queue-messages m s = sym (
    update_meta-messages "remaining" (spend (get s "remaining" null))
      (record s { messages = map (forward m) s.messages }))

not_claimable :
    (m : Message) (s : Store)
    → any (is_claimable m) s.messages ≡ false
    → claim_queue m s ≡ (false, s)
not_claimable m s h = elim (claim_queue-cases m s) [ inl e ↦ e | inr (q, a, c, e) ↦ cc (c, h) ]

-- A claim for the queue is made in queue mode, for a row that is still received, and pays one unit of
-- an open allowance. It moves the row to forwarding, so that the same claim made again fails and
-- changes nothing.
pub claim_queue-pays :
    (m : Message) (s : Store)
    → (claim_queue m s).0 ≡ true
    → (is_text (get s "delivery" null) "queue" ≡ true)
      × (any (is_claimable m) s.messages ≡ true)
      × (available (get s "remaining" null) ≡ true)
      × (get (claim_queue m s).1 "remaining" null ≡ spend (get s "remaining" null))
      × (any (is_forwarding m) (claim_queue m s).1.messages ≡ true)
      × (claim_queue m (claim_queue m s).1 ≡ (false, (claim_queue m s).1))
claim_queue-pays m s h = elim (claim_queue-cases m s) [
  | inl e ↦ cc (e, h)
  | inr (q, a, c, e) ↦
      let (v, f, g) = available-some s a in
      (
        q,
        c,
        rw (f, get) g,
        rw e (
            rw
              (update_meta-found "remaining" v (spend (get s "remaining" null))
                (record s { messages = map (forward m) s.messages }) f)
              refl),
        rw (e, claim_queue-messages m s) (forward-forwarding m s.messages c),
        rw e (
            not_claimable m (claimed m s)
              (rw (claim_queue-messages m s) (none_claimable m s.messages))),
      )
]

pub claim_queue-Progress : (m : Message) (s : Store) → Progress s (claim_queue m s).1
claim_queue-Progress m s = elim (claim_queue-cases m s) [
  | inl e ↦ rw e (Progress-refl s)
  | inr (q, a, c, e) ↦
      let t : Store = record s { messages = map (forward m) s.messages } in
      rw e (
        Progress-trans (map-Progress (forward m) (forward-KeepsKey m) s (forward-Follows m))
          (same-Progress (update_meta-messages "remaining" (spend (get s "remaining" null)) t)))
]

pub claim_queue-Keyed :
    (m : Message) (s : Store) → Keyed s.messages → Keyed (claim_queue m s).1.messages
claim_queue-Keyed m s k = elim (claim_queue-cases m s) [
  | inl e ↦ rw e k
  | inr (q, a, c, e) ↦
      let t : Store = record s { messages = map (forward m) s.messages } in
      rw e (
        rw (← update_meta-messages "remaining" (spend (get s "remaining" null)) t)
          (Keyed-map (forward m) (forward-KeepsKey m) s.messages k))
]
