-- ===== src/Store/Keys.antt =====
-- The primary key of the table `messages` of src/peer_chat.py, and updates by that key.
use mathlib.Core.Logic.{◌≢◌}
use peer_chat.Base.{
  ℕ, String, ◌≡◌, refl, sym, ap, ◌∙◌, inl, inr, ◌⊎◌, Bool, true, false, ◌&&◌, Option, none, some,
  List, [], ◌∷◌, map, arith, ◌==◌, eq_iff, select, take, Bool-cases, All, some_inj, eq_refl,
  All-map, leb, zero, suc,
}
use peer_chat.Base.Json.{Value}
use peer_chat.Store.{
  update_meta, Store, Status, Message, is_message, is_status, has_key, set_row, update_messages,
  pending, by_created,
}
use peer_chat.Store.Rows.{place}
use peer_chat.Store.Progress.{row, RowFollows, Progress, same_status-eq}

-- `PRIMARY KEY(peer,id,kind)`, for the messages.
abbrev pub Keyed : List Message → Type 0
Keyed [] = Unit
Keyed (m ∷ ms) = (is_message m ≡ true → row m.peer m.id ms ≡ none) × Keyed ms

abbrev pub at_key : String → String → Message → Bool
at_key peer id m = has_key peer id m && is_message m

abbrev pub status_at : Option Message → Option Status
status_at none = none
status_at (some m) = some m.status

abbrev pub status_of : String → String → Store → Option Status
status_of peer id s = status_at (row peer id s.messages)

abbrev pub rewrite : Status → String → Option Message → Option Message
rewrite status detail none = none
rewrite status detail (some m) = some (record m { status = status; detail = detail })

module _ (status : Status) (detail : String) where
  row-here :
      (peer id : String) (ms : List Message)
      → row peer id (map (set_row (at_key peer id) status detail) ms)
        ≡ rewrite status detail (row peer id ms)
  row-here peer id [] = refl
  row-here peer id (m ∷ ms) = elim (Bool-cases (is_message m && has_key peer id m)) [
    | inl e ↦ ground (arith, row-here peer id ms)
    | inr e ↦ ground (arith, row-here peer id ms)
  ]

  row-elsewhere :
      (peer id p i : String) (ms : List Message)
      → (peer == p && id == i) ≡ false
      → row p i (map (set_row (at_key peer id) status detail) ms) ≡ row p i ms
  row-elsewhere peer id p i [] h = refl
  row-elsewhere peer id p i (m ∷ ms) h = ground (
    arith,
    row-elsewhere peer id p i ms h,
    eq_iff m.peer peer,
    eq_iff m.id id,
    eq_iff m.peer p,
    eq_iff m.id i,
    eq_iff peer p,
    eq_iff id i,
  )

rewrite-RowFollows :
    (status : Status) (detail : String) (r : Option Message)
    → status_at r ≢ some Status.consumed
    → status ≢ Status.received
    → RowFollows r (rewrite status detail r)
rewrite-RowFollows status detail none h k = tt
rewrite-RowFollows status detail (some m) h k = record {
  body = refl;
  mode = refl;
  hops = refl;
  created = refl;
  status = inr (λ e. h (ap some e), k);
}

RowFollows-same : (r r' : Option Message) → r' ≡ r → RowFollows r r'
RowFollows-same none r' e = tt
RowFollows-same (some m) r' e =
    rw e (record { body = refl; mode = refl; hops = refl; created = refl; status = inl refl })

-- An update by key of a row that is not consumed.
pub update_key-Progress :
    (peer id : String) (status : Status) (detail : String) (now : ℕ) (s : Store)
    → status_of peer id s ≢ some Status.consumed
    → status ≢ Status.received
    → Progress s (update_messages (at_key peer id) status detail now s)
unfolding update_messages
update_key-Progress peer id status detail now s h k = record {
  at = λ p i. elim (Bool-cases (peer == p && id == i)) [
    | inl e ↦
        let same : (peer ≡ p) × (id ≡ i) =
          (ground (arith, eq_iff peer p), ground (arith, eq_iff id i)) in
        rw (← same.0, ← same.1)
          (rw (row-here status detail peer id s.messages)
            (rewrite-RowFollows status detail (row peer id s.messages) h k))
    | inr e ↦
        RowFollows-same (row p i s.messages) _
          (row-elsewhere status detail peer id p i s.messages e)
  ];
}

rewrite-status :
    (status x : Status) (detail : String) (r : Option Message)
    → status_at (rewrite status detail r) ≡ some x
    → x ≡ status
rewrite-status status x detail none e = cc
rewrite-status status x detail (some m) e = sym (some_inj status x e)

-- A status after an update by key was there before, or is the new one at that key.
pub update_key-status :
    (peer id p i : String) (status x : Status) (detail : String) (now : ℕ) (s : Store)
    → status_of p i (update_messages (at_key peer id) status detail now s) ≡ some x
    → (status_of p i s ≡ some x) ⊎ ((peer ≡ p) × (id ≡ i) × (x ≡ status))
unfolding update_messages
update_key-status peer id p i status x detail now s e = elim (Bool-cases (peer == p && id == i)) [
  | inl k ↦
      let same : (peer ≡ p) × (id ≡ i) =
        (ground (arith, eq_iff peer p), ground (arith, eq_iff id i)) in
      inr (
        same.0,
        same.1,
        rewrite-status status x detail (row peer id s.messages) (
            ap status_at (sym (row-here status detail peer id s.messages))
            ∙ (rw (same.0, same.1) refl ∙ e)),
      )
  | inr k ↦ inl (ap status_at (sym (row-elsewhere status detail peer id p i s.messages k)) ∙ e)
]

-- After an update by key to another status, no row is consumed that was not.
pub update_key-open :
    (peer id p i : String) (status : Status) (detail : String) (now : ℕ) (s : Store)
    → status ≢ Status.consumed
    → status_of p i s ≢ some Status.consumed
    → status_of p i (update_messages (at_key peer id) status detail now s) ≢ some Status.consumed
update_key-open peer id p i status detail now s h k e =
    elim (update_key-status peer id p i status Status.consumed detail now s e) [
      | inl before ↦ k before
      | inr (_, _, same) ↦ h (sym same)
    ]

row_of_member :
    (p i : String) (x : Message) (ms : List Message) (r : Message)
    → (is_message x ≡ true → row x.peer x.id ms ≡ none)
    → row p i ms ≡ some r
    → row p i (x ∷ ms) ≡ some r
row_of_member p i x ms r h e = elim (Bool-cases (is_message x && has_key p i x)) [
  | inl k ↦
      let same : (is_message x ≡ true) × (x.peer ≡ p) × (x.id ≡ i) =
        (ground arith, ground (arith, eq_iff x.peer p), ground (arith, eq_iff x.id i)) in
      cc (h same.0, same.1, same.2, e)
  | inr k ↦ rw k e
]

-- A received message, and the row that its key finds.
abbrev pub IsReceived : List Message → Message → Type 0
IsReceived ms m = (row m.peer m.id ms ≡ some m) × (m.status ≡ Status.received)

row-head :
    (x : Message) (ms : List Message) → is_message x ≡ true → row x.peer x.id (x ∷ ms) ≡ some x
row-head x ms h = rw (h, eq_refl x.peer, eq_refl x.id)

select-IsReceived :
    (ms : List Message)
    → Keyed ms
    → All (IsReceived ms) (select (λ m. is_message m && is_status Status.received m) ms)
select-IsReceived [] h = tt
select-IsReceived (x ∷ ms) h =
    let rest =
      All-map (IsReceived ms) (IsReceived (x ∷ ms)) _
        (λ m e. (row_of_member m.peer m.id x ms m h.0 e.0, e.1)) (select-IsReceived ms h.1) in
    elim (Bool-cases (is_message x && is_status Status.received x)) [
      | inl e ↦
          let is : (is_message x ≡ true) × (is_status Status.received x ≡ true) =
            (ground arith, ground arith) in
          rw e ((row-head x ms is.0, same_status-eq x.status Status.received is.1), rest)
      | inr e ↦ rw e rest
    ]

place-All :
    (P : Message → Type 0) (m : Message) (ms : List Message) → P m → All P ms → All P (place m ms)
unfolding place
place-All P m [] h k = (h, tt)
place-All P m (x ∷ xs) h k = elim (Bool-cases (leb m.created x.created)) [
  | inl e ↦ rw e (h, k)
  | inr e ↦ rw e (k.0, place-All P m xs h k.1)
]

by_created-All : (P : Message → Type 0) (ms : List Message) → All P ms → All P (by_created ms)
unfolding by_created
by_created-All P [] h = tt
by_created-All P (m ∷ ms) h = place-All P m _ h.0 (by_created-All P ms h.1)

-- What `pending` returns is received, and its key finds it.
pub pending-IsReceived : (s : Store) → Keyed s.messages → All (IsReceived s.messages) (pending s)
unfolding pending
pending-IsReceived s h = by_created-All (IsReceived s.messages) _ (select-IsReceived s.messages h)

pub take-All {ℓ κ} :
    {A : Type ℓ} (P : A → Type κ) (n : ℕ) (xs : List A) → All P xs → All P (take n xs)
take-All P zero xs h = tt
take-All P (suc n) [] h = tt
take-All P (suc n) (x ∷ xs) h = (h.0, take-All P n xs h.1)

pub update_meta-messages :
    (key : String) (v : Value) (s : Store) → s.messages ≡ (update_meta key v s).messages
update_meta-messages key v s = ground arith
