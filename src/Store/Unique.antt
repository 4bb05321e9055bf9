-- ===== src/Store/Unique.antt =====
-- The primary key of the table `messages` under the writers of class Store of src/peer_chat.py.
use peer_chat.Base.{
  ℕ, String, ◌≡◌, refl, sym, ◌∙◌, inl, inr, Bool, true, false, not, ◌&&◌, Option, none, some, List,
  [], ◌∷◌, ◌++◌, map, arith, ◌==◌, eq_iff, select, any, Bool-cases, is_some, eq_refl,
}
use peer_chat.Store.{
  Store, Status, Message, Frame, is_message, is_receipt, has_key, set_row, update_messages, accept,
  accept_message, accept_receipt, new_message, new_receipt, store_notice, clear_consumed_wake, read,
  set_status, ack_one, ack_peer, recover_rows, same_body, ack_detail, is_open,
}
use peer_chat.Store.Progress.{row, Follows, RowFollows, Progress}
use peer_chat.Store.Keys.{Keyed}
use peer_chat.Store.Accept.{any-row}

-- A function on rows that keeps peer, id and kind.
pub record KeepsKey (f : Message → Message) : Type 0 where
  pub peer : (m : Message) → (f m).peer ≡ m.peer
  pub id : (m : Message) → (f m).id ≡ m.id
  pub kind : (m : Message) → (f m).kind ≡ m.kind

module _ (f : Message → Message) (k : KeepsKey f) where
  key-map :
      (p i : String) (m : Message)
      → (is_message (f m) && has_key p i (f m)) ≡ (is_message m && has_key p i m)
  key-map p i m = rw (k.peer m, k.id m, k.kind m) refl

  row-map-none : (p i : String) (ms : List Message) → row p i ms ≡ none → row p i (map f ms) ≡ none
  row-map-none p i [] h = refl
  row-map-none p i (m ∷ ms) h = elim (Bool-cases (is_message m && has_key p i m)) [
    | inl e ↦ cc (rw e at h)
    | inr e ↦ rw (key-map p i m) (rw e (row-map-none p i ms (rw e at h)))
  ]

  pub Keyed-map : (ms : List Message) → Keyed ms → Keyed (map f ms)
  Keyed-map [] h = tt
  Keyed-map (m ∷ ms) h = (
    λ e. rw (k.peer m, k.id m) (row-map-none m.peer m.id ms (h.0 (rw (k.kind m) at e))),
    Keyed-map ms h.1,
  )

  map-RowFollows :
      (p i : String) (ms : List Message)
      → ((m : Message) → Follows m (f m))
      → RowFollows (row p i ms) (row p i (map f ms))
  map-RowFollows p i [] ok = tt
  map-RowFollows p i (m ∷ ms) ok =
      rw (key-map p i m) (elim (Bool-cases (is_message m && has_key p i m)) [
        | inl e ↦ rw e (ok m)
        | inr e ↦ rw e (map-RowFollows p i ms ok)
      ])

  pub map-Progress :
      (s : Store)
      → ((m : Message) → Follows m (f m))
      → Progress s (record s { messages = map f s.messages })
  map-Progress s ok = record { at = λ p i. map-RowFollows p i s.messages ok }

set_row-KeepsKey :
    (test : Message → Bool) (status : Status) (detail : String)
    → KeepsKey (set_row test status detail)
set_row-KeepsKey test status detail = record {
  peer = λ m. ground arith;
  id = λ m. ground arith;
  kind = λ m. ground arith;
}

pub update-Keyed :
    (test : Message → Bool) (status : Status) (detail : String) (now : ℕ) (s : Store)
    → Keyed s.messages
    → Keyed (update_messages test status detail now s).messages
unfolding update_messages
update-Keyed test status detail now s h =
    Keyed-map (set_row test status detail) (set_row-KeepsKey test status detail) s.messages h

append-none :
    (p i : String) (ms : List Message) (x : Message)
    → row p i ms ≡ none
    → (is_message x && has_key p i x) ≡ false
    → row p i (ms ++ x ∷ []) ≡ none
append-none p i [] x h e = rw e refl
append-none p i (m ∷ ms) x h e = ground (arith, append-none p i ms x)

row-head :
    (m : Message) (ms : List Message) → is_message m ≡ true → row m.peer m.id (m ∷ ms) ≡ some m
row-head m ms h = rw (h, eq_refl m.peer, eq_refl m.id)

row-tail :
    (p i : String) (m : Message) (ms : List Message) → row p i (m ∷ ms) ≡ none → row p i ms ≡ none
row-tail p i m ms h = ground arith

not_some : (r : Option Message) → is_some r ≡ false → r ≡ none
not_some none h = refl
not_some (some m) h = cc

clear-messages : (s : Store) → (clear_consumed_wake s).messages ≡ s.messages
unfolding clear_consumed_wake
clear-messages s = ground arith

append-Keyed :
    (ms : List Message) (x : Message)
    → (is_message x ≡ true → row x.peer x.id ms ≡ none)
    → Keyed ms
    → Keyed (ms ++ x ∷ [])
append-Keyed [] x f h = (λ e. refl, tt)
append-Keyed (m ∷ ms) x f h = (
  λ e. elim (Bool-cases (is_message x && has_key m.peer m.id x)) [
    | inl k ↦
        let same : (is_message x ≡ true) × (x.peer ≡ m.peer) × (x.id ≡ m.id) =
          (ground arith, ground (arith, eq_iff x.peer m.peer), ground (arith, eq_iff x.id m.id)) in
        cc (row-head m ms e, f same.0, same.1, same.2)
    | inr k ↦ append-none m.peer m.id ms x (h.0 e) k
  ],
  append-Keyed ms x (λ e. row-tail x.peer x.id m ms (f e)) h.1,
)

select-none :
    (t : Message → Bool) (p i : String) (ms : List Message)
    → row p i ms ≡ none
    → row p i (select t ms) ≡ none
select-none t p i [] h = refl
select-none t p i (m ∷ ms) h = elim (Bool-cases (t m)) [
  | inl e ↦ (elim (Bool-cases (is_message m && has_key p i m)) [
    | inl k ↦ cc (rw k at h)
    | inr k ↦ rw e (rw k (select-none t p i ms (rw k at h)))
  ])
  | inr e ↦ rw e (select-none t p i ms (row-tail p i m ms h))
]

select-Keyed : (t : Message → Bool) (ms : List Message) → Keyed ms → Keyed (select t ms)
select-Keyed t [] h = tt
select-Keyed t (m ∷ ms) h = elim (Bool-cases (t m)) [
  | inl e ↦ rw e (λ k. select-none t m.peer m.id ms (h.0 k), select-Keyed t ms h.1)
  | inr e ↦ rw e (select-Keyed t ms h.1)
]

-- The writers.
accept_message-Keyed :
    (peer id body mode : String) (hops : List String) (now : ℕ) (s : Store)
    → Keyed s.messages
    → Keyed (accept_message peer id body mode hops now s).1.messages
unfolding accept_message
accept_message-Keyed peer id body mode hops now s h =
    elim (Bool-cases (any (λ m. is_message m && has_key peer id m) s.messages)) [
      | inl e ↦ rw e h
      | inr e ↦
          let absent : row peer id s.messages ≡ none =
            not_some _ (sym (any-row peer id s.messages) ∙ e) in
          rw e (append-Keyed s.messages (new_message peer id body mode hops now) (λ k. absent) h)
    ]

accept_receipt-Keyed :
    (peer id body : String) (now : ℕ) (s : Store)
    → Keyed s.messages
    → Keyed (accept_receipt peer id body now s).1.messages
unfolding accept_receipt
accept_receipt-Keyed peer id body now s h =
    elim (Bool-cases
      (any (λ m. (is_receipt m && has_key peer id m) && same_body body m) s.messages)) [
        | inl e ↦ rw e h
        | inr e ↦ rw e (
            append-Keyed (select (λ m. not (is_receipt m && has_key peer id m)) s.messages)
              (new_receipt peer id body now) (λ k. cc)
              (select-Keyed (λ m. not (is_receipt m && has_key peer id m)) s.messages h))
      ]

pub accept-Keyed :
    (peer : String) (f : Frame) (now : ℕ) (s : Store)
    → Keyed s.messages
    → Keyed (accept peer f now s).1.messages
unfolding accept store_notice
accept-Keyed peer (Frame.notice state warning remaining) now s h = h
accept-Keyed peer (Frame.receipt id body) now s h = accept_receipt-Keyed peer id body now s h
accept-Keyed peer (Frame.message id body mode hops) now s h =
    accept_message-Keyed peer id body mode hops now s h

clear-Keyed : (s : Store) → Keyed s.messages → Keyed (clear_consumed_wake s).messages
clear-Keyed s h = rw (clear-messages s) h

ack-Keyed :
    (test : Message → Bool) (now : ℕ) (s : Store)
    → Keyed s.messages
    → Keyed (clear_consumed_wake (update_messages test Status.consumed ack_detail now s)).messages
ack-Keyed test now s h =
    clear-Keyed (update_messages test Status.consumed ack_detail now s)
      (update-Keyed test Status.consumed ack_detail now s h)

pub set_status-Keyed :
    (peer id : String) (status : Status) (detail : String) (now : ℕ) (s : Store)
    → Keyed s.messages
    → Keyed (set_status peer id status detail now s).messages
unfolding set_status
set_status-Keyed peer id status detail now s h = update-Keyed _ status _ now s h

pub ack_one-Keyed :
    (peer id : String) (now : ℕ) (s : Store)
    → Keyed s.messages
    → Keyed (ack_one peer id now s).messages
unfolding ack_one
ack_one-Keyed peer id now s h = ack-Keyed (λ m. has_key peer id m && is_message m) now s h

pub ack_peer-Keyed :
    (peer : String) (now : ℕ) (s : Store) → Keyed s.messages → Keyed (ack_peer peer now s).messages
unfolding ack_peer
ack_peer-Keyed peer now s h = ack-Keyed (λ m. m.peer == peer && (is_message m && is_open m)) now s h

pub read-Keyed :
    (ack : Bool) (now : ℕ) (s : Store) → Keyed s.messages → Keyed (read ack now s).1.messages
unfolding read
read-Keyed true now s h = ack-Keyed (λ m. is_message m && is_open m) now s h
read-Keyed false now s h = h

pub recover_rows-Keyed :
    (now : ℕ) (s : Store) → Keyed s.messages → Keyed (recover_rows now s).messages
unfolding recover_rows
recover_rows-Keyed now s h = update-Keyed _ Status.queue_uncertain _ now s h
