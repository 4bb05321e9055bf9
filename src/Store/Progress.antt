-- ===== src/Store/Progress.antt =====
-- How the rows of the table `messages` may change under the writers of src/peer_chat.py.
use mathlib.Core.Logic.{◌≢◌}
use peer_chat.Base.{
  ℕ, String, ◌≡◌, refl, ◌⊎◌, inl, inr, Bool, true, false, not, ◌&&◌, ◌||◌, Option, none, some, List,
  [], ◌∷◌, ◌++◌, map, arith, if◌then◌else◌, select, any, Bool-cases,
}
use peer_chat.Base.Json.{Value}
use peer_chat.Store.{
  Store, Status, Message, Frame, is_message, is_receipt, has_key, set_row, new_message,
  update_messages, accept, accept_message, accept_receipt, new_receipt, same_body, store_notice,
  clear_consumed_wake, recover_rows, set_status, ack_one, ack_peer, read, same_status,
}

-- The row of the primary key (peer, id, 'message').
abbrev pub row : String → String → List Message → Option Message
row peer id [] = none
row peer id (m ∷ ms) =
    let rest = row peer id ms in if is_message m && has_key peer id m then some m else rest

abbrev pub Advances : Status → Status → Type 0
Advances a b = (a ≡ b) ⊎ ((a ≢ Status.consumed) × (b ≢ Status.received))

pub record Follows (m m' : Message) : Type 0 where
  pub body : m.body ≡ m'.body
  pub mode : m.sender_mode ≡ m'.sender_mode
  pub hops : m.hops ≡ m'.hops
  pub created : m.created ≡ m'.created
  pub status : Advances m.status m'.status

abbrev pub RowFollows : Option Message → Option Message → Type 0
RowFollows none r = Unit
RowFollows (some m) none = ⊥
RowFollows (some m) (some m') = Follows m m'

pub record Progress (s s' : Store) : Type 0 where
  pub at : (peer id : String) → RowFollows (row peer id s.messages) (row peer id s'.messages)

Advances-trans : (a b c : Status) → Advances a b → Advances b c → Advances a c
Advances-trans a b c h k = ground arith

Follows-refl : (m : Message) → Follows m m
Follows-refl m = record { body = refl; mode = refl; hops = refl; created = refl; status = inl refl }

RowFollows-refl : (r : Option Message) → RowFollows r r
RowFollows-refl none = tt
RowFollows-refl (some m) = Follows-refl m

RowFollows-trans : (a b c : Option Message) → RowFollows a b → RowFollows b c → RowFollows a c
RowFollows-trans none b c h k = tt
RowFollows-trans (some a) none c h k = absurd h
RowFollows-trans (some a) (some b) none h k = k
RowFollows-trans (some a) (some b) (some c) h k = record {
  body = cc;
  mode = cc;
  hops = cc;
  created = cc;
  status = Advances-trans a.status b.status c.status h.status k.status;
}

pub Progress-refl : (s : Store) → Progress s s
Progress-refl s = record { at = λ p i. RowFollows-refl (row p i s.messages) }

pub Progress-trans : {s t u : Store} → Progress s t → Progress t u → Progress s u
Progress-trans {s} {t} {u} h k = record {
  at = λ p i.
      RowFollows-trans (row p i s.messages) (row p i t.messages) (row p i u.messages) (h.at p i)
        (k.at p i);
}

-- A writer of the other tables.
pub same-Progress : {s s' : Store} → s.messages ≡ s'.messages → Progress s s'
same-Progress {s} {s'} e = record { at = λ p i. rw e (RowFollows-refl (row p i s'.messages)) }

module _ (test : Message → Bool) (status : Status) (detail : String) where
  set_row-Follows :
      (m : Message)
      → (test m ≡ true → Advances m.status status)
      → Follows m (set_row test status detail m)
  set_row-Follows m ok = elim (Bool-cases (test m)) [
    | inl e ↦ rw e (record { body = refl; mode = refl; hops = refl; created = refl; status = ok e })
    | inr e ↦ rw e (Follows-refl m)
  ]

  set_row_same_key :
      (peer id : String) (m : Message)
      → (is_message (set_row test status detail m)
          && has_key peer id (set_row test status detail m))
        ≡ (is_message m && has_key peer id m)
  set_row_same_key peer id m = elim (Bool-cases (test m)) [ inl e ↦ rw e | inr e ↦ rw e ]

  map-RowFollows :
      (peer id : String) (ms : List Message)
      → ((m : Message) → test m ≡ true → Advances m.status status)
      → RowFollows (row peer id ms) (row peer id (map (set_row test status detail) ms))
  map-RowFollows peer id [] ok = tt
  map-RowFollows peer id (m ∷ ms) ok =
      rw (set_row_same_key peer id m) (elim (Bool-cases (is_message m && has_key peer id m)) [
        | inl e ↦ rw e (set_row-Follows m (ok m))
        | inr e ↦ rw e (map-RowFollows peer id ms ok)
      ])

  pub update-Progress :
      (now : ℕ) (s : Store)
      → ((m : Message) → test m ≡ true → Advances m.status status)
      → Progress s (update_messages test status detail now s)
  unfolding update_messages
  update-Progress now s ok = record { at = λ p i. map-RowFollows p i s.messages ok }

append-RowFollows :
    (peer id : String) (ms : List Message) (m : Message)
    → RowFollows (row peer id ms) (row peer id (ms ++ m ∷ []))
append-RowFollows peer id [] m = tt
append-RowFollows peer id (x ∷ ms) m = elim (Bool-cases (is_message x && has_key peer id x)) [
  | inl e ↦ rw e (Follows-refl x)
  | inr e ↦ rw e (append-RowFollows peer id ms m)
]

-- Dropping receipts drops no message.
row-select :
    (test : Message → Bool) (peer id : String) (ms : List Message)
    → row peer id (select (λ m. not (is_receipt m && test m)) ms) ≡ row peer id ms
row-select test peer id [] = refl
row-select test peer id (m ∷ ms) = ground (arith, row-select test peer id ms)

accept_message-Progress :
    (peer id body mode : String) (hops : List String) (now : ℕ) (s : Store)
    → Progress s (accept_message peer id body mode hops now s).1
unfolding accept_message
accept_message-Progress peer id body mode hops now s =
    elim (Bool-cases (any (λ m. is_message m && has_key peer id m) s.messages)) [
      | inl e ↦ rw e (Progress-refl s)
      | inr e ↦ rw e (record {
        at = λ p i. append-RowFollows p i s.messages (new_message peer id body mode hops now);
      })
    ]

accept_receipt-Progress :
    (peer id body : String) (now : ℕ) (s : Store) → Progress s (accept_receipt peer id body now s).1
unfolding accept_receipt
accept_receipt-Progress peer id body now s =
    elim (Bool-cases
      (any (λ m. (is_receipt m && has_key peer id m) && same_body body m) s.messages)) [
        | inl e ↦ rw e (Progress-refl s)
        | inr e ↦ rw e (record {
          at = λ p i. rw (← row-select (has_key peer id) p i s.messages) (
              append-RowFollows p i
                (select (λ m. not (is_receipt m && has_key peer id m)) s.messages)
                (new_receipt peer id body now));
        })
      ]

store_notice-Progress :
    (peer state warning : String) (remaining : Value) (now : ℕ) (s : Store)
    → Progress s (store_notice peer state warning remaining now s)
unfolding store_notice
store_notice-Progress peer state warning remaining now s = same-Progress refl

pub accept-Progress :
    (peer : String) (f : Frame) (now : ℕ) (s : Store) → Progress s (accept peer f now s).1
unfolding accept
accept-Progress peer (Frame.notice state warning remaining) now s =
    store_notice-Progress peer state warning remaining now s
accept-Progress peer (Frame.receipt id body) now s = accept_receipt-Progress peer id body now s
accept-Progress peer (Frame.message id body mode hops) now s =
    accept_message-Progress peer id body mode hops now s

pub clear_consumed_wake-Progress : (s : Store) → Progress s (clear_consumed_wake s)
unfolding clear_consumed_wake
clear_consumed_wake-Progress s = same-Progress (ground arith)

consumed-Advances : (a : Status) → Advances a Status.consumed
consumed-Advances Status.consumed = inl refl
consumed-Advances _ = inr (λ e. cc, λ e. cc)

guarded-Advances :
    (a b : Status)
    → (not (same_status a Status.consumed) || same_status b Status.consumed) ≡ true
    → b ≢ Status.received
    → Advances a b
guarded-Advances Status.consumed Status.consumed h n = inl refl
guarded-Advances Status.consumed b h n = inl (ground arith)
guarded-Advances _ b h n = inr (λ e. cc, n)

pub same_status-eq : (a b : Status) → same_status a b ≡ true → a ≡ b
same_status-eq Status.received b h = ground arith
same_status-eq _ b h = ground arith

-- A row that a writer selects by a status which is not final.
pub started-Advances :
    (t a b : Status)
    → same_status a t ≡ true
    → t ≢ Status.consumed
    → b ≢ Status.received
    → Advances a b
started-Advances t a b h n k = inr (λ e. n (cc (same_status-eq a t h)), k)

unstarred : (p q r : Bool) → (p && (q && r)) ≡ true → r ≡ true
unstarred p q r h = ground arith

pub set_status-Progress :
    (peer id : String) (status : Status) (detail : String) (now : ℕ) (s : Store)
    → status ≢ Status.received
    → Progress s (set_status peer id status detail now s)
unfolding set_status
set_status-Progress peer id status detail now s h =
    update-Progress _ status _ now s
      λ m e. guarded-Advances m.status status (unstarred (has_key peer id m) (is_message m) _ e) h

-- An acknowledgement of any rows, and the wake that it may clear.
ack-Progress :
    (test : Message → Bool) (detail : String) (now : ℕ) (s : Store)
    → Progress s (clear_consumed_wake (update_messages test Status.consumed detail now s))
ack-Progress test detail now s =
    Progress-trans
      (update-Progress test Status.consumed detail now s (λ m e. consumed-Advances m.status))
      (clear_consumed_wake-Progress _)

pub ack_one-Progress : (peer id : String) (now : ℕ) (s : Store) → Progress s (ack_one peer id now s)
unfolding ack_one
ack_one-Progress peer id now s = ack-Progress _ _ now s

pub ack_peer-Progress : (peer : String) (now : ℕ) (s : Store) → Progress s (ack_peer peer now s)
unfolding ack_peer
ack_peer-Progress peer now s = ack-Progress _ _ now s

pub read-Progress : (ack : Bool) (now : ℕ) (s : Store) → Progress s (read ack now s).1
unfolding read
read-Progress true now s = ack-Progress _ _ now s
read-Progress false now s = Progress-refl s

pub recover_rows-Progress : (now : ℕ) (s : Store) → Progress s (recover_rows now s)
unfolding recover_rows
recover_rows-Progress now s =
    Progress-trans
      (update-Progress _ Status.queue_uncertain _ now s
        (λ m e. started-Advances Status.forwarding m.status _ e (λ x. cc) (λ x. cc)))
      (same-Progress refl)
