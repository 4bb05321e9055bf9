-- ===== src/Store/Accept.antt =====
-- `Store.accept` of src/peer_chat.py: the frames of one peer and id.
use peer_chat.Base.{
  ℕ, String, ◌≡◌, refl, inl, inr, true, false, ◌&&◌, Option, none, some, List, [], ◌∷◌, ◌++◌, arith,
  any, is_some, Option-cases, eq_refl,
}
use peer_chat.Store.{
  Store, Message, Frame, is_message, has_key, new_message, accept, accept_message,
}
use peer_chat.Store.Progress.{row, RowFollows, Progress}

pub any-row :
    (peer id : String) (ms : List Message)
    → any (λ m. is_message m && has_key peer id m) ms ≡ is_some (row peer id ms)
any-row peer id [] = refl
any-row peer id (m ∷ ms) = ground (arith, any-row peer id ms)

row-append_new :
    (peer id body mode : String) (hops : List String) (now : ℕ) (ms : List Message)
    → row peer id ms ≡ none
    → row peer id (ms ++ new_message peer id body mode hops now ∷ [])
      ≡ some (new_message peer id body mode hops now)
row-append_new peer id body mode hops now [] h = ground (arith, eq_refl peer, eq_refl id)
row-append_new peer id body mode hops now (m ∷ ms) h =
    ground (arith, row-append_new peer id body mode hops now ms)

is_some-RowFollows :
    (r r' : Option Message) → RowFollows r r' → is_some r ≡ true → is_some r' ≡ true
is_some-RowFollows none r' h e = cc
is_some-RowFollows (some m) none h e = absurd h
is_some-RowFollows (some m) (some m') h e = refl

-- A message that its sender has not used the id of is stored as received, with the frame's text,
-- mode and hops, and `accept` says so.
pub accept-new :
    (peer id body mode : String) (hops : List String) (now : ℕ) (s : Store)
    → row peer id s.messages ≡ none
    → ((accept peer (Frame.message id body mode hops) now s).0 ≡ true)
      × (row peer id (accept peer (Frame.message id body mode hops) now s).1.messages
          ≡ some (new_message peer id body mode hops now))
unfolding accept accept_message
accept-new peer id body mode hops now s h =
    ground (arith, any-row peer id s.messages, row-append_new peer id body mode hops now s.messages)

accept-known :
    (peer id body mode : String) (hops : List String) (now : ℕ) (s : Store)
    → is_some (row peer id s.messages) ≡ true
    → accept peer (Frame.message id body mode hops) now s ≡ (false, s)
unfolding accept accept_message
accept-known peer id body mode hops now s h = rw (any-row peer id s.messages, h)

accept-is_some :
    (peer id body mode : String) (hops : List String) (now : ℕ) (s : Store)
    → is_some (row peer id (accept peer (Frame.message id body mode hops) now s).1.messages) ≡ true
accept-is_some peer id body mode hops now s = elim (Option-cases (row peer id s.messages)) [
  | inl e ↦ rw (accept-new peer id body mode hops now s e).1
  | inr (m, e) ↦
      let known : is_some (row peer id s.messages) ≡ true = rw e in
      rw (accept-known peer id body mode hops now s known) known
]

-- Whatever was done to the store in between, a second message of the same peer and id is refused
-- and changes nothing, also where its text differs.
pub accept-repeated :
    (peer id body body' mode mode' : String) (hops hops' : List String) (now now' : ℕ)
    (s s' : Store)
    → Progress (accept peer (Frame.message id body mode hops) now s).1 s'
    → accept peer (Frame.message id body' mode' hops') now' s' ≡ (false, s')
accept-repeated peer id body body' mode mode' hops hops' now now' s s' h =
    accept-known peer id body' mode' hops' now' s' (
      is_some-RowFollows
        (row peer id (accept peer (Frame.message id body mode hops) now s).1.messages)
        (row peer id s'.messages) (h.at peer id) (accept-is_some peer id body mode hops now s))
