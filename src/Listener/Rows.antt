-- ===== src/Listener/Rows.antt =====
-- What the connections of `serve` of src/peer_chat.py write, and how long they last.
use peer_chat.Base.{
  and_first, and_second, or_first, or_second, ℕ, String, ◌≡◌, refl, ap, ◌∙◌, Bool, true, false, not,
  ◌&&◌, ◌||◌, Option, none, some, List, [], ◌∷◌, ◌++◌, if◌then◌else◌, ◌==◌, nat_eq, leb, length,
  select, find, map, any, eq_iff, Bool-cases, inl, inr,
}
use peer_chat.Base.Json.{Value, Fields}
use peer_chat.Store.{
  Store, Message, Frame, accept, accept_receipt, accept_message, store_notice, new_message,
  is_receipt, is_message, has_key, same_body, settle, new_receipt,
}
use peer_chat.Frames.{feed}
use peer_chat.Peers.Resolve.{Endpoint}
use peer_chat.Listener.{
  Setting, Credentials, Client, Listener, max_clients, reject, refresh, match_of, or_candidates,
  matches, settle as settle_matches, match_client, accept_client,
}
use peer_chat.Listener.Serve.{
  keep_rest, take_frame, frame_of, take_lines, take_fed, receive, receive_at, Event, arrives,
  receives, handle,
}

-- The rows of a peer.
abbrev pub rows_of : String → Store → List Message
rows_of peer s = select (λ m. m.peer == peer) s.messages

select-snoc :
    (p : Message → Bool) (xs : List Message) (x : Message)
    → p x ≡ false
    → select p (xs ++ x ∷ []) ≡ select p xs
select-snoc p [] x h = rw h
select-snoc p (y ∷ xs) x h = ap (λ r. if p y then y ∷ r else r) (select-snoc p xs x h)

-- Dropping rows that a test does not take changes nothing for it.
select-drop :
    (p q : Message → Bool) (xs : List Message)
    → ((m : Message) → q m ≡ true → p m ≡ false)
    → select p (select (λ m. not (q m)) xs) ≡ select p xs
select-drop p q [] h = refl
select-drop p q (x ∷ xs) h = either (select-drop p q xs h) (q x) refl
  where
    either :
        select p (select (λ m. not (q m)) xs) ≡ select p xs
        → (b : Bool) → q x ≡ b
        → select p (if not b then x ∷ select (λ m. not (q m)) xs else select (λ m. not (q m)) xs)
          ≡ (if p x then x ∷ select p xs else select p xs)
    either ih true e = rw (h x e) ih
    either ih false e = ap (λ r. if p x then x ∷ r else r) ih

-- A row with the key of one peer is not one of another.
other_peer :
    (key peer id : String) (m : Message)
    → (key == peer) ≡ false
    → has_key key id m ≡ true
    → (m.peer == peer) ≡ false
other_peer key peer id m n h =
    ap (λ p. p == peer) ((eq_iff m.peer key).0 (and_first (m.peer == key) (m.id == id) h)) ∙ n

accept-rows_of :
    (peer key : String) (f : Frame) (now : ℕ) (s : Store)
    → (key == peer) ≡ false
    → rows_of peer (accept key f now s).1 ≡ rows_of peer s
unfolding accept accept_receipt accept_message store_notice
accept-rows_of peer key (Frame.notice state warning remaining) now s h = refl
accept-rows_of peer key (Frame.receipt id body) now s h =
    either (any (λ m. is_receipt m && has_key key id m && same_body body m) s.messages)
  where
    other : (m : Message) → (is_receipt m && has_key key id m) ≡ true → (m.peer == peer) ≡ false
    other m k = other_peer key peer id m h (and_second (is_receipt m) (has_key key id m) k)

    kept : List Message
    kept = select (λ m. not (is_receipt m && has_key key id m)) s.messages

    either :
        (b : Bool)
        → rows_of peer
            (if◌then◌else◌ {A = Bool × Store} b
              (false, s)
              (
                true,
                record s {
                  messages = kept ++ new_receipt key id body now ∷ [];
                  outgoing = map (settle s key id body) s.outgoing;
                },
              )).1
          ≡ rows_of peer s
    either true = refl
    either false =
        select-snoc (λ m. m.peer == peer) kept (new_receipt key id body now) h
        ∙ select-drop (λ m. m.peer == peer) (λ m. is_receipt m && has_key key id m) s.messages other
accept-rows_of peer key (Frame.message id body mode hops) now s h =
    either (any (λ m. is_message m && has_key key id m) s.messages)
  where
    either :
        (b : Bool)
        → rows_of peer
            (if◌then◌else◌ {A = Bool × Store} b
              (false, s)
              (
                true,
                record s { messages = s.messages ++ new_message key id body mode hops now ∷ [] },
              )).1
          ≡ rows_of peer s
    either true = refl
    either false =
        select-snoc (λ m. m.peer == peer) s.messages (new_message key id body mode hops now) h

take_frame-rows_of :
    (peer key : String) (now : ℕ) (o : Option Frame) (l : Listener)
    → (key == peer) ≡ false
    → rows_of peer (take_frame key now o l).store ≡ rows_of peer l.store
take_frame-rows_of peer key now none l h = refl
take_frame-rows_of peer key now (some f) l h = accept-rows_of peer key f now l.store h

module _ (w : Setting) (peer : String) where
  -- The rows of the peer are those that they were.
  Kept : Listener → Listener → Type 0
  Kept l k = rows_of peer k.store ≡ rows_of peer l.store

  take_lines-Kept :
      (c : Client) (now : ℕ) (lines : List (List ℕ)) (l : Listener)
      → (c.key == peer) ≡ false
      → Kept l (take_lines w c now lines l)
  unfolding take_lines Kept
  take_lines-Kept c now [] l h = refl
  take_lines-Kept c now (line ∷ lines) l h =
      take_lines-Kept c now lines (take_frame c.key now (frame_of w c line) l) h
      ∙ take_frame-rows_of peer c.key now (frame_of w c line) l h

  receive-Kept :
      (c : Client) (bytes : Option (List ℕ)) (now : ℕ) (l : Listener)
      → (c.key == peer) ≡ false
      → Kept l (receive w c bytes now l)
  unfolding receive Kept
  receive-Kept c none now l h = refl
  receive-Kept c (some []) now l h = refl
  receive-Kept c (some (b ∷ bs)) now l h = fed (feed c.buffer (b ∷ bs))
    where
      fed :
          (r : Option (List (List ℕ) × List ℕ))
          → rows_of peer (take_fed w c now r l).store ≡ rows_of peer l.store
      fed none = refl
      fed (some (lines, rest)) = take_lines-Kept c now lines (keep_rest c.socket rest l) h

  settle-Kept :
      (pid socket now : ℕ) (l : Listener) (r : List (String × Endpoint) × Listener)
      → r.1.store ≡ l.store
      → Kept l (settle_matches w pid socket now r)
  unfolding settle_matches Kept
  settle-Kept pid socket now l ([], k) e = ap (rows_of peer) e
  settle-Kept pid socket now l ((key, x) ∷ [], k) e = ap (rows_of peer) e
  settle-Kept pid socket now l (x ∷ y ∷ ms, k) e = ap (rows_of peer) e

  matches-store :
      (c : Credentials) (enrolled : Fields) (hint : Option (String × Value)) (l : Listener)
      → (matches w c enrolled hint l).1.store ≡ l.store
  unfolding matches
  matches-store c enrolled none l = refl
  matches-store c enrolled (some (key, p)) l = either (match_of w c p)
    where
      either : (o : Option Endpoint) → (or_candidates w c enrolled key o l).1.store ≡ l.store
      either none = refl
      either (some e) = refl

  refresh-store : (text : String) (l : Listener) → (refresh text l).store ≡ l.store
  refresh-store text l = either (elim l.snapshot [ none ↦ false | some s ↦ s == text ])
    where
      either :
          (b : Bool)
          → (if b then l else record l { hints = []; snapshot = some text }).store ≡ l.store
      either true = refl
      either false = refl

  accept_client-Kept :
      (config : Value) (c : Option Credentials) (socket now : ℕ) (l : Listener)
      → Kept l (accept_client w config c socket now l)
  unfolding accept_client match_client Kept
  accept_client-Kept config none socket now l = refl
  accept_client-Kept config (some c) socket now l =
      either (leb max_clients (length l.clients) || not (nat_eq c.uid w.own_uid))
    where
      either :
          (b : Bool)
          → rows_of peer (if b then reject l else match_client w config c socket now l).store
            ≡ rows_of peer l.store
      either true = refl
      either false = settle-Kept c.pid socket now l _ (matches-store c _ _ _ ∙ refresh-store _ l)

  find-key :
      (socket : ℕ) (cs : List Client) (c : Client)
      → any (λ d. d.key == peer) cs ≡ false
      → find (λ d. nat_eq d.socket socket) cs ≡ some c
      → (c.key == peer) ≡ false
  find-key socket [] c h f = cc
  find-key socket (d ∷ cs) c h f = elim (Bool-cases (nat_eq d.socket socket)) [
    | inl t ↦ at_head (or_first (d.key == peer) _ h) (rw (t) at f)
    | inr n ↦ find-key socket cs c (or_second (d.key == peer) _ h) (rw (n) at f)
  ]
    where
      at_head : (d.key == peer) ≡ false → some d ≡ some c → (c.key == peer) ≡ false
      at_head n e = cc

  -- One event writes rows of a peer only where a client is connected that was matched to this very peer;
  -- the rows of every other one are as they were, whatever the connections send.
  pub handle-rows_of :
      (config : Value) (e : Event) (l : Listener)
      → any (λ c. c.key == peer) l.clients ≡ false
      → rows_of peer (handle w config e l).store ≡ rows_of peer l.store
  unfolding handle Kept
  handle-rows_of config (arrives socket c now) l h = accept_client-Kept config c socket now l
  handle-rows_of config (receives socket bytes now) l h =
      at_client (find (λ c. nat_eq c.socket socket) l.clients) refl
    where
      at_client :
          (o : Option Client)
          → find (λ c. nat_eq c.socket socket) l.clients ≡ o
          → rows_of peer (receive_at w o bytes now l).store ≡ rows_of peer l.store
      at_client none f = refl
      at_client (some c) f = receive-Kept c bytes now l (find-key socket l.clients c h f)
