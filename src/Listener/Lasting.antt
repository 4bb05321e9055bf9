-- ===== src/Listener/Lasting.antt =====
-- How long the connections of `serve` of src/peer_chat.py last, and the rows at its start.
use peer_chat.Base.{
  ℕ, ◌+◌, ◌*◌, ◌≤◌, ◌<◌, String, ◌≡◌, refl, sym, ◌∙◌, Bool, true, false, not, ◌||◌, Option, none,
  some, List, [], ◌∷◌, arith, if◌then◌else◌, nat_eq, leb, length, select, All, All-append,
  All-select, All-image,
}
use mathlib.Core.Path.{subst}
use peer_chat.Base.Json.{Value, null}
use peer_chat.Store.{get}
use peer_chat.Peers.Resolve.{Endpoint}
use peer_chat.Listener.{
  Setting, Credentials, Client, Listener, max_clients, connection_ttl, reject, settle, match_client,
  accept_client,
}
use peer_chat.Listener.Serve.{with_buffer, Event, arrives, receives, handle, handle_all, turn}
use peer_chat.Listener.Admitted.{matches-Picked, refresh-clients}
use peer_chat.Listener.Walk.{IsKept, receive_at-kept}

module _ (w : Setting) (end' : ℕ) where
  -- The time by which every client of a turn that ends then is closed.
  abbrev pub limit : ℕ
  limit = end' + connection_ttl * w.second

  -- No client stays longer than that.
  unfoldable pub IsShort : Client → Type 0
  IsShort c = c.deadline ≤ limit

  -- The connections of the events come before the end.
  unfoldable pub IsBefore : Event → Type 0
  IsBefore (arrives socket c now) = now ≤ end'
  IsBefore (receives socket bytes now) = Unit

  IsShort-IsKept : IsKept (All IsShort)
  unfolding IsShort
  IsShort-IsKept = record {
    dropped = All-select IsShort;
    buffered = λ socket rest.
        All-image IsShort (with_buffer socket rest)
          (λ c h. either c rest h (nat_eq c.socket socket));
  }
    where
      either :
          (c : Client) (rest : List ℕ)
          → IsShort c
          → (b : Bool) → (if b then record c { buffer = rest } else c).deadline ≤ limit
      either c rest h true = h
      either c rest h false = h

  AllShort : Listener → Type 0
  AllShort l = All IsShort l.clients

  settle-AllShort :
      (c : Credentials) (socket now : ℕ) (l : Listener) (r : List (String × Endpoint) × Listener)
      → now ≤ end'
      → r.1.clients ≡ l.clients
      → AllShort l
      → AllShort (settle w c.pid socket now r)
  unfolding settle AllShort IsShort
  settle-AllShort c socket now l ([], k) b e h = subst (All IsShort) (sym e) h
  settle-AllShort c socket now l ((key, x) ∷ [], k) b e h =
      All-append IsShort k.clients _ (subst (All IsShort) (sym e) h) (omega (arith, b), tt)
  settle-AllShort c socket now l (x ∷ y ∷ ms, k) b e h = subst (All IsShort) (sym e) h

  accept_client-AllShort :
      (config : Value) (c : Option Credentials) (socket now : ℕ) (l : Listener)
      → now ≤ end'
      → AllShort l
      → AllShort (accept_client w config c socket now l)
  unfolding accept_client match_client AllShort
  accept_client-AllShort config none socket now l b h = h
  accept_client-AllShort config (some c) socket now l b h =
      either (leb max_clients (length l.clients) || not (nat_eq c.uid w.own_uid))
    where
      either :
          (b : Bool)
          → All IsShort (if b then reject l else match_client w config c socket now l).clients
      either true = h
      either false =
          settle-AllShort c socket now l _ b
            ((matches-Picked w c _ _ _).same_clients ∙ refresh-clients _ l) h

  handle_all-AllShort :
      (config : Value) (es : List Event) (l : Listener)
      → All IsBefore es
      → AllShort l
      → AllShort (handle_all w config es l)
  unfolding handle_all handle AllShort IsBefore
  handle_all-AllShort config [] l b h = h
  handle_all-AllShort config (arrives socket c now ∷ es) l b h =
      handle_all-AllShort config es _ b.1 (accept_client-AllShort config c socket now l b.0 h)
  handle_all-AllShort config (receives socket bytes now ∷ es) l b h =
      handle_all-AllShort config es _ b.1
        (receive_at-kept (All IsShort) IsShort-IsKept w _ bytes now l h)

  open_clients :
      (cs : List Client)
      → All IsShort cs
      → All
          (λ c. (end' < c.deadline) × (c.deadline ≤ limit))
          (select (λ c. not (leb c.deadline end')) cs)
  unfolding IsShort
  open_clients [] h = tt
  open_clients (c ∷ cs) h = either (leb c.deadline end') refl (open_clients cs h.1)
    where
      rest : List Client
      rest = select (λ d. not (leb d.deadline end')) cs

      either :
          (b : Bool)
          → leb c.deadline end' ≡ b
          → All (λ d. (end' < d.deadline) × (d.deadline ≤ limit)) rest
          → All (λ d. (end' < d.deadline) × (d.deadline ≤ limit)) (if not b then c ∷ rest else rest)
      either true e k = k
      either false e k = ((ground arith, h.0), k)

  -- After a turn that ends at a time, with its connections accepted before that, the deadline of every
  -- client lies ahead, by the five seconds of a connection at most, whatever bytes came.
  pub turn-lasting :
      (es : List Event) (l : Listener)
      → All IsShort l.clients
      → All IsBefore es
      → All (λ c. (end' < c.deadline) × (c.deadline ≤ limit)) (turn w es end' l).clients
  unfolding turn AllShort
  turn-lasting es l h b = open_clients _ (handle_all-AllShort (get l.store "config" null) es l b h)
