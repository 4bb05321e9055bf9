-- ===== src/Listener/Turns.antt =====
-- The turns of `serve` of src/peer_chat.py, one after the other.
use peer_chat.Base.{
  select, ◌⊎◌, inl, inr, ◌≤◌, ℕ, suc, ◌≡◌, refl, ap, sym, Bool, true, false, not, List, [], ◌∷◌,
  arith, if◌then◌else◌, nat_eq, leb, length, map, length-select-le, All-select, All-image, All-map,
  ◌+◌, ◌*◌, none, some,
}
use mathlib.Core.Path.{subst}
use peer_chat.Base.Json.{Value, null}
use peer_chat.Store.{Store, get}
use peer_chat.Peers.{all_peers}
use peer_chat.Listener.{
  max_clients, connection_ttl, Setting, Credentials, Client, Listener, accept_client,
}
use peer_chat.Listener.Serve.{with_buffer, Event, arrives, receives, handle, handle_all, turn}
use peer_chat.Listener.Walk.{IsKept, receive_at-kept}
use peer_chat.Listener.Admitted.{Matched, Sound, new_client, accept_client-Sound}

length-with_buffer :
    (socket : ℕ) (rest : List ℕ) (cs : List Client)
    → length (map (with_buffer socket rest) cs) ≡ length cs
length-with_buffer socket rest [] = refl
length-with_buffer socket rest (c ∷ cs) = ap (λ n. suc n) (length-with_buffer socket rest cs)

fewer :
    (p : Client → Bool) (cs : List Client)
    → length cs ≤ max_clients
    → length (select p cs) ≤ max_clients
fewer p cs h = omega (arith, length-select-le p cs, h)

-- An event is one of a list.
pub data IsIn (e : Event) : List Event → Type 0 where
  first : {es : List Event} → IsIn e (e ∷ es)
  later : {d : Event} {es : List Event} → IsIn e es → IsIn e (d ∷ es)

-- A client came in by one of the events of a turn: a process that connected at its socket was
-- matched to its key and endpoint, with the configuration and the findings of that turn, and its
-- deadline is the time to live after the connection.
pub record Admission (w : Setting) (config : Value) (es : List Event) (c : Client) : Type 0 where
  pub process : Credentials
  pub at : ℕ
  pub arrived : IsIn (arrives c.socket (some process) at) es
  pub matched : Matched w (all_peers w.host config) process c.key c.endpoint
  pub deadline : c.deadline ≡ at + connection_ttl * w.second

-- The same client, with what it sent since.
pub record Same (c d : Client) : Type 0 where
  pub socket : c.socket ≡ d.socket
  pub key : c.key ≡ d.key
  pub endpoint : c.endpoint ≡ d.endpoint
  pub deadline : c.deadline ≡ d.deadline

-- One turn after the other, each with what it finds out; writers of the store run between them.
pub data Turns (l : Listener) : Listener → Type 0 where
  no_turn : Turns l l
  then_turn :
      {k : Listener}
      → Turns l k
      → (w : Setting) (es : List Event) (now : ℕ) → Turns l (turn w es now k)
  then_write : {k : Listener} → Turns l k → (s : Store) → Turns l (record k { store = s })

-- A client was admitted in one of the turns, and is the same since.
unfoldable pub FromTurns : {l k : Listener} → Turns l k → Client → Type 0
FromTurns no_turn c = true ≡ false
FromTurns (then_turn {k} t w es now) c =
    Admission w (get k.store "config" null) es c ⊎ ((d : Client) × FromTurns t d × Same c d)
FromTurns (then_write t s) c = FromTurns t c

-- A property that does not read the buffer.
abbrev IsUnread : (Client → Type 0) → Type 0
IsUnread P = (c : Client) (rest : List ℕ) → P c → P (record c { buffer = rest })

with_buffer-kept :
    (P : Client → Type 0)
    → IsUnread P
    → (socket : ℕ) (rest : List ℕ) (c : Client) → P c
    → P (with_buffer socket rest c)
with_buffer-kept P u socket rest c h = either (nat_eq c.socket socket)
  where
    either : (b : Bool) → P (if b then record c { buffer = rest } else c)
    either true = u c rest h
    either false = h

Sound-IsKept : (P : Client → Type 0) → IsUnread P → IsKept (Sound P)
Sound-IsKept P u = record {
  dropped = λ p cs s. record { each = All-select P p cs s.each; few = fewer p cs s.few };
  buffered = λ socket rest cs s. record {
    each = All-image P (with_buffer socket rest) (with_buffer-kept P u socket rest) cs s.each;
    few = rw (length-with_buffer socket rest cs) s.few;
  };
}

module _ (P : Client → Type 0) (unread : IsUnread P) (w : Setting) (config : Value)
    (all : List Event) (new : (c : Client) → Admission w config all c → P c) where
  handle-Sound :
      (e : Event) (l : Listener)
      → IsIn e all
      → Sound P l.clients
      → Sound P (handle w config e l).clients
  unfolding handle accept_client
  handle-Sound (arrives socket none now) l h s = s
  handle-Sound (arrives socket (some c) now) l h s =
      accept_client-Sound P w config c socket now
        (λ key e m.
          new (new_client w socket now key e)
            (record { process = c; at = now; arrived = h; matched = m; deadline = refl }))
        l s
  handle-Sound (receives socket bytes now) l h s =
      receive_at-kept (Sound P) (Sound-IsKept P unread) w _ bytes now l s

  handle_all-Sound :
      (es : List Event) (l : Listener)
      → ((e : Event) → IsIn e es → IsIn e all)
      → Sound P l.clients
      → Sound P (handle_all w config es l).clients
  unfolding handle_all
  handle_all-Sound [] l up s = s
  handle_all-Sound (e ∷ es) l up s =
      handle_all-Sound es (handle w config e l) (λ d h. up d (later h))
        (handle-Sound e l (up e first) s)

module _ {l k : Listener} (t : Turns l k) (w : Setting) (es : List Event) (now : ℕ) where
  FromTurns-IsUnread : IsUnread (FromTurns (then_turn t w es now))
  unfolding FromTurns
  FromTurns-IsUnread c rest (inl a) = inl (record {
    process = a.process;
    at = a.at;
    arrived = a.arrived;
    matched = a.matched;
    deadline = a.deadline;
  })
  FromTurns-IsUnread c rest (inr (d, f, s)) = inr (
    d,
    f,
    record { socket = s.socket; key = s.key; endpoint = s.endpoint; deadline = s.deadline },
  )

  turn-Sound :
      Sound (FromTurns t) k.clients
      → Sound (FromTurns (then_turn t w es now)) (turn w es now k).clients
  unfolding turn FromTurns
  turn-Sound s =
      (Sound-IsKept (FromTurns (then_turn t w es now)) FromTurns-IsUnread).dropped
        (λ c. not (leb c.deadline now)) _
        (handle_all-Sound (FromTurns (then_turn t w es now)) FromTurns-IsUnread w
          (get k.store "config" null) es (λ c a. inl a) es k (λ e h. h) earlier)
    where
      earlier : Sound (FromTurns (then_turn t w es now)) k.clients
      earlier = record {
        each =
            All-map (FromTurns t) (FromTurns (then_turn t w es now)) k.clients
              (λ c f.
                inr (c, f, record { socket = refl; key = refl; endpoint = refl; deadline = refl }))
              s.each;
        few = s.few;
      }

-- In every state that turns reach from a start without clients, there are at most 16 clients, and each
-- was admitted in one of these turns and is the same since: a process connected at its socket in the
-- turn, a peer of the configuration of that turn has its key and resolves to its endpoint, the process
-- is verified against that endpoint, and the deadline is the time to live after the connection.
pub Turns-Sound : {l k : Listener} (t : Turns l k) → l.clients ≡ [] → Sound (FromTurns t) k.clients
unfolding FromTurns
Turns-Sound no_turn e =
    subst (Sound (λ c. true ≡ false)) (sym e) (record { each = tt; few = omega arith })
Turns-Sound (then_turn t w es now) e = turn-Sound t w es now (Turns-Sound t e)
Turns-Sound (then_write t s) e =
    let before = Turns-Sound t e in record { each = before.each; few = before.few }
