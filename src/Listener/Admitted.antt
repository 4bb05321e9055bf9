-- ===== src/Listener/Admitted.antt =====
-- Who is connected to `serve` of src/peer_chat.py, and how many.
use peer_chat.Base.{
  All-append, ℕ, ◌+◌, ◌*◌, ◌≤◌, String, ◌≡◌, refl, sym, Bool, true, false, not, ◌||◌, Option, none,
  some, List, [], ◌∷◌, ◌++◌, arith, if◌then◌else◌, ◌==◌, nat_eq, leb, length, All, Bool-cases, inl,
  inr, eq_iff, length-append,
}
use mathlib.Core.Path.{subst}
use peer_chat.Base.Json.{Value, obj, Fields, end, field, lookup}
use peer_chat.Peers.{all_peers}
use peer_chat.Peers.Resolve.{Endpoint, Resolved, refused, live, resolve_peer}
use peer_chat.Listener.{
  Setting, Credentials, Client, Listener, max_clients, connection_ttl, reject, refresh, verify_peer,
  verified, match_of, candidates, hint_of, hinted_peer, or_candidates, matches, add_match, settle,
  match_client, accept_client,
}

-- A peer of a table, under its key.
pub data Has (key : String) (peer : Value) : Fields → Type 0 where
  here : {rest : Fields} → Has key peer (field key peer rest)
  there :
      {k : String} {v : Value} {rest : Fields} → Has key peer rest → Has key peer (field k v rest)

-- A process is matched to a key and an endpoint, with what the listener finds out and a table of
-- peers: a peer of the table has the key, it resolves to the endpoint, and the process is verified
-- against it.
pub record Matched (at : Setting) (enrolled : Fields) (process : Credentials) (key : String)
    (e : Endpoint) : Type 0 where
  pub peer : Value
  pub is_enrolled : Has key peer enrolled
  pub resolves : resolve_peer at.host at.machine none peer ≡ live e
  pub is_verified : verify_peer at process e ≡ true

-- All clients have a property, and there are no more than the limit.
pub record Sound (P : Client → Type 0) (cs : List Client) : Type 0 where
  pub each : All P cs
  pub few : length cs ≤ max_clients

lookup-Has : (key : String) (peer : Value) (d : Fields) → lookup key d ≡ some peer → Has key peer d
unfolding lookup
lookup-Has key peer end h = cc
lookup-Has key peer (field k v rest) h = elim (Bool-cases (k == key)) [
  | inl e ↦ at_head ((eq_iff k key).0 e) (some_value (rw (e) at h))
  | inr n ↦ there (lookup-Has key peer rest (rw (n) at h))
]
  where
    some_value : some v ≡ some peer → v ≡ peer
    some_value e = cc

    at_head : k ≡ key → v ≡ peer → Has key peer (field k v rest)
    at_head e i =
        subst (λ j. Has j peer (field k v rest)) e (subst (λ p. Has k p (field k v rest)) i here)

pub refresh-clients : (text : String) (l : Listener) → (refresh text l).clients ≡ l.clients
refresh-clients text l = either (elim l.snapshot [ none ↦ false | some s ↦ s == text ])
  where
    either :
        (b : Bool)
        → (if b then l else record l { hints = []; snapshot = some text }).clients ≡ l.clients
    either true = refl
    either false = refl

module _ (w : Setting) (c : Credentials) where
  -- Every entry of a list of matches is one.
  pub AllMatched : Fields → List (String × Endpoint) → Type 0
  AllMatched enrolled ms = All (λ m. Matched w enrolled c m.0 m.1) ms

  match_of-Matched :
      (key : String) (peer : Value) (enrolled : Fields) (e : Endpoint)
      → Has key peer enrolled
      → match_of w c peer ≡ some e
      → Matched w enrolled c key e
  match_of-Matched key peer enrolled e h m = go (resolve_peer w.host w.machine none peer) refl m
    where
      go :
          (r : Resolved)
          → resolve_peer w.host w.machine none peer ≡ r
          → verified w c r ≡ some e
          → Matched w enrolled c key e
      go (refused reason) k n = cc
      go (live x) k n = elim (Bool-cases (verify_peer w c x)) [
        | inr f ↦ cc (rw (f) at n)
        | inl t ↦ same t (rw (t) at n)
      ]
        where
          same : verify_peer w c x ≡ true → some x ≡ some e → Matched w enrolled c key e
          same t i = record { peer = peer; is_enrolled = h; resolves = cc; is_verified = cc }

  add_match-AllMatched :
      (key : String) (peer : Value) (enrolled : Fields) (ms : List (String × Endpoint))
      → Has key peer enrolled
      → AllMatched enrolled ms
      → AllMatched enrolled (add_match key (match_of w c peer) ms)
  unfolding AllMatched
  add_match-AllMatched key peer enrolled ms h rest = go (match_of w c peer) refl
    where
      go : (o : Option Endpoint) → match_of w c peer ≡ o → AllMatched enrolled (add_match key o ms)
      go none k = rest
      go (some e) k = (match_of-Matched key peer enrolled e h k, rest)

  -- The candidates among a part of a table are matches of the whole.
  candidates-AllMatched :
      (enrolled part : Fields)
      → ((key : String) (peer : Value) → Has key peer part → Has key peer enrolled)
      → AllMatched enrolled (candidates w c part)
  unfolding candidates AllMatched
  candidates-AllMatched enrolled end up = tt
  candidates-AllMatched enrolled (field key peer rest) up =
      either _ (candidates-AllMatched enrolled rest (λ k p h. up k p (there h)))
    where
      either :
          (b : Bool)
          → AllMatched enrolled (candidates w c rest)
          → AllMatched enrolled (
              if b
              then candidates w c rest
              else add_match key (match_of w c peer) (candidates w c rest))
      either true ms = ms
      either false ms = add_match-AllMatched key peer enrolled _ (up key peer here) ms

  -- The matches are right, and the clients are as they were.
  pub record Picked (enrolled : Fields) (l : Listener) (r : List (String × Endpoint) × Listener)
      : Type 0 where
    pub are_matched : AllMatched enrolled r.0
    pub same_clients : r.1.clients ≡ l.clients

  pub matches-Picked :
      (enrolled : Fields) (hint : Option String) (l : Listener)
      → Picked enrolled l (matches w c enrolled (hinted_peer w hint enrolled) l)
  unfolding matches AllMatched
  matches-Picked enrolled none l = record {
    are_matched = candidates-AllMatched enrolled enrolled (λ k p h. h);
    same_clients = refl;
  }
  matches-Picked enrolled (some key) l = by_peer (lookup key enrolled) refl
    where
      by_peer :
          (o : Option Value)
          → lookup key enrolled ≡ o
          → Picked enrolled l
              (matches w c enrolled (elim o [ none ↦ none | some p ↦ some (key, p) ]) l)
      by_peer none k = record {
        are_matched = candidates-AllMatched enrolled enrolled (λ k p h. h);
        same_clients = refl;
      }
      by_peer (some peer) k = by_match (match_of w c peer) refl
        where
          by_match :
              (o : Option Endpoint)
              → match_of w c peer ≡ o
              → Picked enrolled l (or_candidates w c enrolled key o l)
          by_match none n = record {
            are_matched = candidates-AllMatched enrolled enrolled (λ k p h. h);
            same_clients = refl;
          }
          by_match (some e) n = record {
            are_matched =
                (match_of-Matched key peer enrolled e (lookup-Has key peer enrolled k) n, tt);
            same_clients = refl;
          }

-- What a new client has that a process was matched to.
abbrev pub new_client : Setting → ℕ → ℕ → String → Endpoint → Client
new_client w socket now key e = record {
  socket = socket;
  buffer = [];
  deadline = now + connection_ttl * w.second;
  key = key;
  endpoint = e;
}

module _ (P : Client → Type 0) (w : Setting) (config : Value) (c : Credentials) (socket now : ℕ)
    (new : (key : String) (e : Endpoint)
      → Matched w (all_peers w.host config) c key e
      → P (new_client w socket now key e)) where
  settle-Sound :
      (l : Listener) (r : List (String × Endpoint) × Listener)
      → Sound P l.clients
      → length l.clients + 1 ≤ max_clients
      → Picked w c (all_peers w.host config) l r
      → Sound P (settle w c.pid socket now r).clients
  unfolding settle AllMatched
  settle-Sound l ([], k) s f p = subst (Sound P) (sym p.same_clients) s
  settle-Sound l ((key, e) ∷ [], k) s f p = record {
    each =
        All-append P k.clients _ (subst (All P) (sym p.same_clients) s.each)
          (new key e p.are_matched.0, tt);
    few = added k.clients _ (subst (λ cs. length cs + 1 ≤ max_clients) (sym p.same_clients) f);
  }
    where
      added :
          (xs : List Client) (x : Client)
          → length xs + 1 ≤ max_clients
          → length (xs ++ x ∷ []) ≤ max_clients
      added xs x h = omega (arith, length-append xs (x ∷ []))
  settle-Sound l (x ∷ y ∷ ms, k) s f p = subst (Sound P) (sym p.same_clients) s

  match_client-Sound :
      (l : Listener)
      → Sound P l.clients
      → length l.clients + 1 ≤ max_clients
      → Sound P (match_client w config c socket now l).clients
  unfolding match_client
  match_client-Sound l s f =
      settle-Sound fresh _ (subst (Sound P) (sym same) s)
        (subst (λ cs. length cs + 1 ≤ max_clients) (sym same) f)
        (matches-Picked w c (all_peers w.host config) (hint_of c.pid fresh.hints) fresh)
    where
      fresh : Listener
      fresh = refresh (w.dump (obj (all_peers w.host config))) l

      same : fresh.clients ≡ l.clients
      same = refresh-clients (w.dump (obj (all_peers w.host config))) l

  pub accept_client-Sound :
      (l : Listener)
      → Sound P l.clients
      → Sound P (accept_client w config (some c) socket now l).clients
  unfolding accept_client
  accept_client-Sound l s =
      either (leb max_clients (length l.clients)) (not (nat_eq c.uid w.own_uid)) refl
    where
      room : (n : ℕ) → leb max_clients n ≡ false → n + 1 ≤ max_clients
      room n h = ground arith

      either :
          (full other : Bool)
          → leb max_clients (length l.clients) ≡ full
          → Sound P
              (if full || other then reject l else match_client w config c socket now l).clients
      either true other e = s
      either false true e = s
      either false false e = match_client-Sound l s (room (length l.clients) e)
