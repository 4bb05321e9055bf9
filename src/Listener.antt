-- ===== src/Listener.antt =====
-- The listener of src/peer_chat.py: `serve` from its start to its end, with the connections that it accepts.
-- What it finds out about processes and files, `json.loads` and `json.dumps` are in a record; a socket
-- is a number.
pub mod Serve
pub mod Admitted
mod Walk
pub mod Turns
pub mod Lasting
pub mod Opening
pub mod Begin
mod Written
pub mod Carried
pub mod Rows
use Prim.Native.String.{◌++◌}
use peer_chat.Base.{
  ℕ, suc, ◌+◌, ◌*◌, String, Bool, true, false, not, ◌&&◌, ◌||◌, Option, none, some, List, [], ◌∷◌,
  ◌++◌ as join_lists, if◌then◌else◌, ◌==◌, nat_eq, leb, length, select, find, map,
}
use peer_chat.Base.Int.{pos}
use peer_chat.Base.Json.{Value, int, obj, Fields, end, field, lookup, member, is_text}
use peer_chat.Store.{Store, get, put}
use peer_chat.Peers.{Host, all_peers}
use peer_chat.Peers.Resolve.{
  Machine, Endpoint, Resolved, refused, live, is_identity, same_pid, resolve_peer,
}

pub record Setting : Type 0 where
  pub host : Host
  pub machine : Machine
  pub own_uid : ℕ
  pub is_word : ℕ → Bool
  pub parse : List ℕ → Option Value
  pub dump : Value → String
  pub second : ℕ

abbrev pub max_clients : ℕ
max_clients = 16

abbrev pub connection_ttl : ℕ
connection_ttl = 5

-- `peer_credentials`, where it raises nothing.
pub record Credentials : Type 0 where
  pub pid : ℕ
  pub uid : ℕ

abbrev pub pid_of : Credentials → Value
pid_of c = int (pos c.pid)

-- An accepted connection: its buffer and deadline, and what it was matched to.
pub record Client : Type 0 where
  pub socket : ℕ
  pub buffer : List ℕ
  pub deadline : ℕ
  pub key : String
  pub endpoint : Endpoint

-- The keys that processes were matched to: `sender_keys`.
abbrev pub Hints : Type 0
Hints = List (ℕ × String)

pub record Listener : Type 0 where
  pub store : Store
  pub clients : List Client
  pub hints : Hints
  pub snapshot : Option String

abbrev pub hint_of : ℕ → Hints → Option String
hint_of pid hints = elim (find (λ h. nat_eq h.0 pid) hints) [ none ↦ none | some h ↦ some h.1 ]

abbrev drop_hint : ℕ → Hints → Hints
drop_hint pid hints = select (λ h. not (nat_eq h.0 pid)) hints

abbrev plus_one : Value → Value
plus_one (int (pos n)) = int (pos (suc n))
plus_one v = v

-- A connection or a frame is refused: `rejected` is a count from the start on.
abbrev pub reject : Listener → Listener
reject l = record l {
  store = put "rejected" (plus_one (get l.store "rejected" (int (pos 0)))) l.store;
}

-- A new enrollment invalidates the hints.
abbrev pub refresh : String → Listener → Listener
refresh text l =
    let known : Bool = elim l.snapshot [ none ↦ false | some s ↦ s == text ] in
    if known then l else record l { hints = []; snapshot = some text }

abbrev pub add_match :
    String → Option Endpoint → List (String × Endpoint) → List (String × Endpoint)
add_match key none others = others
add_match key (some e) others = (key, e) ∷ others

module _ (w : Setting) where
  -- `verify_peer`, which reads the credentials of the connection again.
  unfoldable pub verify_peer : Credentials → Endpoint → Bool
  verify_peer c e =
      nat_eq c.uid w.own_uid
      && (same_pid (pid_of c) e.pid && is_identity (w.machine.identity (pid_of c)) e.identity)

  abbrev pub verified : Credentials → Resolved → Option Endpoint
  verified c (refused reason) = none
  verified c (live e) = if verify_peer c e then some e else none

  abbrev pub match_of : Credentials → Value → Option Endpoint
  match_of c peer = verified c (resolve_peer w.host w.machine none peer)

  -- The loop over all peers; a Claude peer of another process is not resolved.
  unfoldable pub candidates : Credentials → Fields → List (String × Endpoint)
  unfolding verify_peer
  candidates c end = []
  candidates c (field key peer rest) =
      let others = candidates c rest in
      if is_text (member peer "kind") "claude" && not (same_pid (member peer "pid") (pid_of c))
      then others
      else add_match key (match_of c peer) others

  -- The peer that a hint names, where it is enrolled.
  abbrev pub hinted_peer : Option String → Fields → Option (String × Value)
  hinted_peer none enrolled = none
  hinted_peer (some key) enrolled = elim (lookup key enrolled) [
    | none ↦ none
    | some p ↦ some (key, p)
  ]

  abbrev pub or_candidates :
      Credentials
      → Fields
      → String
      → Option Endpoint
      → Listener
      → List (String × Endpoint) × Listener
  or_candidates c enrolled key (some e) l = ((key, e) ∷ [], l)
  or_candidates c enrolled key none l =
      (candidates c enrolled, record l { hints = drop_hint c.pid l.hints })

  -- The matches of a process, and the hints that are left.
  unfoldable pub matches :
      Credentials
      → Fields
      → Option (String × Value)
      → Listener
      → List (String × Endpoint) × Listener
  unfolding candidates verify_peer
  matches c enrolled none l = (candidates c enrolled, l)
  matches c enrolled (some (key, peer)) l = or_candidates c enrolled key (match_of c peer) l

  abbrev pub add_client : ℕ → ℕ → ℕ → String → Endpoint → Listener → Listener
  add_client pid socket now key e l = record l {
    clients = join_lists l.clients (
        record {
          socket = socket;
          buffer = [];
          deadline = now + connection_ttl * w.second;
          key = key;
          endpoint = e;
        }
        ∷ []);
    hints = (pid, key) ∷ drop_hint pid l.hints;
  }

  -- Exactly one match is a client.
  unfoldable pub settle : ℕ → ℕ → ℕ → List (String × Endpoint) × Listener → Listener
  settle pid socket now ((key, e) ∷ [], l) = add_client pid socket now key e l
  settle pid socket now (_, l) = reject l

  unfoldable pub match_client : Value → Credentials → ℕ → ℕ → Listener → Listener
  unfolding matches settle
  match_client config c socket now l =
      let enrolled = all_peers w.host config in
      let fresh = refresh (w.dump (obj enrolled)) l in
      settle c.pid socket now
        (matches c enrolled (hinted_peer (hint_of c.pid fresh.hints) enrolled) fresh)

  -- The branch of `serve` for a new connection; `none` is an error of `peer_credentials`.
  unfoldable pub accept_client : Value → Option Credentials → ℕ → ℕ → Listener → Listener
  unfolding match_client
  accept_client config none socket now l = reject l
  accept_client config (some c) socket now l =
      if leb max_clients (length l.clients) || not (nat_eq c.uid w.own_uid)
      then reject l
      else match_client config c socket now l
