-- ===== src/Examples/Clients.antt =====
-- A connection of an enrolled peer to the listener.
use peer_chat.Base.{
  ℕ, ◌≤◌, ◌<◌, ◌+◌, ◌*◌, ◌≡◌, refl, String, false, Option, none, some, List, [], ◌∷◌, All, length,
  map, arith,
}
use peer_chat.Base.Int.{pos}
use peer_chat.Base.Json.{Value, null, bool, int, truthy}
use peer_chat.Store.{Store, Status, Frame, get, put, accept, set_status}
use peer_chat.Listener.{Setting, Listener, Client, connection_ttl}
use peer_chat.Listener.Serve.{Event, arrives, receives, handle, turn, stale, started, start}
use peer_chat.Listener.Admitted.{Sound}
use peer_chat.Listener.Turns.{Turns, FromTurns, no_turn, then_turn, Turns-Sound}
use peer_chat.Listener.Rows.{rows_of, handle-rows_of}
use peer_chat.Listener.Lasting.{IsShort, IsBefore, limit, turn-lasting}
use peer_chat.Listener.Opening.{Settled, start-Settled}
use peer_chat.Examples.{empty, host, config}
use peer_chat.Examples.Endpoints.{machine}

abbrev setting : Setting
setting = record {
  host = host;
  machine = machine;
  own_uid = 1;
  is_word = λ c. false;
  parse = λ line. none;
  dump = λ v. "";
  second = 10;
}

abbrev idle : Listener
idle = record { store = put "config" config empty; clients = []; hints = []; snapshot = none }

abbrev arrivals : List Event
arrivals =
    arrives 3 (some (record { pid = 7; uid = 1 })) 20
    ∷ arrives 4 (some (record { pid = 8; uid = 1 })) 20
    ∷ []

abbrev connected : Listener
connected = turn setting arrivals 21 idle

one_client : map (λ c. c.key) connected.clients ≡ "c" ∷ []
unfolding turn peer_chat.Listener.accept_client peer_chat.Peers.all_peers peer_chat.Peers.table_of
    peer_chat.Base.Json.member peer_chat.Peers.collect peer_chat.Peers.normalise
    peer_chat.Peers.normalise_claude peer_chat.Base.Json.insert peer_chat.Peers.Resolve.resolve_peer
one_client = refl

one_rejected : get connected.store "rejected" null ≡ int (pos 1)
unfolding turn peer_chat.Listener.accept_client peer_chat.Peers.all_peers peer_chat.Peers.table_of
    peer_chat.Base.Json.member peer_chat.Peers.collect peer_chat.Peers.normalise
    peer_chat.Peers.normalise_claude peer_chat.Base.Json.insert peer_chat.Peers.Resolve.resolve_peer
one_rejected = refl

all_expired : length (turn setting [] 70 connected).clients ≡ 0
unfolding turn peer_chat.Listener.accept_client peer_chat.Peers.all_peers peer_chat.Peers.table_of
    peer_chat.Base.Json.member peer_chat.Peers.collect peer_chat.Peers.normalise
    peer_chat.Peers.normalise_claude peer_chat.Base.Json.insert peer_chat.Peers.Resolve.resolve_peer
all_expired = refl

abbrev one_turn : Turns idle connected
one_turn = then_turn {k = idle} no_turn setting arrivals 21

Turns-Sound_example : Sound (FromTurns one_turn) connected.clients
Turns-Sound_example = Turns-Sound one_turn refl

handle-rows_of_example :
    rows_of "other" (handle setting config (receives 3 (some (1 ∷ 10 ∷ [])) 22) connected).store
    ≡ rows_of "other" connected.store
unfolding turn peer_chat.Listener.accept_client peer_chat.Peers.all_peers peer_chat.Peers.table_of
    peer_chat.Base.Json.member peer_chat.Peers.collect peer_chat.Peers.normalise
    peer_chat.Peers.normalise_claude peer_chat.Base.Json.insert peer_chat.Peers.Resolve.resolve_peer
handle-rows_of_example =
    handle-rows_of setting "other" config (receives 3 (some (1 ∷ 10 ∷ [])) 22) connected refl

turn-lasting_example :
    All
      (λ c. (60 < c.deadline) × (c.deadline ≤ limit setting 60))
      (turn setting (receives 3 (some (1 ∷ 10 ∷ [])) 22 ∷ []) 60 connected).clients
unfolding IsShort IsBefore turn peer_chat.Listener.accept_client peer_chat.Peers.all_peers
    peer_chat.Peers.table_of peer_chat.Base.Json.member peer_chat.Peers.collect
    peer_chat.Peers.normalise peer_chat.Peers.normalise_claude peer_chat.Base.Json.insert
    peer_chat.Peers.Resolve.resolve_peer
turn-lasting_example =
    turn-lasting setting 60 (receives 3 (some (1 ∷ 10 ∷ [])) 22 ∷ []) connected (omega arith, tt)
      (tt, tt)

abbrev crashed : Store
crashed =
    set_status "c" "m" Status.forwarding "" 2
      (accept "c" (Frame.message "m" "hello" "prompting" []) 1 (put "config" config empty)).1

abbrev again : Listener
again = elim (start (int (pos 4)) "i" stale 3 crashed) [ started l ↦ l | _ ↦ idle ]

start-Settled_example :
    (truthy (get crashed "stop" (bool false)) ≡ false) × (again.clients ≡ []) × Settled again.store
unfolding start set_status accept
start-Settled_example = start-Settled (int (pos 4)) "i" stale 3 crashed again refl
