-- ===== src/Listener/Serve.antt =====
-- The loop of `serve` of src/peer_chat.py, its start, and the rounds of its worker.
use Prim.Native.String.{◌++◌}
use peer_chat.Base.{
  ℕ, String, Bool, false, not, ◌&&◌, ◌||◌, Option, none, some, List, [], ◌∷◌, if◌then◌else◌, leb,
  nat_eq, select, find, map, any, ◌++◌ as join_lists,
}
use peer_chat.Base.Int.{pos}
use peer_chat.Base.Json.{Value, null, bool, int, str, obj, end, field, member, truthy, is_text}
use peer_chat.Store.{Store, Status, Frame, get, put, accept, recover_rows, is_message, is_status}
use peer_chat.Frames.{feed}
use peer_chat.Frames.Decode.{decode_frame}
use peer_chat.Peers.Resolve.{is_identity}
use peer_chat.Listener.{Setting, Credentials, Client, Listener, reject, accept_client}

abbrev pub close_client : ℕ → Listener → Listener
close_client socket l = record l { clients = select (λ c. not (nat_eq c.socket socket)) l.clients }

abbrev pub with_buffer : ℕ → List ℕ → Client → Client
with_buffer socket rest c = if nat_eq c.socket socket then record c { buffer = rest } else c

abbrev pub keep_rest : ℕ → List ℕ → Listener → Listener
keep_rest socket rest l = record l { clients = map (with_buffer socket rest) l.clients }

-- An accepted frame goes to the store, under the key that the connection was matched to.
abbrev pub take_frame : String → ℕ → Option Frame → Listener → Listener
take_frame key now none l = reject l
take_frame key now (some f) l = record l { store = (accept key f now l.store).1 }

-- What `select` reports: a new connection at a time of the monotonic clock, or bytes of a client.
pub data Event : Type 0 where
  arrives : ℕ → Option Credentials → ℕ → Event
  receives : ℕ → Option (List ℕ) → ℕ → Event

-- What a round of the worker calls.
pub data Call : Type 0 where
  reconciles notifies dispatches : Call

module _ (w : Setting) where
  abbrev pub frame_of : Client → List ℕ → Option Frame
  frame_of c line = decode_frame w.is_word w.parse line ("uds:" ++ c.endpoint.socket)

  unfoldable pub take_lines : Client → ℕ → List (List ℕ) → Listener → Listener
  take_lines c now [] l = l
  take_lines c now (line ∷ lines) l =
      take_lines c now lines (take_frame c.key now (frame_of c line) l)

  abbrev pub take_fed : Client → ℕ → Option (List (List ℕ) × List ℕ) → Listener → Listener
  take_fed c now none l = close_client c.socket (reject l)
  take_fed c now (some (lines, rest)) l = take_lines c now lines (keep_rest c.socket rest l)

  -- The branch for a connected client: `none` is an OSError of `recv`, and no bytes are its end.
  unfoldable pub receive : Client → Option (List ℕ) → ℕ → Listener → Listener
  unfolding take_lines
  receive c none now l = close_client c.socket (reject l)
  receive c (some []) now l = close_client c.socket l
  receive c (some (b ∷ bs)) now l = take_fed c now (feed c.buffer (b ∷ bs)) l

  abbrev pub receive_at : Option Client → Option (List ℕ) → ℕ → Listener → Listener
  receive_at none data' now l = l
  receive_at (some c) data' now l = receive c data' now l

  unfoldable pub handle : Value → Event → Listener → Listener
  unfolding receive
  handle config (arrives socket c now) l = accept_client w config c socket now l
  handle config (receives socket bytes now) l =
      receive_at (find (λ c. nat_eq c.socket socket) l.clients) bytes now l

  unfoldable pub handle_all : Value → List Event → Listener → Listener
  unfolding handle
  handle_all config [] l = l
  handle_all config (e ∷ es) l = handle_all config es (handle config e l)

  abbrev pub expire : ℕ → Listener → Listener
  expire now l = record l { clients = select (λ c. not (leb c.deadline now)) l.clients }

  -- One turn of the loop, which ends at `now`.
  unfoldable pub turn : List Event → ℕ → Listener → Listener
  unfolding handle_all
  turn events now l = expire now (handle_all (get l.store "config" null) events l)

  abbrev is_owned : Value → Bool
  is_owned config =
      is_identity (w.machine.identity (member config "owner_pid")) (member config "owner_identity")

  -- The conditions of the loop, with the configuration of the turn before.
  unfoldable pub goes_on : Bool → Value → Listener → Bool
  goes_on stopping config l =
      not (stopping || truthy (get l.store "stop" (bool false)))
      && (is_owned config || truthy (member config "supervision"))

  abbrev has_received : Store → Bool
  has_received s = any (λ m. is_message m && is_status Status.received m) s.messages

  abbrev reconcile_calls : Bool → Store → List Call
  reconcile_calls owned s =
      let phase = get s "phase" null in
      if owned && ((is_text phase "active" || is_text phase "idle") && has_received s)
      then reconciles ∷ []
      else []

  -- A round of `worker`: what it calls, in this order, or none where it returns; `due` says that the
  -- time of the next notice has come.
  unfoldable pub worker_calls : Bool → Store → Option (List Call)
  worker_calls due s =
      let config = get s "config" null in
      let supervised = truthy (member config "supervision") in
      let owned = is_owned config in
      let before =
        (if supervised && due then join_lists (reconcile_calls owned s) (notifies ∷ []) else []) in
      if owned
      then some (join_lists before (dispatches ∷ []))
      else if not supervised
      then none
      else some before

-- The path of the endpoint before the start.
pub data EndpointPath : Type 0 where
  absent stale listening other : EndpointPath

pub data Start : Type 0 where
  stopped failed : Start
  started : Listener → Start

abbrev runtime_of : Value → String → Value → Value
runtime_of pid identity socket = obj (
    field "pid" pid (
      field "identity" (str identity)
        (field "socket" socket (field "protocol_version" (int (pos 6)) end))))

-- The writes of the start.
unfoldable pub open_store : Value → String → Value → ℕ → Store → Store
open_store pid identity socket now s = put "worker_error" null (
    put "rejected" (int (pos 0)) (
      put "runtime" (runtime_of pid identity socket)
        (put "stop" (bool false) (recover_rows now s))))

-- The start of `serve`, for a process that holds the lock.
unfoldable pub start : Value → String → EndpointPath → ℕ → Store → Start
unfolding open_store
start pid identity path now s =
    let config = get s "config" null in
    if truthy (get s "stop" (bool false))
    then stopped
    else if not (truthy config)
    then failed
    else (elim path [
      | listening ↦ failed
      | other ↦ failed
      | _ ↦ started (record {
        store = open_store pid identity (member config "socket") now s;
        clients = [];
        hints = [];
        snapshot = none;
      })
    ])

-- The end of `serve`.
unfoldable pub shut : Listener → Store
shut l = put "runtime" null l.store
