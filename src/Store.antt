-- ===== src/Store.antt =====
-- The bridge's database: class Store of src/peer_chat.py, its tables as records and lists of rows.
-- Each transaction is one function on the store; `now` is what the clock shows in it. Python's
-- hop lists are kept decoded, and so are the values of the table `meta`.
mod Rows
pub mod Progress
pub mod Keys
pub mod Accept
pub mod Unique
pub mod Sound
use Prim.Native.String.{◌++◌ as text_append}
pub use Rows.{Kind, Status, OutStatus, Message, Outgoing, Timing}
unfoldable pub use Rows.{stamp, by_created}
pub use Rows.{same_status, is_status, is_message, is_receipt, has_key}
use peer_chat.Base.{
  ℕ, String, Bool, true, false, not, ◌&&◌, ◌||◌, Option, none, some, List, [], ◌∷◌, ◌++◌, map,
  if◌then◌else◌, ◌==◌, any, select, find, is_some,
}
use peer_chat.Base.Json.{
  Value, null, str, real, obj, Fields, end, field, insert, member, truthy, is_text,
}

pub record Store : Type 0 where
  pub meta : String → Option Value
  pub messages : List Message
  pub outgoing : List Outgoing
  pub timing : List Timing

-- `Store.get`
abbrev pub get : Store → String → Value → Value
get s key default = elim (s.meta key) [ none ↦ default | some v ↦ v ]

-- `INSERT OR REPLACE INTO meta`
abbrev pub put : String → Value → Store → Store
put key value s = record s { meta = λ k. if key == k then some value else s.meta k }

-- `DELETE FROM meta WHERE key=?`
abbrev pub delete : String → Store → Store
delete key s = record s { meta = λ k. if key == k then none else s.meta k }

-- `UPDATE meta SET value=? WHERE key=?` writes nothing where the key is missing.
abbrev pub update_meta : String → Value → Store → Store
update_meta key value s = if is_some (s.meta key) then put key value s else s

abbrev pub set_row : (Message → Bool) → Status → String → Message → Message
set_row test status detail m = if test m then record m { status = status; detail = detail } else m

-- `UPDATE messages SET status=?,detail=? WHERE ...`, and the trigger that it fires.
unfoldable pub update_messages : (Message → Bool) → Status → String → ℕ → Store → Store
update_messages test status detail now s = record s {
  messages = map (set_row test status detail) s.messages;
  timing = stamp test status now s.messages s.timing;
}

-- What `decode_frame` returns for an accepted frame.
pub data Frame : Type 0 where
  notice : String → String → Value → Frame
  receipt : String → String → Frame
  message : String → String → String → List String → Frame

abbrev fields_of : Value → Fields
fields_of (obj d) = d
fields_of _ = end

-- `store_notice`: the latest notice of each peer, with the time of its arrival.
unfoldable pub store_notice : String → String → String → Value → ℕ → Store → Store
store_notice peer state warning remaining now s =
    let entry = field "at" (real now) (
      field "state" (str state)
        (field "remaining" remaining (field "warning" (str warning) end))) in
    let notices = fields_of (get s "peer_notices" (obj end)) in
    put "peer_notices" (obj (insert peer (obj entry) notices)) s

-- The row of a frame: `INSERT INTO messages VALUES (...)`
abbrev pub new_message : String → String → String → String → List String → ℕ → Message
new_message peer id body mode hops now = record {
  peer = peer;
  id = id;
  kind = Kind.message;
  body = body;
  sender_mode = some mode;
  hops = hops;
  status = Status.received;
  detail = "";
  created = now;
}

abbrev pub new_receipt : String → String → String → ℕ → Message
new_receipt peer id body now = record {
  peer = peer;
  id = id;
  kind = Kind.receipt;
  body = body;
  sender_mode = none;
  hops = [];
  status = Status.receipted;
  detail = "";
  created = now;
}

-- `not config or peer_key == config.get("peer", {}).get("identity")`: who a row of `outgoing`
-- without a peer belongs to.
abbrev is_legacy_peer : Store → String → Bool
is_legacy_peer s peer =
    let config = get s "config" null in
    not (truthy config) || is_text (member (member config "peer") "identity") peer

abbrev pub settle : Store → String → String → String → Outgoing → Outgoing
settle s peer id body o =
    let mine : Bool = elim o.peer [ none ↦ is_legacy_peer s peer | some p ↦ p == peer ] in
    if o.id == id && mine
    then record o {
      status = OutStatus.peer_status body;
      detail = text_append "Peer receipt: " body;
    }
    else o

abbrev pub same_body : String → Message → Bool
same_body body m = m.body == body

unfoldable pub accept_receipt : String → String → String → ℕ → Store → Bool × Store
accept_receipt peer id body now s =
    let key = λ (m : Message). is_receipt m && has_key peer id m in
    if any (λ m. key m && same_body body m) s.messages then (false, s) else (
      true,
      record s {
        messages = select (λ m. not (key m)) s.messages ++ new_receipt peer id body now ∷ [];
        outgoing = map (settle s peer id body) s.outgoing;
      },
    )

unfoldable pub accept_message :
    String → String → String → String → List String → ℕ → Store → Bool × Store
accept_message peer id body mode hops now s =
    if any (λ m. is_message m && has_key peer id m) s.messages
    then (false, s)
    else (true, record s { messages = s.messages ++ new_message peer id body mode hops now ∷ [] })

-- `Store.accept`
unfoldable pub accept : String → Frame → ℕ → Store → Bool × Store
unfolding accept_receipt accept_message store_notice
accept peer (Frame.notice state warning remaining) now s =
    (true, store_notice peer state warning remaining now s)
accept peer (Frame.receipt id body) now s = accept_receipt peer id body now s
accept peer (Frame.message id body mode hops) now s = accept_message peer id body mode hops now s

abbrev pub ack_detail : String
ack_detail = "Acknowledged by receiving session"

abbrev pub hook_pending_detail : String
hook_pending_detail = "Returned by hook; model acknowledgement pending"

-- `message_record`
unfoldable pub message_record : Message → Message
message_record m =
    if is_status Status.consumed m && m.detail == hook_pending_detail
    then record m { detail = ack_detail }
    else m

-- `Store.clear_consumed_wake`
unfoldable pub clear_consumed_wake : Store → Store
clear_consumed_wake s =
    let wake = get s "wake_pending" null in
    let woken = λ (m : Message).
      is_text (member wake "id") m.id && (is_message m && is_status Status.consumed m) in
    if truthy wake && any woken s.messages then delete "wake_pending" s else s

-- `status IN ('received','queued','hook_offered')`
abbrev pub is_open : Message → Bool
is_open m =
    is_status Status.received m || is_status Status.queued m || is_status Status.hook_offered m

-- `Store.read`, which returns what it shows, and with `ack` consumes it.
unfoldable pub read : Bool → ℕ → Store → List Message × Store
unfolding message_record update_messages clear_consumed_wake
read ack now s =
    let rows = map message_record (by_created (select is_message s.messages)) in
    if ack
    then (
      map (set_row is_open Status.consumed ack_detail) rows,
      clear_consumed_wake
          (update_messages (λ m. is_message m && is_open m) Status.consumed ack_detail now s),
    )
    else (rows, s)

-- `Store.pending`
unfoldable pub pending : Store → List Message
pending s = by_created (select (λ m. is_message m && is_status Status.received m) s.messages)

-- `Store.set_status`, which never takes a consumed row back.
unfoldable pub set_status : String → String → Status → String → ℕ → Store → Store
unfolding update_messages
set_status peer id status detail now s =
    let to_consumed = same_status status Status.consumed in
    let text = if to_consumed && detail == "" then ack_detail else detail in
    update_messages
      (λ m.
        has_key peer id m && (is_message m && (not (is_status Status.consumed m) || to_consumed)))
      status text now s

-- `ack ID`: the row of one peer is consumed whatever its status was.
unfoldable pub ack_one : String → String → ℕ → Store → Store
unfolding update_messages clear_consumed_wake
ack_one peer id now s =
    clear_consumed_wake
      (update_messages (λ m. has_key peer id m && is_message m) Status.consumed ack_detail now s)

-- `read --from PEER --ack`
unfoldable pub ack_peer : String → ℕ → Store → Store
unfolding update_messages clear_consumed_wake
ack_peer peer now s = clear_consumed_wake (
    update_messages (λ m. m.peer == peer && (is_message m && is_open m)) Status.consumed ack_detail
      now s)

abbrev pub interrupt_write : Outgoing → Outgoing
interrupt_write o = elim o.status [
  | OutStatus.writing ↦ record o {
    status = OutStatus.uncertain;
    detail = "Bridge restarted during write";
  }
  | _ ↦ o
]

-- What `serve` does to the rows that a crashed listener left in flight.
unfoldable pub recover_rows : ℕ → Store → Store
unfolding update_messages
recover_rows now s =
    let s' =
      update_messages (is_status Status.forwarding) Status.queue_uncertain
        "Bridge restarted during forwarding; no automatic retry" now s in
    record s' { outgoing = map interrupt_write s'.outgoing }
