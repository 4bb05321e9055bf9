-- ===== src/Notices.antt =====
-- src/peer_delivery.py: what a sender is told of its message, and the notices of blocked messages. The
-- write of a notice is outside: its outcome is an argument, `none` where it was written, else the name
-- of the exception. `second` is the number of ticks in a second.
pub mod Once
use Prim.Native.String.{◌++◌}
use peer_chat.Base.{
  ℕ, ◌+◌, ◌*◌, String, Bool, true, false, not, ◌&&◌, ◌||◌, Option, none, some, List, [], ◌∷◌,
  ◌++◌ as join_lists, map, if◌then◌else◌, ◌==◌, leb, nat_eq, any, select, take, length,
}
use peer_chat.Base.Json.{
  Value, null, bool, int, real, str, arr, obj, Fields, end, field, Items, no_items, item, member,
  is_text, is_null, truthy, or_else,
}
use peer_chat.Store.{Store, get, put, Status, Message, by_created, is_message, is_status}

-- What `view` says of a bridge; without a saved one it is `unconfigured`.
pub record View : Type 0 where
  pub name : Option String
  pub runtime_state : String
  pub delivery_state : String
  pub reachable : Bool
  pub remaining : Value
  pub warning : Option String

abbrev pub view : Option View → View
view (some v) = v
view none = record {
  name = none;
  runtime_state = "unconfigured";
  delivery_state = "unconfigured";
  reachable = false;
  remaining = null;
  warning = some "Destination has no saved bridge; connect it before sending.";
}

-- `destination`: the view of a Codex peer, and for a Claude peer what is known of it.
abbrev pub destination : Value → Option View → View
destination peer saved = if is_text (member peer "kind") "codex" then view saved else record {
  name = (elim (member peer "name") [ str n ↦ some n | _ ↦ none ]);
  runtime_state = "";
  delivery_state = "native_unconfirmed";
  reachable = false;
  remaining = null;
  warning = some "Native socket write is not model receipt; await a reply or native receipt.";
}

-- The result of a send: the status and the detail of the row, and what is added to them.
pub record SendResult : Type 0 where
  pub status : String
  pub transport_status : String
  pub model_received : Bool
  pub delivery_state : Option String
  pub warning : Option String
  pub destination : View

abbrev shown_status : Bool → String → View → String
shown_status to_codex status d =
    if to_codex && status == "written"
    then if d.reachable then "sent_awaiting_model" else "retained_or_pending"
    else status

abbrev is_unsure : String → Bool
is_unsure status = status == "uncertain" || (status == "pending_or_uncertain" || status == "failed")

abbrev before_detail : Option String → String
before_detail none = ""
before_detail (some w) = if w == "" then "" else w ++ " "

abbrev or_advice : String → String
or_advice detail =
    if detail == "" then "Delivery unconfirmed; inspect status before retrying." else detail

-- `send_result`
unfoldable pub send_result : String → String → Value → Option View → SendResult
send_result status detail peer saved =
    let d = destination peer saved in
    let to_codex = is_text (member peer "kind") "codex" in
    let shown = shown_status to_codex status d in
    record {
      status = shown;
      transport_status = status;
      model_received = false;
      delivery_state = (if to_codex && status == "written" then some d.delivery_state else none);
      warning =
          (if is_unsure shown
            then some (before_detail d.warning ++ or_advice detail)
            else d.warning);
      destination = d;
    }

-- A notice as it is sent.
pub record Notice : Type 0 where
  pub peer : String
  pub state : String
  pub remaining : Value
  pub ids : List String
  pub held : List String
  pub warning : String

-- What a pass of `notify` reads once.
pub record Pass : Type 0 where
  pub current : View
  pub second : ℕ
  pub now : ℕ

abbrev is_held : Message → Bool
is_held m = is_status Status.held m

-- The rows that wait: held, or received by a bridge that is not reachable.
unfoldable pub waiting : Pass → String → Store → List Message
waiting p key s =
    let rows =
      select (λ m. m.peer == key && (is_message m && (is_status Status.received m || is_held m)))
        s.messages in
    select (λ m. is_held m || not p.current.reachable) (take 1000 (by_created rows))

abbrev pub mark_key : String → String → String
mark_key peer id = "notice_message:" ++ (peer ++ (":" ++ id))

-- A message of a peer was warned of.
abbrev pub is_warned : Store → String → String → Bool
is_warned s peer id = truthy (get s (mark_key peer id) null)

abbrev grace : ℕ
grace = 20

-- A row is due, if the startup of the hooks is over or cannot be what it waits for.
abbrev is_due : Pass → Message → Bool
is_due p m =
    is_held m
    || (not (p.current.delivery_state == "awaiting_lifecycle_hook")
        || leb (m.created + grace * p.second) p.now)

unfoldable pub eligible : Pass → String → Store → List Message
unfolding waiting
eligible p key s =
    take 20 (select (λ m. not (is_warned s key m.id) && is_due p m) (waiting p key s))

abbrev notice_state : Pass → List String → List String → String
notice_state p ids held =
    if nat_eq (length held) (length ids) then "held" else p.current.delivery_state

abbrev held_warning : String
held_warning =
    "Messages held by the hop/enrollment guard require explicit review; renewing an allowance cannot release them. Inspect recipient status --message-id ID. Do not automatically resend or reset the reply chain."

abbrev blocked_warning : Option String → String
blocked_warning none =
    "Message retained; model delivery is currently blocked. Inspect peer-chat status."
blocked_warning (some w) =
    if w == ""
    then "Message retained; model delivery is currently blocked. Inspect peer-chat status."
    else w

abbrev recovery_id : Value → Value
recovery_id recovery = member recovery "id"

-- `recovery.get('id') in prior.get('signature', [])`; an id is text.
unfoldable pub is_in : Value → Items → Bool
is_in v no_items = false
is_in v (item x rest) =
    (elim v [ str s ↦ is_text x s | null ↦ is_null x | _ ↦ false ]) || is_in v rest

abbrev items_of : Value → Items
items_of (arr xs) = xs
items_of _ = no_items

abbrev is_recovered : Value → Value → Bool
is_recovered recovery prior =
    truthy recovery
    && (not (truthy prior)
        || not (is_in (recovery_id recovery) (items_of (member prior "signature"))))

abbrev warning_of : Pass → List String → Bool → String
warning_of p held recovered =
    let text : String = elim held [
      | [] ↦ blocked_warning p.current.warning
      | h ∷ hs ↦ held_warning
    ] in
    if recovered then "Listener recovered after an unexpected exit. " ++ text else text

abbrev ids_of : List Message → List String
ids_of rows = map (λ m. m.id) rows

unfoldable pub notice_for : Pass → String → List Message → Store → Notice
unfolding is_in
notice_for p key rows s =
    let held = ids_of (select is_held rows) in
    record {
      peer = key;
      state = notice_state p (ids_of rows) held;
      remaining = p.current.remaining;
      ids = ids_of rows;
      held = held;
      warning =
          warning_of p held
            (is_recovered (get s "recovery_event" null) (get s ("notice:" ++ key) null));
    }

-- `signature`
abbrev signature_of : Pass → Value → Items
signature_of p recovery = item (str p.current.runtime_state) (
    item (str p.current.delivery_state)
      (if truthy recovery then item (recovery_id recovery) no_items else no_items))

abbrev pub record_of : Pass → Value → String → Value
record_of p recovery result = obj (
    field "signature" (arr (signature_of p recovery))
      (field "at" (real p.now) (field "result" (str result) end)))

abbrev pub mark_of : Pass → Message → Value
mark_of p m = obj (
    field "at" (real p.now) (
      field "attempted" (bool true) (
        field "state" (str (if is_held m then "held" else p.current.delivery_state))
          (field "remaining" p.current.remaining end))))

unfoldable pub mark_all : Pass → String → List Message → Store → Store
mark_all p key [] s = s
mark_all p key (m ∷ ms) s = mark_all p key ms (put (mark_key key m.id) (mark_of p m) s)

abbrev result_of : Option String → String
result_of none = "written"
result_of (some name) = "unconfirmed:" ++ name

-- One notice: it is recorded before it is written, and its outcome after.
unfoldable pub give_notice : (Notice → Option String) → Pass → String → List Message → Store → Store
unfolding mark_all notice_for
give_notice write p key rows s =
    let recovery = get s "recovery_event" null in
    let marked =
      mark_all p key rows (put ("notice:" ++ key) (record_of p recovery "attempting") s) in
    put ("notice:" ++ key) (record_of p recovery (result_of (write (notice_for p key rows s))))
      marked

-- The pass for one peer: the notices that it sent, and the store.
unfoldable pub notify_peer : (Notice → Option String) → Pass → String → Store → List Notice × Store
unfolding eligible give_notice notice_for
notify_peer write p key s = elim (eligible p key s) [
  | [] ↦ ([], s)
  | m ∷ ms ↦ (notice_for p key (m ∷ ms) s ∷ [], give_notice write p key (m ∷ ms) s)
]

-- The loop over the peers.
unfoldable pub notify_all :
    (Notice → Option String) → Pass → List String → Store → List Notice × Store
unfolding notify_peer
notify_all write p [] s = ([], s)
notify_all write p (key ∷ keys) s =
    let (sent, s') = notify_peer write p key s in
    let (later, s'') = notify_all write p keys s' in (join_lists sent later, s'')

abbrev pub keys_of : Fields → List String
keys_of end = []
keys_of (field key v rest) = key ∷ keys_of rest

-- `notify`, for the table of the peers; `own` says that this is the listener's process, and `none` is
-- the ValueError where it is not.
unfoldable pub notify :
    (Notice → Option String) → Pass → Bool → Fields → Store → Option (List Notice × Store)
unfolding notify_all
notify write p own peers s = if own then some (notify_all write p (keys_of peers) s) else none
