-- ===== src/Observe/Recipients.antt =====
-- `message_status` of src/peer_observe.py: what a sender is shown of the messages in a saved bridge.
use Prim.Native.String.{compare as compare_texts}
use Prim.Native.Nat.{Ordering, ◌/◌}
use peer_chat.Base.{
  ℕ, ◌-◌, String, Bool, true, false, not, ◌&&◌, ◌||◌, Option, none, some, List, [], ◌∷◌, map,
  if◌then◌else◌, ◌==◌, ltb, nat_eq, select, find, take, length, is_some,
}
use peer_chat.Base.Json.{Value, null, obj, end, member, is_text}
use peer_chat.Base.Text.{is_uuid}
use peer_chat.Store.{Store, get, Status, Message, Timing, is_message, is_status, same_status}
use peer_chat.Observe.Shown.{Row, PeerRow, key_short}

-- One record; no body.
pub record Recipient : Type 0 where
  pub peer : String
  pub peer_short : String
  pub peer_name : Value
  pub id : String
  pub status : Status
  pub hold_reason : Option String
  pub acknowledged : Bool
  pub created_at : ℕ
  pub age : ℕ
  pub hook_offered_at : Option ℕ
  pub acknowledged_at : Option ℕ
  pub last_wake_state : Value

-- `hold_reason`, of the detail.
abbrev reason_of : String → String
reason_of detail =
    if detail == "Hop limit reached" || detail == "Hop limit reached; available through read"
    then "hop_limit"
    else if detail == "Peer no longer enrolled"
        || detail == "Message belongs to a previously enrolled peer"
    then "peer_not_enrolled"
    else "held"

-- `ORDER BY created DESC,peer`
abbrev newer : Message → Message → Bool
newer a b =
    ltb b.created a.created
    || (nat_eq a.created b.created
        && (elim (compare_texts a.peer b.peer) [ Ordering.gt ↦ false | _ ↦ true ]))

unfoldable pub place_newest : Message → List Message → List Message
place_newest m [] = m ∷ []
place_newest m (x ∷ xs) = let rest = place_newest m xs in if newer m x then m ∷ x ∷ xs else x ∷ rest

unfoldable pub newest_first : List Message → List Message
unfolding place_newest
newest_first [] = []
newest_first (m ∷ ms) = place_newest m (newest_first ms)

abbrev is_wanted : Option String → Message → Bool
is_wanted none m = is_message m
is_wanted (some id) m = is_message m && m.id == id

-- The time of a stage.
abbrev stage_at : List Timing → Message → Status → Option ℕ
stage_at rows m stage =
    elim (find (λ t. t.peer == m.peer && (t.id == m.id && same_status t.stage stage)) rows) [
      | none ↦ none
      | some t ↦ some t.at
    ]

-- `names.get(peer)`; of two peers with one key the last counts.
unfoldable pub name_of : List PeerRow → String → Value → Value
name_of [] key found = found
name_of (p ∷ rest) key found = name_of rest key (if p.key == key then p.name else found)

-- The last wake was of this message, and no other has its id.
abbrev is_woken : Store → Value → Message → Bool
is_woken s wake m =
    is_text (member wake "id") m.id
    && nat_eq (length (select (λ x. is_message x && x.id == m.id) s.messages)) 1

unfoldable pub recipient : ℕ → ℕ → Row → Store → Message → Recipient
unfolding name_of key_short
recipient second now observed s m =
    let wake = get s "last_wake" (obj end) in
    record {
      peer = m.peer;
      peer_short = key_short m.peer;
      peer_name = name_of observed.peers m.peer null;
      id = m.id;
      status = m.status;
      hold_reason = (if is_status Status.held m then some (reason_of m.detail) else none);
      acknowledged = is_status Status.consumed m;
      created_at = m.created;
      age = (now - m.created) / second;
      hook_offered_at = stage_at s.timing m Status.hook_offered;
      acknowledged_at = stage_at s.timing m Status.consumed;
      last_wake_state = (if is_woken s wake m then member wake "state" else null);
    }

pub record Report : Type 0 where
  pub messages : List Recipient
  pub more : Bool

abbrev report : ℕ → ℕ → Row → Store → List Message → Report
report second now observed s records = record {
  messages = map (recipient second now observed s) (take 20 records);
  more = ltb 20 (length records);
}

abbrev is_valid : Option String → Bool
is_valid none = true
is_valid (some id) = is_uuid id

-- `message_status`, for the row of the bridge and its store; `none` is a ValueError.
unfoldable pub message_status : ℕ → ℕ → Option Row → Store → Option String → Option Report
unfolding newest_first recipient
message_status second now none s id = none
message_status second now (some observed) s id =
    if is_some observed.error || not (is_valid id)
    then none
    else some
        (report second now observed s (take 21 (newest_first (select (is_wanted id) s.messages))))
