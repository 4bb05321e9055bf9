-- ===== src/Store/Rows.antt =====
-- The rows of the tables `messages`, `outgoing` and `message_timing`.
use peer_chat.Base.{
  ℕ, String, Bool, true, false, not, ◌&&◌, Option, List, [], ◌∷◌, if◌then◌else◌, ◌==◌, nat_eq, leb,
  any,
}

pub data Kind : Type 0 where
  message receipt : Kind

-- `receipted` is the status 'receipt', which a row of that kind has.
pub data Status : Type 0 where
  received held hook_offered consumed queued forwarding queue_failed queue_uncertain : Status
  receipted : Status

abbrev number : Status → ℕ
number received = 0
number held = 1
number hook_offered = 2
number consumed = 3
number queued = 4
number forwarding = 5
number queue_failed = 6
number queue_uncertain = 7
number receipted = 8

abbrev pub same_status : Status → Status → Bool
same_status a b = nat_eq (number a) (number b)

pub record Message : Type 0 where
  pub peer : String
  pub id : String
  pub kind : Kind
  pub body : String
  pub sender_mode : Option String
  pub hops : List String
  pub status : Status
  pub detail : String
  pub created : ℕ

pub data OutStatus : Type 0 where
  pending writing written uncertain : OutStatus
  peer_status : String → OutStatus

pub record Outgoing : Type 0 where
  pub id : String
  pub body : String
  pub status : OutStatus
  pub detail : String
  pub created : ℕ
  pub peer : Option String

pub record Timing : Type 0 where
  pub peer : String
  pub id : String
  pub stage : Status
  pub at : ℕ

-- `kind='message'`
abbrev pub is_message : Message → Bool
is_message m = elim m.kind [ message ↦ true | receipt ↦ false ]

abbrev pub is_receipt : Message → Bool
is_receipt m = not (is_message m)

abbrev pub is_status : Status → Message → Bool
is_status s m = same_status m.status s

-- `peer=? AND id=?`
abbrev pub has_key : String → String → Message → Bool
has_key peer id m = m.peer == peer && m.id == id

-- `INSERT OR IGNORE INTO message_timing`: its primary key is (peer, id, stage).
pub add_timing : Message → Status → ℕ → List Timing → List Timing
add_timing m stage now rows =
    if any (λ t. t.peer == m.peer && (t.id == m.id && same_status t.stage stage)) rows
    then rows
    else record { peer = m.peer; id = m.id; stage = stage; at = now } ∷ rows

-- The stages that the trigger records.
abbrev is_timed : Status → Bool
is_timed hook_offered = true
is_timed consumed = true
is_timed _ = false

-- The trigger `message_timing_transition`, run over the rows that an update touches.
unfoldable pub stamp : (Message → Bool) → Status → ℕ → List Message → List Timing → List Timing
unfolding add_timing
stamp test status now [] rows = rows
stamp test status now (m ∷ ms) rows =
    let fires =
      test m && (is_message m && (not (same_status status m.status) && is_timed status)) in
    stamp test status now ms (if fires then add_timing m status now rows else rows)

-- `ORDER BY created`, rows of one time in the order of insertion.
unfoldable pub place : Message → List Message → List Message
place m [] = m ∷ []
place m (x ∷ xs) = let rest = place m xs in if leb m.created x.created then m ∷ x ∷ xs else x ∷ rest

unfoldable pub by_created : List Message → List Message
unfolding place
by_created [] = []
by_created (m ∷ ms) = place m (by_created ms)
