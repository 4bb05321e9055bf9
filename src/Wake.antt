-- ===== src/Wake.antt =====
-- src/peer_wake.py: the evidence of an idle wake, in the keys `wake_pending`, `last_wake` and
-- `wake_counts`. A record is a JSON object, as in the source; times are whole ticks of the clock.
pub mod Events
pub mod Rank
pub mod Decide
pub mod Frame
use peer_chat.Base.{
  ℕ, ◌+◌, String, Bool, true, false, not, ◌&&◌, ◌||◌, Option, none, some, if◌then◌else◌, ◌==◌, ltb,
  nat_eq, max, is_some,
}
use peer_chat.Base.Int.{ℤ, pos, negsuc}
use peer_chat.Base.Json.{
  Value, null, int, real, str, obj, Fields, end, field, insert, member, is_obj, is_text, is_str,
  is_null, truthy,
}
use peer_chat.Base.Text.{strip, matches_uuid}
use peer_chat.Store.{Store, get, put, delete}

-- The keys of RANK.
pub data WakeState : Type 0 where
  writing queued failed uncertain activated raced cancelled : WakeState

abbrev pub name : WakeState → String
name WakeState.writing = "writing"
name WakeState.queued = "queued"
name WakeState.failed = "failed"
name WakeState.uncertain = "uncertain"
name WakeState.activated = "activated"
name WakeState.raced = "raced"
name WakeState.cancelled = "cancelled"

-- RANK, shifted by one, so that 0 is the -1 of `RANK.get(state, -1)`.
abbrev pub rank : WakeState → ℕ
rank WakeState.writing = 1
rank WakeState.queued = 2
rank WakeState.failed = 2
rank WakeState.uncertain = 2
rank WakeState.activated = 3
rank WakeState.raced = 3
rank WakeState.cancelled = 3

abbrev pub rank_of : Value → ℕ
rank_of v =
    if is_text v "writing"
    then 1
    else if is_text v "queued" || (is_text v "failed" || is_text v "uncertain")
    then 2
    else if is_text v "activated" || (is_text v "raced" || is_text v "cancelled")
    then 3
    else 0

-- `state in COUNTED`, and `state in PENDING_STATES`
abbrev pub is_counted : WakeState → Bool
is_counted WakeState.writing = false
is_counted WakeState.queued = false
is_counted _ = true

abbrev pub is_pending : WakeState → Bool
is_pending WakeState.writing = true
is_pending WakeState.queued = true
is_pending WakeState.failed = true
is_pending WakeState.uncertain = true
is_pending _ = false

-- `_valid_id`
unfoldable pub valid_id : Value → Bool
unfolding matches_uuid
valid_id (str s) = matches_uuid s
valid_id _ = false

-- `_get`: a stored null counts as missing.
abbrev pub get_or : Store → String → Value → Value
get_or s key default = let v = get s key null in if is_null v then default else v

-- `_counts`: a count that is no whole number of zero or more is read as 0.
abbrev pub count_of : Value → String → ℕ
count_of raw key = elim (member raw key) [ int n ↦ (elim n [ pos k ↦ k | negsuc k ↦ 0 ]) | _ ↦ 0 ]

abbrev count_field : Value → String → Fields → Fields
count_field raw key rest = field key (int (pos (count_of raw key))) rest

unfoldable pub counts : Store → Fields
counts s =
    let raw = get_or s "wake_counts" (obj end) in
    count_field raw "activated" (
      count_field raw "raced"
        (count_field raw "cancelled" (count_field raw "failed" (count_field raw "uncertain" end))))

-- `counts[state] += 1`
abbrev increment : String → Fields → Fields
increment key c = insert key (int (pos (count_of (obj c) key + 1))) c

-- `_bump`
unfoldable pub bump : WakeState → Store → Store
unfolding counts
bump state s =
    if is_counted state then put "wake_counts" (obj (increment (name state) (counts s))) s else s

-- The optional arguments of `_record`.
pub record Evidence : Type 0 where
  pub queue_id : Option String
  pub event : Option String
  pub turn : Option String
  pub detail : String

abbrev pub or_null : Option String → Value
or_null none = null
or_null (some s) = str s

abbrev pub seconds : Value → ℕ
seconds (real n) = n
seconds (int (pos n)) = n
seconds _ = 0

-- `if x is not None: record[key] = x`
abbrev pub insert_some : String → Option String → Fields → Fields
insert_some key none d = d
insert_some key (some x) d = insert key (str x) d

-- `if queue_id and not record.get("queue_id")`: an id that is known is not replaced.
abbrev pub backfills : Evidence → Fields → Bool
backfills e d =
    elim e.queue_id [ none ↦ false | some q ↦ not (q == "") ]
    && not (truthy (member (obj d) "queue_id"))

abbrev pub backfill : Evidence → Fields → Fields
backfill e d = if backfills e d then insert_some "queue_id" e.queue_id d else d

-- The record of a wake that goes on, and that of a new one.
abbrev pub timed : WakeState → ℕ → Fields → Fields
timed state now d =
    insert "at" (real (max (seconds (member (obj d) "at")) now))
      (insert "state" (str (name state)) d)

abbrev pub finish : Evidence → Fields → Fields
finish e d =
    let evented = insert_some "turn" e.turn (insert_some "event" e.event (backfill e d)) in
    if e.detail == "" then evented else insert "detail" (str e.detail) evented

abbrev pub advance : WakeState → Evidence → ℕ → Fields → Fields
advance state e now d = finish e (timed state now d)

abbrev pub fresh : String → WakeState → Evidence → ℕ → Fields
fresh wake state e now = field "id" (str wake) (
    field "queue_id" (or_null e.queue_id) (
      field "state" (str (name state)) (
        field "at" (real now) (
          field "event" (or_null e.event)
            (field "turn" (or_null e.turn) (field "detail" (str e.detail) end))))))

-- The end of `_record`: the record is stored, and `wake_pending` is set or cleared with it.
abbrev pub mark : String → WakeState → Fields → Store → Store
mark wake state d s =
    let stored = put "last_wake" (obj d) s in
    let queue = member (obj d) "queue_id" in
    let marker = field "id" (str wake) (
      field "status" (str (name state)) (
        field "at" (member (obj d) "at")
          (if truthy queue then field "queue_id" queue end else end))) in
    if is_pending state
    then put "wake_pending" (obj marker) stored
    else delete "wake_pending" stored

-- `new_rank < current_rank or (new_rank == current_rank and current_rank == 2)`
abbrev pub refuses : WakeState → Fields → Bool
refuses state d =
    let current = rank_of (member (obj d) "state") in
    ltb (rank state) current || (nat_eq (rank state) current && nat_eq current 3)

-- A refused transition may only fill in the queue id.
pub refuse : Evidence → Fields → Store → Fields × Store
refuse e d s = (backfill e d, if backfills e d then put "last_wake" (obj (backfill e d)) s else s)

pub proceed : String → WakeState → Evidence → ℕ → Fields → Store → Fields × Store
proceed wake state e now d s =
    let d' = advance state e now d in
    let s' = if ltb (rank_of (member (obj d) "state")) (rank state) then bump state s else s in
    (d', mark wake state d' s')

pub transition : String → WakeState → Evidence → ℕ → Fields → Store → Fields × Store
transition wake state e now d s =
    if refuses state d then refuse e d s else proceed wake state e now d s

-- `isinstance(last, dict) and last.get("id") == wake_id`
abbrev pub is_wake : String → Value → Bool
is_wake wake last = is_obj last && is_text (member last "id") wake

pub begin : String → WakeState → Evidence → ℕ → Store → Fields × Store
begin wake state e now s = let d = fresh wake state e now in (d, mark wake state d (bump state s))

-- `_record`
unfoldable pub record_state : String → WakeState → Evidence → ℕ → Store → Fields × Store
unfolding begin transition refuse proceed bump
record_state wake state e now s = elim (get_or s "last_wake" null) [
  | obj d ↦
      if is_text (member (obj d) "id") wake
      then transition wake state e now d s
      else begin wake state e now s
  | _ ↦ begin wake state e now s
]

-- `_pending`
unfoldable pub pending : Store → Option Value
unfolding valid_id
pending s =
    let v = get_or s "wake_pending" null in
    if is_obj v && valid_id (member v "id") then some v else none
