-- ===== src/Observe/Counts.antt =====
-- `_read_db` of src/peer_observe.py: the counts over the tables, and the keys that are read.
use Prim.Native.String.{◌++◌ as text_append}
use text.Mathlib.Text.{starts_with}
use peer_chat.Base.{
  ℕ, ◌+◌, ◌-◌, String, Bool, true, false, not, ◌&&◌, Option, none, some, List, [], ◌∷◌,
  if◌then◌else◌, ◌==◌, any, select, length, nat_eq, leb, min, max,
}
use peer_chat.Base.Json.{Value, null, str, member}
use peer_chat.Store.{
  Store, get, Status, OutStatus, Message, Outgoing, Timing, is_status, is_message, same_status,
}

abbrev meta_keys : List String
meta_keys =
    "config" ∷ "runtime" ∷ "delivery" ∷ "remaining" ∷ "wake_remaining" ∷ "budget_limit" ∷ "phase"
    ∷ "hook_seen" ∷ "hook_rejected" ∷ "stop" ∷ "worker_error" ∷ "restore_error" ∷ "wake_pending"
    ∷ "last_wake" ∷ "default_peer" ∷ "watch" ∷ "lifecycle_reconciled" ∷ []

-- `meta.get(key)`: the values under the keys that are read.
unfoldable pub read_meta : Store → String → Value
read_meta s key = if any (λ k. k == key) meta_keys then get s key null else null

-- In the order in which the groups come, by the names of the statuses.
abbrev pub statuses : List Status
statuses =
    Status.consumed ∷ Status.forwarding ∷ Status.held ∷ Status.hook_offered ∷ Status.queue_failed
    ∷ Status.queue_uncertain ∷ Status.queued ∷ Status.receipted ∷ Status.received ∷ []

-- `count(*)` of a status, over the rows with `kind='message'`.
unfoldable pub count_status : Status → List Message → ℕ
count_status status [] = 0
count_status status (m ∷ ms) =
    let rest = count_status status ms in
    if is_message m && is_status status m then 1 + rest else rest

-- The groups that have a row.
unfoldable pub groups_of : List Status → List Message → List (Status × ℕ)
unfolding count_status
groups_of [] ms = []
groups_of (status ∷ rest) ms =
    let others = groups_of rest ms in
    let count = count_status status ms in
    if nat_eq count 0 then others else (status, count) ∷ others

-- `pending`: `SELECT status, count(*) ... GROUP BY status`
unfoldable pub pending_groups : Store → List (Status × ℕ)
unfolding groups_of
pending_groups s = groups_of statuses s.messages

abbrev pub is_consumed : Status × ℕ → Bool
is_consumed (status, count) = same_status status Status.consumed

-- `pending_by_status`
abbrev pub unconsumed : List (Status × ℕ) → List (Status × ℕ)
unconsumed groups = select (λ g. not (is_consumed g)) groups

-- `sum(pending.values())`
unfoldable pub total : List (Status × ℕ) → ℕ
total [] = 0
total ((status, count) ∷ rest) = count + total rest

-- `pending.get(status, 0)`
unfoldable pub group_count : Status → List (Status × ℕ) → ℕ
group_count status [] = 0
group_count status ((other, count) ∷ rest) =
    let later = group_count status rest in if same_status other status then count else later

-- `min(created)` over the rows of a status.
unfoldable pub oldest : Status → List Message → Option ℕ
oldest status [] = none
oldest status (m ∷ ms) =
    let rest = oldest status ms in
    if is_message m && is_status status m
    then some (elim rest [ none ↦ m.created | some t ↦ min m.created t ])
    else rest

-- `_pending_since`: by status, for those that are not consumed.
unfoldable pub pending_since : List Status → List Message → List (Status × ℕ)
unfolding oldest
pending_since [] ms = []
pending_since (status ∷ rest) ms =
    let others = pending_since rest ms in
    if same_status status Status.consumed
    then others
    else elim (oldest status ms) [ none ↦ others | some t ↦ (status, t) ∷ others ]

-- The samples of a stage: their number, their sum, of which the source shows the mean, and the greatest.
pub record Samples : Type 0 where
  pub samples : ℕ
  pub sum : ℕ
  pub maximum : Option ℕ

abbrev pub no_samples : Samples
no_samples = record { samples = 0; sum = 0; maximum = none }

abbrev pub add_sample : ℕ → Samples → Samples
add_sample wait s = record {
  samples = 1 + s.samples;
  sum = wait + s.sum;
  maximum = some (elim s.maximum [ none ↦ wait | some t ↦ max wait t ]);
}

-- `m.peer=t.peer AND m.id=t.id AND m.kind='message'`
abbrev pub joins : Timing → Message → Bool
joins t m = m.peer == t.peer && (m.id == t.id && is_message m)

-- The rows of the join for one row of `message_timing`, with `t.at>=m.created`.
unfoldable pub join_timing : Timing → List Message → Samples → Samples
join_timing t [] s = s
join_timing t (m ∷ ms) s =
    let rest = join_timing t ms s in
    if joins t m && leb m.created t.at then add_sample (t.at - m.created) rest else rest

-- `EXISTS (... h.stage='hook_offered' AND h.at<=t.at)`
abbrev pub has_hook : List Timing → Timing → Bool
has_hook rows t =
    any
      (λ h.
        h.peer == t.peer
        && (h.id == t.id && (same_status h.stage Status.hook_offered && leb h.at t.at)))
      rows

unfoldable pub sample_all : (Timing → Bool) → List Timing → List Message → Samples
unfolding join_timing
sample_all test [] ms = no_samples
sample_all test (t ∷ ts) ms =
    let rest = sample_all test ts ms in if test t then join_timing t ms rest else rest

-- `timing`; the four fields of the source, in its order.
pub record Timings : Type 0 where
  pub to_hook : Samples
  pub to_ack : Samples
  pub to_ack_after_hook : Samples
  pub to_ack_without_hook : Samples

abbrev pub at_stage : Status → Timing → Bool
at_stage stage t = same_status t.stage stage

unfoldable pub read_timings : Store → Timings
unfolding sample_all
read_timings s = record {
  to_hook = sample_all (at_stage Status.hook_offered) s.timing s.messages;
  to_ack = sample_all (at_stage Status.consumed) s.timing s.messages;
  to_ack_after_hook =
      sample_all (λ t. at_stage Status.consumed t && has_hook s.timing t) s.timing s.messages;
  to_ack_without_hook =
      sample_all (λ t. at_stage Status.consumed t && not (has_hook s.timing t)) s.timing s.messages;
}

abbrev is_open_write : Outgoing → Bool
is_open_write o = elim o.status [
  | OutStatus.pending ↦ true
  | OutStatus.writing ↦ true
  | OutStatus.uncertain ↦ true
  | OutStatus.written ↦ false
  | OutStatus.peer_status _ ↦ false
]

-- `outgoing_uncertain`
unfoldable pub open_writes : Store → ℕ
open_writes s = length (select is_open_write s.outgoing)

-- `_notice_failures`, of the keys `notice:<peer>` of the table `meta`, which are an argument.
pub record Failure : Type 0 where
  pub peer : String
  pub at : Value
  pub result : String

abbrev is_unconfirmed : Value → Option String
is_unconfirmed (str result) = if starts_with result "unconfirmed:" then some result else none
is_unconfirmed _ = none

unfoldable pub notice_failures : List String → Store → List Failure
notice_failures [] s = []
notice_failures (peer ∷ rest) s =
    let others = notice_failures rest s in
    let notice = get s (text_append "notice:" peer) null in
    elim (is_unconfirmed (member notice "result")) [
      | none ↦ others
      | some result ↦ record { peer = peer; at = member notice "at"; result = result } ∷ others
    ]
