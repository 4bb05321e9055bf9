-- ===== src/Observe/Totals.antt =====
-- The counts of src/peer_observe.py against the rows of the store.
use peer_chat.Base.{
  ℕ, String, ◌+◌, ◌≡◌, refl, Bool, true, not, ◌&&◌, some, List, [], ◌∷◌, arith, if◌then◌else◌,
  select, length, any, Bool-cases, inl, inr, ap, ◌∙◌,
}
use peer_chat.Store.{Store, Status, Message, Timing, is_status, is_message, same_status}
use peer_chat.Observe.Snapshot.{Context, readable_row}
use peer_chat.Observe.Counts.{
  statuses, count_status, groups_of, pending_groups, unconsumed, total, group_count, Samples,
  join_timing, has_hook, sample_all, at_stage, read_timings,
}

-- The rows of a list of statuses.
sum_of : List Status → List Message → ℕ
sum_of [] ms = 0
sum_of (s ∷ rest) ms = count_status s ms + sum_of rest ms

total-groups_of : (l : List Status) (ms : List Message) → total (groups_of l ms) ≡ sum_of l ms
unfolding total groups_of sum_of
total-groups_of [] ms = refl
total-groups_of (s ∷ rest) ms = ground (arith, total-groups_of rest ms)

hits : Status → List Status → ℕ
hits status [] = 0
hits status (s ∷ rest) = (if same_status status s then 1 else 0) + hits status rest

hits-statuses : (status : Status) → hits status statuses ≡ 1
unfolding hits
hits-statuses Status.received = refl
hits-statuses status = refl

sum_of-cons :
    (l : List Status) (m : Message) (ms : List Message)
    → sum_of l (m ∷ ms) ≡ (if is_message m then hits m.status l else 0) + sum_of l ms
unfolding sum_of hits count_status
sum_of-cons [] m ms = ground arith
sum_of-cons (s ∷ rest) m ms = ground (arith, sum_of-cons rest m ms)

sum_of-nil : sum_of statuses [] ≡ 0
unfolding sum_of count_status
sum_of-nil = refl

-- Every row has exactly one of the statuses.
sum_of-statuses : (ms : List Message) → sum_of statuses ms ≡ length (select is_message ms)
sum_of-statuses [] = sum_of-nil
sum_of-statuses (m ∷ ms) =
    ground (arith, sum_of-cons statuses m ms, sum_of-statuses ms, hits-statuses m.status)

unconsumed-groups :
    (l : List Status) (ms : List Message)
    → total (unconsumed (groups_of l ms))
      ≡ sum_of (select (λ s. not (same_status s Status.consumed)) l) ms
unfolding total groups_of sum_of
unconsumed-groups [] ms = refl
unconsumed-groups (s ∷ rest) ms = ground (arith, unconsumed-groups rest ms)

count_status-length :
    (s : Status) (ms : List Message)
    → count_status s ms ≡ length (select (λ m. is_message m && is_status s m) ms)
unfolding count_status
count_status-length s [] = refl
count_status-length s (m ∷ ms) = ground (arith, count_status-length s ms)

count_status-same :
    (s t : Status) (ms : List Message)
    → same_status s t ≡ true
    → count_status s ms ≡ count_status t ms
unfolding count_status
count_status-same s t [] h = refl
count_status-same s t (m ∷ ms) h = ground (arith, count_status-same s t ms h)

group_count-groups :
    (t : Status) (l : List Status) (ms : List Message)
    → group_count t (groups_of l ms)
      ≡ (if any (λ s. same_status s t) l then count_status t ms else 0)
unfolding group_count groups_of
group_count-groups t [] ms = refl
group_count-groups t (s ∷ rest) ms =
    ground (arith, group_count-groups t rest ms, count_status-same s t ms)

-- Messages are acknowledged or not.
split_rows :
    (ms : List Message)
    → length (select is_message ms)
      ≡ length (select (λ m. is_message m && is_status Status.consumed m) ms)
        + length (select (λ m. is_message m && not (is_status Status.consumed m)) ms)
split_rows [] = refl
split_rows (m ∷ ms) = ground (arith, split_rows ms)

-- The totals that are shown, over the rows of the store.
store_totals :
    (s : Store)
    → (total (pending_groups s) ≡ length (select is_message s.messages))
      × (group_count Status.consumed (pending_groups s)
          ≡ length (select (λ m. is_message m && is_status Status.consumed m) s.messages))
      × (total (unconsumed (pending_groups s))
          ≡ length (select (λ m. is_message m && not (is_status Status.consumed m)) s.messages))
unfolding pending_groups sum_of
store_totals s =
    let all = total-groups_of statuses s.messages ∙ sum_of-statuses s.messages in
    let acked =
      group_count-groups Status.consumed statuses s.messages
      ∙ count_status-length Status.consumed s.messages in
    (
      all,
      acked,
      omega (
        arith,
        unconsumed-groups statuses s.messages,
        sum_of-statuses s.messages,
        count_status-length Status.consumed s.messages,
        split_rows s.messages,
      ),
    )

-- Samples are added up.
abbrev pub AddsUp : Samples → Samples → Samples → Type 0
AddsUp a b c = (a.samples ≡ b.samples + c.samples) × (a.sum ≡ b.sum + c.sum)

join_timing-left :
    (t : Timing) (ms : List Message) (a b c : Samples)
    → AddsUp a b c
    → AddsUp (join_timing t ms a) (join_timing t ms b) c
unfolding join_timing
join_timing-left t [] a b c h = h
join_timing-left t (m ∷ ms) a b c h = ground (arith, join_timing-left t ms a b c h)

join_timing-right :
    (t : Timing) (ms : List Message) (a b c : Samples)
    → AddsUp a b c
    → AddsUp (join_timing t ms a) b (join_timing t ms c)
unfolding join_timing
join_timing-right t [] a b c h = h
join_timing-right t (m ∷ ms) a b c h = ground (arith, join_timing-right t ms a b c h)

-- A stage is split by any test of its rows.
sample_all-split :
    (p q : Timing → Bool) (ts : List Timing) (ms : List Message)
    → AddsUp
        (sample_all p ts ms)
        (sample_all (λ t. p t && q t) ts ms)
        (sample_all (λ t. p t && not (q t)) ts ms)
unfolding sample_all
sample_all-split p q [] ms = (refl, refl)
sample_all-split p q (t ∷ ts) ms = elim (Bool-cases (p t)) [
  | inr e ↦ rw e (sample_all-split p q ts ms)
  | inl e ↦ (elim (Bool-cases (q t)) [
    | inl f ↦
        rw (e, f)
          (join_timing-left t ms (sample_all p ts ms) (sample_all (λ t. p t && q t) ts ms)
            (sample_all (λ t. p t && not (q t)) ts ms) (sample_all-split p q ts ms))
    | inr f ↦
        rw (e, f)
          (join_timing-right t ms (sample_all p ts ms) (sample_all (λ t. p t && q t) ts ms)
            (sample_all (λ t. p t && not (q t)) ts ms) (sample_all-split p q ts ms))
  ])
]

timings-split :
    (s : Store)
    → AddsUp
        (read_timings s).to_ack
        (read_timings s).to_ack_after_hook
        (read_timings s).to_ack_without_hook
unfolding read_timings
timings-split s =
    sample_all-split (at_stage Status.consumed) (has_hook s.timing) s.timing s.messages

-- The totals of a row against the rows of the store: the messages received are those of kind message,
-- the messages acknowledged are the consumed ones of them and the pending ones the others; and of the
-- times from arrival to acknowledgement, those after a hook and those without one have together their
-- number and their sum.
pub readable_row-totals :
    (c : Context) (thread name : String) (s : Store)
    → ((readable_row c thread name s).received_total ≡ some (length (select is_message s.messages)))
      × ((readable_row c thread name s).acknowledged_total
          ≡ some (length (select (λ m. is_message m && is_status Status.consumed m) s.messages)))
      × ((readable_row c thread name s).pending_count
          ≡ length (select (λ m. is_message m && not (is_status Status.consumed m)) s.messages))
      × ((readable_row c thread name s).delivery_timing ≡ some (read_timings s))
      × AddsUp
          (read_timings s).to_ack
          (read_timings s).to_ack_after_hook
          (read_timings s).to_ack_without_hook
unfolding readable_row
readable_row-totals c thread name s =
    let (all, acked, open_rows) = store_totals s in
    (ap some all, ap some acked, open_rows, refl, timings-split s)
