-- ===== src/Lifecycle.antt =====
-- src/peer_lifecycle.py: the end of a turn that no hook reported. Reading the rollout file is outside
-- the model: its records, parsed, are a list, and the answer for a file that cannot be used is `none`.
pub mod Ending
pub mod Reconcile
use peer_chat.Base.{
  ℕ, String, Bool, true, false, not, ◌&&◌, ◌||◌, Option, none, some, List, [], ◌∷◌, if◌then◌else◌,
  ◌==◌, leb,
}
use peer_chat.Base.Int.{pos}
use peer_chat.Base.Json.{
  Value, null, bool, int, real, str, obj, Fields, end, field, member, is_obj, is_text, truthy,
}
use peer_chat.Store.{Store, get, put}
use peer_chat.Budget.{lifecycle_observed}

-- `event in ('task_complete', 'turn_aborted')`
abbrev pub is_ending : Value → Bool
is_ending payload =
    is_text (member payload "type") "task_complete"
    || is_text (member payload "type") "turn_aborted"

abbrev pub is_event : Value → Bool
is_event r = is_text (member r "type") "event_msg"

abbrev pub is_token_count : Value → Bool
is_token_count r = is_event r && is_text (member (member r "payload") "type") "token_count"

abbrev pub is_end_record : Value → Bool
is_end_record r = is_event r && is_ending (member r "payload")

abbrev pub is_record : Value → Bool
is_record r = is_obj r && is_obj (member r "payload")

-- One record of the loop: an ending is remembered, a token count ignored, all else forgets it.
abbrev pub observe_record : Value → Option Value → Option Value
observe_record r latest =
    if is_end_record r then some r else if is_token_count r then latest else none

-- The loop over the records; the outer `none` is its early return on a malformed one.
unfoldable pub scan_records : List Value → Option Value → Option (Option Value)
scan_records [] latest = some latest
scan_records (r ∷ rs) latest =
    let rest = scan_records rs (observe_record r latest) in if is_record r then rest else none

abbrev pub seen_turn : Value → String → Bool
seen_turn seen turn = is_text (member seen "turn") turn && not (turn == "")

-- `seen` is a hook that ran inside a turn, of the owner that the configuration names and that lives.
abbrev pub is_open_turn : Value → Value → Value → Bool
is_open_turn config seen owner =
    (is_text (member seen "routing") "matched"
      && (is_text (member seen "event") "UserPromptSubmit"
          || is_text (member seen "event") "PostToolUse"))
    && (elim (member config "owner_identity") [
      | str identity ↦
          not (identity == "")
          && (is_text (member seen "owner_identity") identity && is_text owner identity)
      | _ ↦ false
    ])

abbrev pub time_of : Value → Option ℕ
time_of (real t) = some t
time_of (int (pos t)) = some t
time_of _ = none

-- What the rollout is for a thread: its records, and the time stamp of one, as `fromisoformat` reads it.
pub record Rollout : Type 0 where
  pub records : Option (List Value)
  pub stamp : Value → Option ℕ

abbrev pub evidence_of : Value → Value → String → ℕ → ℕ → Value
evidence_of config r turn at hook_at = obj (
    field "source" (str "codex_rollout") (
      field "event" (member (member r "payload") "type") (
        field "turn" (str turn) (
          field "at" (real at) (
            field "owner_identity" (member config "owner_identity")
              (field "hook_at" (real hook_at) end))))))

-- The ending `r` counts for the turn, if it is between the hook and now.
unfoldable pub judge_ending : Value → String → ℕ → ℕ → Option ℕ → Value → Option Value
judge_ending config turn hook_at now none r = none
judge_ending config turn hook_at now (some at) r =
    if is_text (member (member r "payload") "turn_id") turn && (leb hook_at at && leb at now)
    then some (evidence_of config r turn at hook_at)
    else none

abbrev pub judge_scan : Rollout → Value → String → ℕ → ℕ → Option (Option Value) → Option Value
judge_scan rollout config turn hook_at now (some (some r)) =
    judge_ending config turn hook_at now (rollout.stamp r) r
judge_scan rollout config turn hook_at now _ = none

-- The records from `hook_at` and `turn` on.
abbrev pub judge_rollout : Rollout → Value → String → ℕ → ℕ → Option Value
judge_rollout rollout config turn hook_at now = elim rollout.records [
  | none ↦ none
  | some rs ↦ judge_scan rollout config turn hook_at now (scan_records rs none)
]

-- `turn_end_evidence`; `owner` is the identity of the process that the configuration names.
unfoldable pub turn_end_evidence : Rollout → Value → ℕ → Value → Value → Option Value
turn_end_evidence rollout owner now config seen = elim (member seen "turn") [
  | str turn ↦ (elim (time_of (member seen "at")) [
    | some hook_at ↦
        (if is_obj config && (is_obj seen && (not (turn == "") && is_open_turn config seen owner))
          then judge_rollout rollout config turn hook_at now
          else none)
    | none ↦ none
  ])
  | _ ↦ none
]

abbrev pub ended_phase : Value → String
ended_phase evidence =
    if is_text (member evidence "event") "turn_aborted" then "interrupted" else "idle"

-- What `reconcile` rests on when it starts.
abbrev pub may_reconcile : Store → Bool
may_reconcile s =
    (is_text (get s "phase" null) "active" || is_text (get s "phase" null) "idle")
    && (not (truthy (get s "stop" (bool false))) && lifecycle_observed (get s))

-- `store.get('phase') == previous_phase`, for the phases that `reconcile` starts from.
abbrev pub same_phase : Value → Value → Bool
same_phase (str p) v = is_text v p
same_phase _ v = false

-- `reconcile`: `before` is the store as it was read, `s` that of the transaction, `same` whether this
-- evidence was reconciled already, and `unchanged` whether the configuration, the hook and the
-- evidence are the same in the transaction.
unfoldable pub reconcile : Option Value → Bool → Bool → Store → Store → Bool × Store
reconcile none same unchanged before s = (false, s)
reconcile (some evidence) same unchanged before s =
    let phase = ended_phase evidence in
    let previous = get before "phase" null in
    if not (may_reconcile before)
    then (false, s)
    else if is_text previous phase && same
    then (false, s)
    else if truthy (get s "stop" (bool false))
        || (not (same_phase previous (get s "phase" null)) || not unchanged)
    then (false, s)
    else (true, put "lifecycle_reconciled" evidence (put "phase" (str phase) s))
