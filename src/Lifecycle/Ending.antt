-- ===== src/Lifecycle/Ending.antt =====
-- `turn_end_evidence` of src/peer_lifecycle.py.
use peer_chat.Base.{
  ℕ, ◌≤◌, String, ◌≡◌, refl, sym, ap, ◌⊎◌, true, not, ◌&&◌, Option, none, some, List, [], ◌∷◌, ◌++◌,
  arith, if◌then◌else◌, ◌==◌, leb, Bool-cases, inl, inr, All, some_inj,
}
use peer_chat.Base.Json.{Value, null, str, member, is_text, is_obj}
use peer_chat.Lifecycle.{
  Rollout, is_record, is_end_record, is_token_count, observe_record, scan_records, judge_ending,
  evidence_of, turn_end_evidence, judge_rollout, judge_scan, is_open_turn, time_of,
}

-- The record is an ending, and nothing but token counts comes after it.
pub record LastEnding (rs : List Value) (r : Value) : Type 0 where
  pub before : List Value
  pub after : List Value
  pub split : rs ≡ before ++ r ∷ after
  pub ends : is_end_record r ≡ true
  pub quiet : All (λ x. is_token_count x ≡ true) after

-- An ending that was remembered at the start, or one of the records.
abbrev Found : List Value → Option Value → Value → Type 0
Found rs latest r = ((latest ≡ some r) × All (λ x. is_token_count x ≡ true) rs) ⊎ LastEnding rs r

later-LastEnding :
    (x : Value) (rs : List Value) (r : Value) → LastEnding rs r → LastEnding (x ∷ rs) r
later-LastEnding x rs r h = record {
  before = x ∷ h.before;
  after = h.after;
  split = ap (λ ys. x ∷ ys) h.split;
  ends = h.ends;
  quiet = h.quiet;
}

scan_records-Found :
    (rs : List Value) (latest : Option Value) (r : Value)
    → scan_records rs latest ≡ some (some r)
    → Found rs latest r
unfolding scan_records
scan_records-Found [] latest r h = inl (some_inj latest (some r) h, tt)
scan_records-Found (x ∷ rs) latest r h = elim (Bool-cases (is_record x)) [
  | inr e ↦ cc (rw e at h)
  | inl e ↦ (elim (scan_records-Found rs (observe_record x latest) r (rw e at h)) [
    | inr k ↦ inr (later-LastEnding x rs r k)
    | inl k ↦ (elim (Bool-cases (is_end_record x)) [
      | inl f ↦
          let same : x ≡ r = some_inj x r (rw f at k.0) in
          inr (record {
            before = [];
            after = rs;
            split = ap (λ y. y ∷ rs) same;
            ends = rw (← same) f;
            quiet = k.1;
          })
      | inr f ↦ (elim (Bool-cases (is_token_count x)) [
        | inl g ↦ inl (rw (f, g) at k.0, (g, k.1))
        | inr g ↦ cc (rw (f, g) at k.0)
      ])
    ])
  ])
]

pub scan_records-LastEnding :
    (rs : List Value) (r : Value) → scan_records rs none ≡ some (some r) → LastEnding rs r
scan_records-LastEnding rs r h = elim (scan_records-Found rs none r h) [
  | inl k ↦ cc k.0
  | inr k ↦ k
]

-- What evidence of an ended turn says: the last activity in the rollout is the ending of that turn,
-- at a time between the hook and now.
pub record Ended (rollout : Rollout) (config : Value) (turn : String) (hook_at now : ℕ) (e : Value)
    : Type 0 where
  pub records : List Value
  pub ending : Value
  pub at : ℕ
  pub rollout_records : rollout.records ≡ some records
  pub last : LastEnding records ending
  pub own : is_text (member (member ending "payload") "turn_id") turn ≡ true
  pub stamped : rollout.stamp ending ≡ some at
  pub after_hook : hook_at ≤ at
  pub before_now : at ≤ now
  pub evidence : e ≡ evidence_of config ending turn at hook_at

judge_ending-bounds :
    (config : Value) (turn : String) (hook_at now at : ℕ) (r e : Value)
    → judge_ending config turn hook_at now (some at) r ≡ some e
    → (is_text (member (member r "payload") "turn_id") turn ≡ true)
      × (hook_at ≤ at)
      × (at ≤ now)
      × (e ≡ evidence_of config r turn at hook_at)
unfolding judge_ending
judge_ending-bounds config turn hook_at now at r e h =
    elim (Bool-cases
      (is_text (member (member r "payload") "turn_id") turn && (leb hook_at at && leb at now))) [
        | inl k ↦ (ground arith, ground arith, ground arith, sym (some_inj _ e (rw k at h)))
        | inr k ↦ cc (rw k at h)
      ]

pub judge_rollout-Ended :
    (rollout : Rollout) (config : Value) (turn : String) (hook_at now : ℕ) (e : Value)
    → judge_rollout rollout config turn hook_at now ≡ some e
    → Ended rollout config turn hook_at now e
unfolding judge_ending
judge_rollout-Ended rollout config turn hook_at now e h = by_records rollout.records refl h
  where
    by_stamp :
        (rs : List Value) (r : Value) (at : Option ℕ)
        → rollout.records ≡ some rs
        → scan_records rs none ≡ some (some r)
        → rollout.stamp r ≡ at
        → judge_ending config turn hook_at now at r ≡ some e
        → Ended rollout config turn hook_at now e
    by_stamp rs r none f g t k = cc
    by_stamp rs r (some at) f g t k =
        let bounds = judge_ending-bounds config turn hook_at now at r e k in
        record {
          records = rs;
          ending = r;
          at = at;
          rollout_records = f;
          last = scan_records-LastEnding rs r g;
          own = bounds.0;
          stamped = t;
          after_hook = bounds.1;
          before_now = bounds.2;
          evidence = bounds.3;
        }

    by_scan :
        (rs : List Value) (x : Option (Option Value))
        → rollout.records ≡ some rs
        → scan_records rs none ≡ x
        → judge_scan rollout config turn hook_at now x ≡ some e
        → Ended rollout config turn hook_at now e
    by_scan rs none f g k = cc
    by_scan rs (some none) f g k = cc
    by_scan rs (some (some r)) f g k = by_stamp rs r (rollout.stamp r) f g refl k

    by_records :
        (x : Option (List Value))
        → rollout.records ≡ x
        → elim x as (λ y. Option Value) [
          | none ↦ none
          | some rs ↦ judge_scan rollout config turn hook_at now (scan_records rs none)
        ]
          ≡ some e
        → Ended rollout config turn hook_at now e
    by_records none f k = cc
    by_records (some rs) f k = by_scan rs (scan_records rs none) f refl k

-- What is found of a turn that has ended: the hook ran inside the turn of a living owner, and the
-- last activity in the rollout ends that very turn, between the hook and now.
pub turn_end_evidence-Ended :
    (rollout : Rollout) (owner : Value) (now : ℕ) (config seen e : Value)
    → turn_end_evidence rollout owner now config seen ≡ some e
    → (turn : String) × (hook_at : ℕ) × (member seen "turn" ≡ str turn)
      × (time_of (member seen "at") ≡ some hook_at)
      × (is_open_turn config seen owner ≡ true)
      × Ended rollout config turn hook_at now e
unfolding turn_end_evidence
turn_end_evidence-Ended rollout owner now config seen e h = by_turn (member seen "turn") refl h
  where
    by_time :
        (turn : String) (t : Option ℕ)
        → member seen "turn" ≡ str turn
        → time_of (member seen "at") ≡ t
        → elim t as (λ y. Option Value) [
          | some hook_at ↦
              (if is_obj config
                  && (is_obj seen && (not (turn == "") && is_open_turn config seen owner))
                then judge_rollout rollout config turn hook_at now
                else none)
          | none ↦ none
        ]
          ≡ some e
        → (turn : String) × (hook_at : ℕ) × (member seen "turn" ≡ str turn)
          × (time_of (member seen "at") ≡ some hook_at)
          × (is_open_turn config seen owner ≡ true)
          × Ended rollout config turn hook_at now e
    by_time turn none f g k = cc
    by_time turn (some t) f g k =
        elim (Bool-cases (
          is_obj config && (is_obj seen && (not (turn == "") && is_open_turn config seen owner)))) [
            | inl b ↦ (
              turn,
              t,
              f,
              g,
              ground arith,
              judge_rollout-Ended rollout config turn t now e (rw b at k),
            )
            | inr b ↦ cc (rw b at k)
          ]

    by_turn :
        (v : Value)
        → member seen "turn" ≡ v
        → elim v as (λ y. Option Value) [
          | str turn ↦ (elim (time_of (member seen "at")) [
            | some hook_at ↦
                (if is_obj config
                    && (is_obj seen && (not (turn == "") && is_open_turn config seen owner))
                  then judge_rollout rollout config turn hook_at now
                  else none)
            | none ↦ none
          ])
          | _ ↦ none
        ]
          ≡ some e
        → (turn : String) × (hook_at : ℕ) × (member seen "turn" ≡ str turn)
          × (time_of (member seen "at") ≡ some hook_at)
          × (is_open_turn config seen owner ≡ true)
          × Ended rollout config turn hook_at now e
    by_turn (str turn) f k = by_time turn (time_of (member seen "at")) f refl k
    by_turn null f k = cc
    by_turn v f k = cc
