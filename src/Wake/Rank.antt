-- ===== src/Wake/Rank.antt =====
-- `_record` of src/peer_wake.py: the rank of the wake that is on record.
use peer_chat.Base.{
  ℕ, String, ◌≡◌, refl, sym, ap, ◌≤◌, Bool, true, false, Option, none, some, arith, if◌then◌else◌,
  ◌==◌, Bool-cases, eq_refl, inl, inr, ◌∙◌, ltb, nat_eq, ◌||◌, ◌&&◌,
}
use peer_chat.Base.Json.{
  Value, null, str, obj, Fields, member, member-insert, member-insert_ne, is_text,
}
use peer_chat.Store.{Store}
use peer_chat.Wake.{
  WakeState, Evidence, name, rank, rank_of, get_or, record_state, insert_some, backfill, backfills,
  advance, timed, finish, fresh, mark, transition, refuses, refuse, proceed, bump, begin, is_wake,
}

ltb_or_eq : (a b : ℕ) → (ltb a b || (nat_eq a b && nat_eq b 3)) ≡ true → a ≤ b
ltb_or_eq a b h = ground arith

not_ltb : (a b : ℕ) → (ltb a b || (nat_eq a b && nat_eq b 3)) ≡ false → b ≤ a
not_ltb a b h = ground arith

rank_of-name : (state : WakeState) → rank_of (str (name state)) ≡ rank state
rank_of-name WakeState.writing = refl
rank_of-name _ = refl

module _ (j : String) where
  member-insert_some :
      (k : String) (v : Option String) (d : Fields)
      → (k == j) ≡ false
      → member (obj (insert_some k v d)) j ≡ member (obj d) j
  member-insert_some k none d h = refl
  member-insert_some k (some v) d h = member-insert_ne k j (str v) d h

  member-backfill :
      (e : Evidence) (d : Fields)
      → ("queue_id" == j) ≡ false
      → member (obj (backfill e d)) j ≡ member (obj d) j
  member-backfill e d h = elim (Bool-cases (backfills e d)) [
    | inl b ↦ rw b (member-insert_some "queue_id" e.queue_id d h)
    | inr b ↦ rw b
  ]

  -- The optional evidence is written to other keys than the id and the state.
  member-finish :
      (e : Evidence) (d : Fields)
      → ("queue_id" == j) ≡ false
      → ("event" == j) ≡ false
      → ("turn" == j) ≡ false
      → ("detail" == j) ≡ false
      → member (obj (finish e d)) j ≡ member (obj d) j
  member-finish e d hq he ht hd =
      let evented : member
            (obj (insert_some "turn" e.turn (insert_some "event" e.event (backfill e d)))) j
          ≡ member (obj d) j =
        member-insert_some "turn" e.turn _ ht
        ∙ (member-insert_some "event" e.event _ he ∙ member-backfill e d hq) in
      elim (Bool-cases (e.detail == "")) [
        | inl b ↦ rw b evented
        | inr b ↦ rw b (member-insert_ne "detail" j (str e.detail) _ hd ∙ evented)
      ]

member-advance-state :
    (state : WakeState) (e : Evidence) (now : ℕ) (d : Fields)
    → member (obj (advance state e now d)) "state" ≡ str (name state)
member-advance-state state e now d =
    member-finish "state" e (timed state now d) refl refl refl refl
    ∙ (member-insert_ne "at" "state" _ _ refl ∙ member-insert "state" "state" _ d)

member-advance-id :
    (state : WakeState) (e : Evidence) (now : ℕ) (d : Fields)
    → member (obj (advance state e now d)) "id" ≡ member (obj d) "id"
member-advance-id state e now d =
    member-finish "id" e (timed state now d) refl refl refl refl
    ∙ (member-insert_ne "at" "id" _ _ refl ∙ member-insert_ne "state" "id" _ d refl)

-- How far the record of a wake has come; 0 where the latest record is of another wake.
abbrev pub last_state : Store → Value
last_state s = member (get_or s "last_wake" null) "state"

abbrev pub is_last : String → Store → Bool
is_last wake s = is_wake wake (get_or s "last_wake" null)

abbrev pub progress : String → Store → ℕ
progress wake s = if is_last wake s then rank_of (last_state s) else 0

last-mark :
    (wake : String) (state : WakeState) (d : Fields) (s : Store)
    → get_or (mark wake state d s) "last_wake" null ≡ obj d
last-mark wake WakeState.writing d s = refl
last-mark wake _ d s = refl

member-fresh :
    (wake : String) (state : WakeState) (e : Evidence) (now : ℕ)
    → (member (obj (fresh wake state e now)) "id" ≡ str wake)
      × (member (obj (fresh wake state e now)) "state" ≡ str (name state))
unfolding member
member-fresh wake state e now = (refl, refl)

-- The latest record is of this wake, and its state is what `v` says.
abbrev pub Shows : String → Value → Value → Type 0
Shows wake v last = (is_wake wake last ≡ true) × (member last "state" ≡ v)

Shows-fields :
    (wake : String) (d : Fields) (v : Value)
    → v ≡ obj d
    → is_text (member (obj d) "id") wake ≡ true
    → Shows wake (member (obj d) "state") v
Shows-fields wake d v e k = rw e (k, refl)

pub begin-Shows :
    (wake : String) (state : WakeState) (e : Evidence) (now : ℕ) (s : Store)
    → Shows wake (str (name state)) (get_or (begin wake state e now s).1 "last_wake" null)
unfolding begin
begin-Shows wake state e now s =
    rw (last-mark wake state (fresh wake state e now) (bump state s))
      (rw (member-fresh wake state e now).0 (eq_refl wake), (member-fresh wake state e now).1)

refuse-Shows :
    (wake : String) (e : Evidence) (d : Fields) (s : Store)
    → get_or s "last_wake" null ≡ obj d
    → is_text (member (obj d) "id") wake ≡ true
    → Shows wake (member (obj d) "state") (get_or (refuse e d s).1 "last_wake" null)
unfolding refuse
refuse-Shows wake e d s h k = elim (Bool-cases (backfills e d)) [
  | inl b ↦ rw b (
    rw (member-insert_some "id" "queue_id" e.queue_id d refl) k,
    member-insert_some "state" "queue_id" e.queue_id d refl,
  )
  | inr b ↦ rw b (Shows-fields wake d _ h k)
]

proceed-Shows :
    (wake : String) (state : WakeState) (e : Evidence) (now : ℕ) (d : Fields) (s : Store)
    → is_text (member (obj d) "id") wake ≡ true
    → Shows wake (str (name state)) (get_or (proceed wake state e now d s).1 "last_wake" null)
unfolding proceed
proceed-Shows wake state e now d s k =
    rw (last-mark wake state (advance state e now d) _)
      (rw (member-advance-id state e now d) k, member-advance-state state e now d)

-- The two cases of `record_state`.
pub record_state-last :
    (wake : String) (state : WakeState) (e : Evidence) (now : ℕ) (d : Fields) (s : Store)
    → get_or s "last_wake" null ≡ obj d
    → is_text (member (obj d) "id") wake ≡ true
    → record_state wake state e now s
      ≡ (if refuses state d then refuse e d s else proceed wake state e now d s)
unfolding record_state transition
record_state-last wake state e now d s h k = rw (h, record_state) (rw (k, transition))

pub record_state-other :
    (wake : String) (state : WakeState) (e : Evidence) (now : ℕ) (v : Value) (s : Store)
    → get_or s "last_wake" null ≡ v
    → is_wake wake v ≡ false
    → record_state wake state e now s ≡ begin wake state e now s
unfolding record_state
record_state-other wake state e now (obj d) s h k = rw (h, record_state) (rw k)
record_state-other wake state e now v s h k = rw (h, record_state)

pub is_last-fields :
    (wake : String) (v : Value)
    → is_wake wake v ≡ true
    → (d : Fields) × (v ≡ obj d) × (is_text (member (obj d) "id") wake ≡ true)
is_last-fields wake (obj d) h = (d, refl, h)
is_last-fields wake null h = cc
is_last-fields wake _ h = cc

pub record_state-Shows :
    (wake : String) (state : WakeState) (e : Evidence) (now : ℕ) (d : Fields) (s : Store)
    → get_or s "last_wake" null ≡ obj d
    → is_text (member (obj d) "id") wake ≡ true
    → Shows wake
        (if refuses state d then member (obj d) "state" else str (name state))
        (get_or (record_state wake state e now s).1 "last_wake" null)
record_state-Shows wake state e now d s h k =
    rw (record_state-last wake state e now d s h k) (elim (Bool-cases (refuses state d)) [
      | inl r ↦ rw r (refuse-Shows wake e d s h k)
      | inr r ↦ rw r (proceed-Shows wake state e now d s k)
    ])

progress-Shows :
    (wake : String) (v : Value) (s : Store)
    → Shows wake v (get_or s "last_wake" null)
    → (is_last wake s ≡ true) × (progress wake s ≡ rank_of v)
progress-Shows wake v s h = (h.0, rw (h.0, h.1))

refuses-rank :
    (state : WakeState) (d : Fields)
    → (rank_of (member (obj d) "state")
        ≤ rank_of (if refuses state d then member (obj d) "state" else str (name state)))
      × (rank state
          ≤ rank_of (if refuses state d then member (obj d) "state" else str (name state)))
refuses-rank state d = elim (Bool-cases (refuses state d)) [
  | inl r ↦ rw r (omega arith, ltb_or_eq (rank state) (rank_of (member (obj d) "state")) r)
  | inr r ↦
      rw (r, rank_of-name state)
        (not_ltb (rank state) (rank_of (member (obj d) "state")) r, omega arith)
]

-- A transition never lowers the rank of the wake that it is about, nor leaves it below its own
-- rank, and afterwards the latest record is of that wake.
pub record_state-rank :
    (wake : String) (state : WakeState) (e : Evidence) (now : ℕ) (s : Store)
    → (is_last wake (record_state wake state e now s).1 ≡ true)
      × (progress wake s ≤ progress wake (record_state wake state e now s).1)
      × (rank state ≤ progress wake (record_state wake state e now s).1)
record_state-rank wake state e now s = elim (Bool-cases (is_last wake s)) [
  | inl h ↦
      let (d, e₁, k) = is_last-fields wake (get_or s "last_wake" null) h in
      let v : Value = if refuses state d then member (obj d) "state" else str (name state) in
      let after =
        progress-Shows wake v (record_state wake state e now s).1
          (record_state-Shows wake state e now d s e₁ k) in
      let before = progress-Shows wake (member (obj d) "state") s (Shows-fields wake d _ e₁ k) in
      (
        after.0,
        rw (after.1, before.1) (refuses-rank state d).0,
        rw after.1 (refuses-rank state d).1,
      )
  | inr h ↦
      let after =
        progress-Shows wake (str (name state)) (begin wake state e now s).1
          (begin-Shows wake state e now s) in
      rw (record_state-other wake state e now (get_or s "last_wake" null) s refl h)
        (after.0, rw (h, after.1) (omega arith), rw (after.1, rank_of-name state) (omega arith))
]

pub final-refuses :
    (state : WakeState) (d : Fields) → rank_of (member (obj d) "state") ≡ 3 → refuses state d ≡ true
final-refuses WakeState.writing d h = rw h
final-refuses _ d h = rw h

-- A decided wake keeps its outcome: no later transition changes its state.
pub record_state_final :
    (wake : String) (state : WakeState) (e : Evidence) (now : ℕ) (s : Store)
    → is_last wake s ≡ true
    → rank_of (last_state s) ≡ 3
    → last_state (record_state wake state e now s).1 ≡ last_state s
record_state_final wake state e now s h r =
    let (d, e₁, k) = is_last-fields wake (get_or s "last_wake" null) h in
    let same : last_state s ≡ member (obj d) "state" = ap (λ v. member v "state") e₁ in
    let r' : refuses state d ≡ true = final-refuses state d (sym (ap rank_of same) ∙ r) in
    let after = record_state-Shows wake state e now d s e₁ k in after.1 ∙ rw r' (sym same)
