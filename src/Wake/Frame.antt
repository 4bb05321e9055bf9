-- ===== src/Wake/Frame.antt =====
-- The keys that src/peer_wake.py writes.
use peer_chat.Base.{
  ℕ, String, ◌≡◌, refl, ◌∙◌, Bool, true, false, ◌||◌, Option, none, some, arith, if◌then◌else◌,
  ◌==◌, Bool-cases, inl, inr, ltb, eq_iff,
}
use peer_chat.Base.Json.{Value, null, str, obj, Fields, member, is_text}
use peer_chat.Store.{Store, put, delete}
use peer_chat.Wake.{
  WakeState, Evidence, is_counted, is_pending, bump, mark, refuse, refuses, backfills, proceed,
  transition, begin, record_state, get_or, pending, valid_id, advance, fresh, rank_of, rank,
}
use peer_chat.Wake.Events.{
  active_hook, decide_wake, record_wake, record_producer, is_stale, is_withdrawn, is_active_event,
  verdict, hook_evidence, shown, producer_state,
}
use peer_chat.Store.Progress.{Progress, same-Progress}

abbrev pub is_wake_key : String → Bool
is_wake_key key = "wake_pending" == key || ("last_wake" == key || "wake_counts" == key)

pub record Untouched (s s' : Store) : Type 0 where
  pub messages : s.messages ≡ s'.messages
  pub outgoing : s.outgoing ≡ s'.outgoing
  pub other : (key : String) → is_wake_key key ≡ false → s.meta key ≡ s'.meta key

Untouched-refl : (s : Store) → Untouched s s
Untouched-refl s = record { messages = refl; outgoing = refl; other = λ k h. refl }

Untouched-trans : {s t u : Store} → Untouched s t → Untouched t u → Untouched s u
Untouched-trans h k = record {
  messages = h.messages ∙ k.messages;
  outgoing = h.outgoing ∙ k.outgoing;
  other = λ key e. h.other key e ∙ k.other key e;
}

pub Untouched-Progress : {s s' : Store} → Untouched s s' → Progress s s'
Untouched-Progress h = same-Progress h.messages

put-Untouched :
    (key : String) (v : Value) (s : Store) → is_wake_key key ≡ true → Untouched s (put key v s)
put-Untouched key v s h = record {
  messages = refl;
  outgoing = refl;
  other = λ k e. ground (arith, eq_iff key k);
}

delete-Untouched : (key : String) (s : Store) → is_wake_key key ≡ true → Untouched s (delete key s)
delete-Untouched key s h = record {
  messages = refl;
  outgoing = refl;
  other = λ k e. ground (arith, eq_iff key k);
}

bump-Untouched : (state : WakeState) (s : Store) → Untouched s (bump state s)
unfolding bump
bump-Untouched state s = elim (Bool-cases (is_counted state)) [
  | inl e ↦ rw e (put-Untouched "wake_counts" _ s refl)
  | inr e ↦ rw e (Untouched-refl s)
]

mark-Untouched :
    (wake : String) (state : WakeState) (d : Fields) (s : Store) → Untouched s (mark wake state d s)
mark-Untouched wake state d s = elim (Bool-cases (is_pending state)) [
  | inl e ↦ rw e (
      Untouched-trans (put-Untouched "last_wake" (obj d) s refl)
        (put-Untouched "wake_pending" _ (put "last_wake" (obj d) s) refl))
  | inr e ↦ rw e (
      Untouched-trans (put-Untouched "last_wake" (obj d) s refl)
        (delete-Untouched "wake_pending" (put "last_wake" (obj d) s) refl))
]

begin-Untouched :
    (wake : String) (state : WakeState) (e : Evidence) (now : ℕ) (s : Store)
    → Untouched s (begin wake state e now s).1
unfolding begin
begin-Untouched wake state e now s =
    Untouched-trans (bump-Untouched state s)
      (mark-Untouched wake state (fresh wake state e now) (bump state s))

refuse-Untouched : (e : Evidence) (d : Fields) (s : Store) → Untouched s (refuse e d s).1
unfolding refuse
refuse-Untouched e d s = elim (Bool-cases (backfills e d)) [
  | inl b ↦ rw b (put-Untouched "last_wake" _ s refl)
  | inr b ↦ rw b (Untouched-refl s)
]

proceed-Untouched :
    (wake : String) (state : WakeState) (e : Evidence) (now : ℕ) (d : Fields) (s : Store)
    → Untouched s (proceed wake state e now d s).1
unfolding proceed
proceed-Untouched wake state e now d s =
    elim (Bool-cases (ltb (rank_of (member (obj d) "state")) (rank state))) [
      | inl b ↦ rw b (
          Untouched-trans (bump-Untouched state s)
            (mark-Untouched wake state (advance state e now d) (bump state s)))
      | inr b ↦ rw b (mark-Untouched wake state (advance state e now d) s)
    ]

transition-Untouched :
    (wake : String) (state : WakeState) (e : Evidence) (now : ℕ) (d : Fields) (s : Store)
    → Untouched s (transition wake state e now d s).1
unfolding transition
transition-Untouched wake state e now d s = elim (Bool-cases (refuses state d)) [
  | inl r ↦ rw r (refuse-Untouched e d s)
  | inr r ↦ rw r (proceed-Untouched wake state e now d s)
]

record_state-Untouched :
    (wake : String) (state : WakeState) (e : Evidence) (now : ℕ) (s : Store)
    → Untouched s (record_state wake state e now s).1
unfolding record_state
record_state-Untouched wake state e now s = go (get_or s "last_wake" null)
  where
    go :
        (v : Value)
        → Untouched s
            (elim v as (λ x. Fields × Store) [
              | obj d ↦
                  if is_text (member (obj d) "id") wake
                  then transition wake state e now d s
                  else begin wake state e now s
              | _ ↦ begin wake state e now s
            ]).1
    go (obj d) = elim (Bool-cases (is_text (member (obj d) "id") wake)) [
      | inl t ↦ rw t (transition-Untouched wake state e now d s)
      | inr t ↦ rw t (begin-Untouched wake state e now s)
    ]
    go null = begin-Untouched wake state e now s
    go _ = begin-Untouched wake state e now s

decide_wake-Untouched :
    (payload waiting : Value) (now : ℕ) (s : Store)
    → Untouched s (decide_wake payload waiting now s).1
decide_wake-Untouched payload waiting now s = go (member waiting "id")
  where
    go :
        (v : Value)
        → Untouched s
            (elim v as (λ x. Option Value × Store) [
              | str wake ↦
                  let (state, detail) = verdict payload waiting wake in
                  shown (record_state wake state (hook_evidence payload detail) now s)
              | _ ↦ (none, s)
            ]).1
    go (str wake) = record_state-Untouched wake (verdict payload waiting wake).0 _ now s
    go null = Untouched-refl s
    go _ = Untouched-refl s

pub active_hook-Untouched :
    (payload : Value) (now : ℕ) (s : Store) → Untouched s (active_hook payload now s).1
unfolding active_hook
active_hook-Untouched payload now s =
    elim (Bool-cases (is_active_event (member payload "hook_event_name"))) [
      | inr a ↦ rw a (Untouched-refl s)
      | inl a ↦ rw a (go (pending s))
    ]
  where
    go :
        (p : Option Value)
        → Untouched s
            (elim p as (λ x. Option Value × Store) [
              | none ↦ (none, s)
              | some waiting ↦ decide_wake payload waiting now s
            ]).1
    go none = Untouched-refl s
    go (some waiting) = decide_wake-Untouched payload waiting now s

record_producer-Untouched :
    (wake : String) (state : WakeState) (marker : Value) (now : ℕ) (s : Store)
    → Untouched s (record_producer wake state marker now s).1
unfolding record_producer
record_producer-Untouched wake state marker now s = elim (Bool-cases (is_stale state wake s)) [
  | inl a ↦ rw a (Untouched-refl s)
  | inr a ↦ (elim (Bool-cases (is_withdrawn state wake s)) [
    | inl b ↦ rw (a, b) (record_state-Untouched wake WakeState.cancelled _ now s)
    | inr b ↦ rw (a, b) (record_state-Untouched wake state _ now s)
  ])
]

pub record_wake-Untouched :
    (marker : Value) (now : ℕ) (s : Store) → Untouched s (record_wake marker now s).1
unfolding record_wake
record_wake-Untouched marker now s = go (member marker "id")
  where
    by_state :
        (wake : String) (p : Option WakeState)
        → Untouched s
            (elim p as (λ x. Option Value × Store) [
              | none ↦ (none, s)
              | some state ↦ record_producer wake state marker now s
            ]).1
    by_state wake none = Untouched-refl s
    by_state wake (some state) = record_producer-Untouched wake state marker now s

    go :
        (v : Value)
        → Untouched s
            (elim v as (λ x. Option Value × Store) [
              | str wake ↦
                  (if valid_id (str wake)
                    then (elim (producer_state (member marker "status")) [
                      | none ↦ (none, s)
                      | some state ↦ record_producer wake state marker now s
                    ])
                    else (none, s))
              | _ ↦ (none, s)
            ]).1
    go (str wake) = elim (Bool-cases (valid_id (str wake))) [
      | inl e ↦ rw e (by_state wake (producer_state (member marker "status")))
      | inr e ↦ rw e (Untouched-refl s)
    ]
    go null = Untouched-refl s
    go _ = Untouched-refl s
