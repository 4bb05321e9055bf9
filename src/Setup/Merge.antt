-- ===== src/Setup/Merge.antt =====
-- `merge_hooks` of src/peer_setup.py, run again on what it wrote.
use peer_chat.Base.{
  and_first, and_second, String, ◌≡◌, refl, sym, ap, ◌∙◌, Bool, true, false, ◌&&◌, Option, none,
  some, List, [], ◌∷◌, if◌then◌else◌, ◌==◌, any, eq_iff, Bool-cases, Option-cases, inl, inr,
  is_some, some_inj,
}
use peer_chat.Base.Json.{
  Value, arr, obj, Fields, end, Items, no_items, lookup, insert, lookup-insert, lookup-insert_ne,
}
use peer_chat.Setup.{
  events, entries, retained, with_ours, store_groups, merge_event, merge_events, hook_groups,
  merge_hooks,
}
use peer_chat.Setup.Retain.{retained_again, with_ours-retained, stored_value, lookup-store_groups}

-- What is kept of the value under an event, and what is stored_value under it.
kept_of : Option Value → Option Items
kept_of o = elim (entries (elim o [ none ↦ arr no_items | some v ↦ v ])) [
  | none ↦ none
  | some old ↦ retained old
]

outcome : String → Bool → String → Option Value → Option Value
unfolding stored_value
outcome command remove event o = elim (kept_of o) [
  | none ↦ o
  | some kept ↦ stored_value (with_ours command remove event kept)
]

kept_of-stored_value : (gs ks : Items) → retained gs ≡ some ks → kept_of (stored_value gs) ≡ some ks
unfolding stored_value kept_of
kept_of-stored_value no_items ks h = h
kept_of-stored_value gs ks h = h

kept-retained : (o : Option Value) (ks : Items) → kept_of o ≡ some ks → retained ks ≡ some ks
unfolding kept_of
kept-retained o ks h = elim (Option-cases (entries (elim o [ none ↦ arr no_items | some v ↦ v ]))) [
  | inl e ↦ cc (rw (e, kept_of) at h)
  | inr (old, e) ↦ retained_again old ks (rw (e, kept_of) at h)
]

module _ (command event : String) (remove : Bool) where
  outcome-none : (o : Option Value) → kept_of o ≡ none → outcome command remove event o ≡ o
  unfolding outcome
  outcome-none o e = rw (outcome, e) refl

  outcome-some :
      (o : Option Value) (ks : Items)
      → kept_of o ≡ some ks
      → outcome command remove event o ≡ stored_value (with_ours command remove event ks)
  unfolding outcome
  outcome-some o ks e = rw (outcome, e) refl

  outcome-kept : (o : Option Value) → kept_of (outcome command remove event o) ≡ kept_of o
  outcome-kept o = elim (Option-cases (kept_of o)) [
    | inl e ↦ ap kept_of (outcome-none o e)
    | inr (ks, e) ↦
        ap kept_of (outcome-some o ks e)
        ∙ kept_of-stored_value (with_ours command remove event ks) ks
            (with_ours-retained command event remove ks ks (kept-retained o ks e))
        ∙ sym e
  ]

-- A second outcome does not depend on the first.
outcome_again :
    (command command' event : String) (remove remove' : Bool) (o : Option Value)
    → outcome command' remove' event (outcome command remove event o)
      ≡ outcome command' remove' event o
outcome_again command command' event remove remove' o = elim (Option-cases (kept_of o)) [
  | inl e ↦ ap (outcome command' remove' event) (outcome-none command event remove o e)
  | inr (ks, e) ↦
      outcome-some command' event remove' (outcome command remove event o) ks
        (outcome-kept command event remove o ∙ e)
      ∙ sym (outcome-some command' event remove' o ks e)
]

module _ (command : String) (remove : Bool) where
  -- One event of the loop.
  merge_event-some :
      (event : String) (g g' : Fields)
      → merge_event command remove event g ≡ some g'
      → (is_some (kept_of (lookup event g)) ≡ true)
        × ((k : String)
            → lookup k g'
              ≡ (if event == k then outcome command remove event (lookup event g) else lookup k g))
  unfolding kept_of
  merge_event-some event g g' h = elim (Option-cases (kept_of (lookup event g))) [
    | inl e ↦ cc (rw (e, merge_event) at h)
    | inr (ks, e) ↦ (
      rw e refl,
      λ k.
          ap (lookup k) (sym (some_inj _ g' (rw (merge_event, e) at h)))
          ∙ lookup-store_groups event k (with_ours command remove event ks) g
          ∙ ap (λ o. if event == k then o else lookup k g)
              (sym (outcome-some command event remove (lookup event g) ks e)),
    )
  ]

  merge_event-ready :
      (event : String) (g : Fields)
      → is_some (kept_of (lookup event g)) ≡ true
      → (g' : Fields) × (merge_event command remove event g ≡ some g')
  unfolding kept_of
  merge_event-ready event g h = elim (Option-cases (kept_of (lookup event g))) [
    | inl e ↦ cc (rw e at h)
    | inr (ks, e) ↦
        (store_groups event (with_ours command remove event ks) g, rw (merge_event, e) refl)
  ]

-- The groups of every event in the list can be read.
ready : Fields → List String → Bool
ready g [] = true
ready g (event ∷ rest) = is_some (kept_of (lookup event g)) && ready g rest

ready-same :
    (g g' : Fields) (es : List String)
    → ((k : String) → kept_of (lookup k g') ≡ kept_of (lookup k g))
    → ready g' es ≡ ready g es
unfolding ready
ready-same g g' [] same = refl
ready-same g g' (e ∷ es) same = rw (same e, ready-same g g' es same) refl

abbrev picked : String → Bool → List String → Fields → String → Option Value
picked command remove es g k =
    if any (λ e. e == k) es then outcome command remove k (lookup k g) else lookup k g

kept_of-picked :
    (command : String) (remove : Bool) (es : List String) (g : Fields) (k : String)
    → kept_of (picked command remove es g k) ≡ kept_of (lookup k g)
kept_of-picked command remove es g k = elim (Bool-cases (any (λ e. e == k) es)) [
  | inl t ↦ rw t (outcome-kept command k remove (lookup k g))
  | inr t ↦ rw t refl
]

kept_of-step :
    (command : String) (remove : Bool) (e : String) (g : Fields) (k : String)
    → kept_of (if e == k then outcome command remove e (lookup e g) else lookup k g)
      ≡ kept_of (lookup k g)
kept_of-step command remove e g k = elim (Bool-cases (e == k)) [
  | inl t ↦
      rw t (outcome-kept command e remove (lookup e g))
      ∙ ap (λ j. kept_of (lookup j g)) ((eq_iff e k).0 t)
  | inr t ↦ rw t refl
]

picked-cons :
    (command : String) (remove : Bool) (e : String) (es : List String) (g g1 : Fields)
    → ((k : String)
        → lookup k g1 ≡ (if e == k then outcome command remove e (lookup e g) else lookup k g))
    → (k : String) → picked command remove es g1 k ≡ picked command remove (e ∷ es) g k
picked-cons command remove e es g g1 step k = elim (Bool-cases (e == k)) [
  | inr f ↦ let same : lookup k g1 ≡ lookup k g = step k ∙ rw f refl in rw (f, same) refl
  | inl t ↦
      let now : lookup k g1 ≡ outcome command remove k (lookup k g) =
        step k ∙ rw t (ap (λ j. outcome command remove j (lookup j g)) ((eq_iff e k).0 t)) in
      (elim (Bool-cases (any (λ j. j == k) es)) [
        | inl u ↦ rw (t, now, u) (outcome_again command command k remove remove (lookup k g))
        | inr u ↦ rw (t, now, u) refl
      ])
]

picked_again :
    (command command' : String) (remove remove' : Bool) (g g1 : Fields) (k : String)
    → lookup k g1 ≡ picked command remove events g k
    → picked command' remove' events g1 k ≡ picked command' remove' events g k
picked_again command command' remove remove' g g1 k found =
    elim (Bool-cases (any (λ e. e == k) events)) [
      | inr f ↦ rw (f, found, f) refl
      | inl t ↦ rw (t, found, t) (outcome_again command command' k remove remove' (lookup k g))
    ]

module _ (command : String) (remove : Bool) where
  -- The loop: where it succeeds, and what it stores.
  merge_events-picked :
      (es : List String) (g g' : Fields)
      → merge_events command remove es g ≡ some g'
      → (ready g es ≡ true) × ((k : String) → lookup k g' ≡ picked command remove es g k)
  unfolding merge_events ready
  merge_events-picked [] g g' h = (refl, λ k. ap (lookup k) (sym (some_inj g g' h)))
  merge_events-picked (e ∷ es) g g' h = elim (Option-cases (merge_event command remove e g)) [
    | inl n ↦ cc (rw (n, merge_events) at h)
    | inr (g1, n) ↦
        let (one, step) = merge_event-some command remove e g g1 n in
        let (rest, found) = merge_events-picked es g1 g' (rw (n, merge_events) at h) in
        let same : (k : String) → kept_of (lookup k g1) ≡ kept_of (lookup k g) =
          λ k. ap kept_of (step k) ∙ kept_of-step command remove e g k in
        (
          rw (one, ← ready-same g g1 es same) rest,
          λ k. found k ∙ picked-cons command remove e es g g1 step k,
        )
  ]

  merge_events-ready :
      (es : List String) (g : Fields)
      → ready g es ≡ true
      → (g' : Fields) × (merge_events command remove es g ≡ some g')
  unfolding merge_events ready
  merge_events-ready [] g h = (g, refl)
  merge_events-ready (e ∷ es) g h =
      let (g1, n) = merge_event-ready command remove e g (and_first _ (ready g es) h) in
      let (one, step) = merge_event-some command remove e g g1 n in
      let same : (k : String) → kept_of (lookup k g1) ≡ kept_of (lookup k g) =
        λ k. ap kept_of (step k) ∙ kept_of-step command remove e g k in
      let (g', m) =
        merge_events-ready es g1 (ready-same g g1 es same ∙ and_second _ (ready g es) h) in
      (g', rw (n, merge_events) m)

-- Two documents that are the same dictionary, with the same dictionary of hooks.
abbrev pub hooks_in : Fields → Fields
hooks_in d = elim (hook_groups d) [ none ↦ end | some g ↦ g ]

pub record SameHooks (a b : Fields) : Type 0 where
  pub others : (k : String) → ("hooks" == k) ≡ false → lookup k a ≡ lookup k b
  pub groups : (k : String) → lookup k (hooks_in a) ≡ lookup k (hooks_in b)

hook_groups-insert : (g d : Fields) → hook_groups (insert "hooks" (obj g) d) ≡ some g
hook_groups-insert g d = rw (hook_groups, lookup-insert "hooks" "hooks" (obj g) d) refl

hooks_in-insert : (g d : Fields) → hooks_in (insert "hooks" (obj g) d) ≡ g
hooks_in-insert g d = rw (hooks_in, hook_groups-insert g d) refl

merge_hooks-events :
    (command : String) (remove : Bool) (d g g' : Fields)
    → hook_groups d ≡ some g
    → merge_events command remove events g ≡ some g'
    → merge_hooks command remove d ≡ some (insert "hooks" (obj g') d)
unfolding merge_hooks
merge_hooks-events command remove d g g' n m = rw (merge_hooks, n, m) refl

-- After a merge of the groups any other can follow, which does not see the first.
merge_events_again :
    (command command' : String) (remove remove' : Bool) (g g1 : Fields)
    → merge_events command remove events g ≡ some g1
    → (g2 : Fields) × (g3 : Fields) × (merge_events command' remove' events g1 ≡ some g2)
      × (merge_events command' remove' events g ≡ some g3)
      × ((k : String) → lookup k g2 ≡ lookup k g3)
merge_events_again command command' remove remove' g g1 h =
    let (one, found) = merge_events-picked command remove events g g1 h in
    let same : (k : String) → kept_of (lookup k g1) ≡ kept_of (lookup k g) =
      λ k. ap kept_of (found k) ∙ kept_of-picked command remove events g k in
    let (g2, m2) =
      merge_events-ready command' remove' events g1 (ready-same g g1 events same ∙ one) in
    let (g3, m3) = merge_events-ready command' remove' events g one in
    let found2 = (merge_events-picked command' remove' events g1 g2 m2).1 in
    let found3 = (merge_events-picked command' remove' events g g3 m3).1 in
    (
      g2,
      g3,
      m2,
      m3,
      λ k.
          found2 k ∙ picked_again command command' remove remove' g g1 k (found k) ∙ sym (found3 k),
    )

-- A merge that succeeded can be followed by any merge, which succeeds and gives the same dictionary as
-- that merge would have given at once: installing twice is installing once, and removing after an installation
-- is removing alone.
pub merge_hooks_again :
    (command command' : String) (remove remove' : Bool) (d d1 : Fields)
    → merge_hooks command remove d ≡ some d1
    → (a : Fields) × (b : Fields) × (merge_hooks command' remove' d1 ≡ some a)
      × (merge_hooks command' remove' d ≡ some b)
      × SameHooks a b
unfolding merge_hooks
merge_hooks_again command command' remove remove' d d1 h = elim (Option-cases (hook_groups d)) [
  | inl n ↦ cc (rw (n, merge_hooks) at h)
  | inr (g, n) ↦ (elim (Option-cases (merge_events command remove events g)) [
    | inl m ↦ cc (rw (n, m, merge_hooks) at h)
    | inr (g1, m) ↦
        let (g2, g3, m2, m3, same) = merge_events_again command command' remove remove' g g1 m in
        let first : insert "hooks" (obj g1) d ≡ d1 = some_inj _ d1 (rw (n, m, merge_hooks) at h) in
        (
          insert "hooks" (obj g2) (insert "hooks" (obj g1) d),
          insert "hooks" (obj g3) d,
          rw (← first) (
              merge_hooks-events command' remove' (insert "hooks" (obj g1) d) g1 g2
                (hook_groups-insert g1 d) m2),
          merge_hooks-events command' remove' d g g3 n m3,
          record {
            others = λ k f.
                lookup-insert_ne "hooks" k (obj g2) (insert "hooks" (obj g1) d) f
                ∙ lookup-insert_ne "hooks" k (obj g1) d f
                ∙ sym (lookup-insert_ne "hooks" k (obj g3) d f);
            groups = λ k.
                ap (lookup k) (hooks_in-insert g2 (insert "hooks" (obj g1) d))
                ∙ same k
                ∙ ap (lookup k) (sym (hooks_in-insert g3 d));
          },
        )
  ])
]
