-- ===== src/Setup/Retain.antt =====
-- What `merge_hooks` of src/peer_setup.py keeps of the groups of an event.
use mathlib.Core.Path.{subst}
use peer_chat.Base.{
  String, ◌≡◌, refl, ap, ◌∙◌, Bool, true, false, Option, none, some, arith, if◌then◌else◌, ◌==◌,
  eq_iff, Option-cases, inl, inr, some_inj,
}
use peer_chat.Base.Json.{
  Value, null, arr, obj, Fields, end, field, Items, no_items, item, lookup, insert, member, is_text,
  lookup-insert, insert_same,
}
use peer_chat.Setup.{
  marker, remove, entries, get_list, foreign, foreign_handlers, keep_group, retained, append,
  with_ours, store_groups, hook_definition,
}

lookup-remove :
    (k j : String) (d : Fields) → lookup j (remove k d) ≡ (if k == j then none else lookup j d)
unfolding lookup remove
lookup-remove k j end = ground arith
lookup-remove k j (field i w d) =
    ground (arith, eq_iff k j, eq_iff i k, eq_iff i j, lookup-remove k j d)

-- What is kept is kept again.
kept_again :
    (d : Fields) (kept : Items) (b : Bool)
    → b ≡ is_text (member (obj d) "statusMessage") marker
    → foreign kept ≡ some kept
    → foreign (if b then kept else item (obj d) kept) ≡ some (if b then kept else item (obj d) kept)
unfolding foreign
kept_again d kept true e h = h
kept_again d kept false e h = rw (h, ← e, foreign) refl

foreign_again : (hs : Items) (ks : Items) → foreign hs ≡ some ks → foreign ks ≡ some ks
unfolding foreign
foreign_again no_items ks h = ground arith
foreign_again (item (obj d) rest) ks h = elim (Option-cases (foreign rest)) [
  | inl e ↦ cc (rw (e, foreign) at h)
  | inr (kept, e) ↦
      subst (λ k. foreign k ≡ some k) (some_inj _ ks (rw (e, foreign) at h))
        (kept_again d kept _ refl (foreign_again rest kept e))
]
foreign_again (item null rest) ks h = cc
foreign_again (item _ rest) ks h = cc

pub foreign_handlers_lem :
    (group : Fields) (hs : Items)
    → foreign hs ≡ some hs
    → foreign_handlers (insert "hooks" (arr hs) group) ≡ some hs
unfolding foreign_handlers
foreign_handlers_lem group hs h =
    rw (foreign_handlers, lookup-insert "hooks" "hooks" (arr hs) group) h

keep_group-retained :
    (group : Fields) (hs kept : Items)
    → foreign hs ≡ some hs
    → retained kept ≡ some kept
    → retained (keep_group group hs kept) ≡ some (keep_group group hs kept)
unfolding retained
keep_group-retained group no_items kept h r = r
keep_group-retained group (item x hs) kept h r =
    rw (retained, keep_group, foreign_handlers_lem group (item x hs) h, r)
      (ap (λ d. some (item (obj d) kept))
        (insert_same "hooks" (arr (item x hs)) (insert "hooks" (arr (item x hs)) group)
          (lookup-insert "hooks" "hooks" (arr (item x hs)) group)))

foreign_handlers-again :
    (group : Fields) (hs : Items) → foreign_handlers group ≡ some hs → foreign hs ≡ some hs
unfolding foreign_handlers
foreign_handlers-again group hs h = elim (Option-cases (entries (get_list "hooks" group))) [
  | inl e ↦ cc (rw (e, foreign_handlers) at h)
  | inr (old, e) ↦ foreign_again old hs (rw (e, foreign_handlers) at h)
]

pub retained_again : (gs : Items) (ks : Items) → retained gs ≡ some ks → retained ks ≡ some ks
unfolding retained
retained_again no_items ks h = ground arith
retained_again (item (obj d) rest) ks h = elim (Option-cases (foreign_handlers d)) [
  | inl e ↦ cc (rw (e, retained) at h)
  | inr (hs, e) ↦ (elim (Option-cases (retained rest)) [
    | inl f ↦ cc (rw (e, f, retained) at h)
    | inr (kept, f) ↦
        subst (λ k. retained k ≡ some k) (some_inj _ ks (rw (e, f, retained) at h))
          (keep_group-retained d hs kept (foreign_handlers-again d hs e)
            (retained_again rest kept f))
  ])
]
retained_again (item null rest) ks h = cc
retained_again (item _ rest) ks h = cc

retained-ours :
    (command event : String)
    → retained (item (hook_definition command event) no_items) ≡ some no_items
unfolding retained foreign_handlers foreign lookup member
retained-ours command event = refl

-- Adding the bridge's own group changes nothing of what is kept.
retained-append :
    (command event : String) (gs ks : Items)
    → retained gs ≡ some ks
    → retained (append gs (hook_definition command event)) ≡ some ks
unfolding retained
retained-append command event no_items ks h = retained-ours command event ∙ h
retained-append command event (item (obj d) rest) ks h = elim (Option-cases (foreign_handlers d)) [
  | inl e ↦ cc (rw (e, retained) at h)
  | inr (hs, e) ↦ (elim (Option-cases (retained rest)) [
    | inl f ↦ cc (rw (e, f, retained) at h)
    | inr (kept, f) ↦
        rw (e, retained, retained-append command event rest kept f) (rw (e, f, retained) at h)
  ])
]
retained-append command event (item null rest) ks h = cc
retained-append command event (item _ rest) ks h = cc

pub with_ours-retained :
    (command event : String) (remove : Bool) (gs ks : Items)
    → retained gs ≡ some ks
    → retained (with_ours command remove event gs) ≡ some ks
with_ours-retained command event true gs ks h = h
with_ours-retained command event false gs ks h = retained-append command event gs ks h

-- The groups under a key after its groups were stored_value.
unfoldable pub stored_value : Items → Option Value
stored_value no_items = none
stored_value (item g gs) = some (arr (item g gs))

pub lookup-store_groups :
    (event k : String) (gs : Items) (d : Fields)
    → lookup k (store_groups event gs d) ≡ (if event == k then stored_value gs else lookup k d)
unfolding stored_value
lookup-store_groups event k no_items d = lookup-remove event k d
lookup-store_groups event k (item g gs) d = lookup-insert event k (arr (item g gs)) d
