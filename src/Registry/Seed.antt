-- ===== src/Registry/Seed.antt =====
-- `seed_lifecycle` of src/peer_registry.py.
use peer_chat.Base.{
  ℕ, ◌≤◌, String, ◌≡◌, refl, Bool, true, false, not, ◌&&◌, Option, none, some, arith, if◌then◌else◌,
  leb, Bool-cases, inl, inr, is_some, ◌⊎◌, ◌==◌,
}
use peer_chat.Base.Json.{Value, null, int, real, str, member, is_text, is_obj, lookup}
use peer_chat.Base.Text.{is_uuid}
use peer_chat.Store.{Store, get, put}
use peer_chat.Budget.{is_lifecycle_event, is_number, lifecycle_observed}
use peer_chat.Lifecycle.{time_of}
use peer_chat.Registry.{
  Earlier, is_seed, is_superseded, seed_at, seed_lifecycle, seed_evidence, seed_phase,
  saved_payload, routing_rejection, is_same_owner,
}

time_of-number : (v : Value) (t : ℕ) → time_of v ≡ some t → is_number v ≡ true
time_of-number (int n) t h = refl
time_of-number (real n) t h = refl
time_of-number null t h = cc
time_of-number v t h = cc

-- A seed that is taken: when, for which thread, and what it leaves.
pub record Seeded (e : Earlier) (s s' : Store) : Type 0 where
  pub thread : String
  pub at : ℕ
  pub saved_at : time_of (member e.saved "at") ≡ some at
  pub past : at ≤ e.now
  pub same_owner : is_same_owner e.saved (get s "config" null) e.owner ≡ true
  pub routed :
      is_some (routing_rejection e.routes false (saved_payload thread e.saved) thread) ≡ false
  pub newest : is_superseded (get s "hook_seen" null) (get s "config" null) at ≡ false
  pub observed : lifecycle_observed (get s') ≡ true
  pub messages : s.messages ≡ s'.messages

evidence-observed :
    (saved : Value) (at : ℕ) (phase : String) (s : Store)
    → time_of (member saved "at") ≡ some at
    → is_text (member saved "routing") "matched" ≡ true
    → is_lifecycle_event (member saved "event") ≡ true
    → lifecycle_observed (get (put "phase" (str phase) (put "hook_seen" (seed_evidence saved) s)))
      ≡ true
unfolding lifecycle_observed member lookup
evidence-observed saved at phase s t r e = rw r (rw e (time_of-number (member saved "at") at t))

parts :
    (a b c d l r n : Bool)
    → ((a && (b && (c && (d && (l && not r))))) && not n) ≡ true
    → (b ≡ true) × (c ≡ true) × (d ≡ true) × (l ≡ true) × (r ≡ false) × (n ≡ false)
parts a b c d l r n h =
    (ground arith, ground arith, ground arith, ground arith, ground arith, ground arith)

leb→≤ : (a b : ℕ) → leb a b ≡ true → a ≤ b
leb→≤ a b h = ground arith

seed_at-Seeded :
    (e : Earlier) (thread : String) (at : ℕ) (s : Store)
    → time_of (member e.saved "at") ≡ some at
    → (seed_at e thread at (get s "config" null) s).0 ≡ true
    → Seeded e s (seed_at e thread at (get s "config" null) s).1
seed_at-Seeded e thread at s t h =
    elim (Bool-cases (
      is_seed e thread at (get s "config" null)
      && not (is_superseded (get s "hook_seen" null) (get s "config" null) at))) [
        | inr b ↦ cc (rw b at h)
        | inl b ↦
            let all = parts (is_obj e.saved) _ _ _ _ _ _ b in
            rw b (record {
              thread = thread;
              at = at;
              saved_at = t;
              past = leb→≤ at e.now all.3;
              same_owner = all.0;
              routed = all.4;
              newest = all.5;
              observed =
                  evidence-observed e.saved at (seed_phase (member e.saved "event")) s t all.1
                    all.2;
              messages = refl;
            })
      ]

-- The change of a store by a seed: none, or a phase and the evidence of the saved hook.
pub record Framed (saved : Value) (s s' : Store) : Type 0 where
  pub messages : s'.messages ≡ s.messages
  pub outgoing : s'.outgoing ≡ s.outgoing
  pub timing : s'.timing ≡ s.timing
  pub others :
      (k : String) → ("phase" == k) ≡ false → ("hook_seen" == k) ≡ false → s'.meta k ≡ s.meta k
  pub either :
      ((s'.meta "phase" ≡ s.meta "phase") × (s'.meta "hook_seen" ≡ s.meta "hook_seen"))
      ⊎ (s'.meta "hook_seen" ≡ some (seed_evidence saved))

same-Framed : (saved : Value) (s : Store) → Framed saved s s
same-Framed saved s = record {
  messages = refl;
  outgoing = refl;
  timing = refl;
  others = λ k p h. refl;
  either = inl (refl, refl);
}

seed_at-Framed :
    (e : Earlier) (thread : String) (at : ℕ) (s : Store)
    → Framed e.saved s (seed_at e thread at (get s "config" null) s).1
seed_at-Framed e thread at s =
    elim (Bool-cases (
      is_seed e thread at (get s "config" null)
      && not (is_superseded (get s "hook_seen" null) (get s "config" null) at))) [
        | inr b ↦ rw b (same-Framed e.saved s)
        | inl b ↦ rw b (record {
          messages = refl;
          outgoing = refl;
          timing = refl;
          others = λ k p h. rw (p, h);
          either = inr refl;
        })
      ]

pub seed_lifecycle-Framed : (e : Earlier) (s : Store) → Framed e.saved s (seed_lifecycle e s).1
unfolding seed_lifecycle
seed_lifecycle-Framed e s = by_thread (member (get s "config" null) "thread")
  where
    by_time :
        (thread : String) (t : Option ℕ)
        → Framed e.saved s
            (elim t as (λ x. Bool × Store) [
              | some at ↦
                  if is_uuid thread then seed_at e thread at (get s "config" null) s else (false, s)
              | none ↦ (false, s)
            ]).1
    by_time thread none = same-Framed e.saved s
    by_time thread (some at) = elim (Bool-cases (is_uuid thread)) [
      | inl u ↦ rw u (seed_at-Framed e thread at s)
      | inr u ↦ rw u (same-Framed e.saved s)
    ]

    by_thread :
        (v : Value)
        → Framed e.saved s
            (elim v as (λ x. Bool × Store) [
              | str thread ↦ (elim (time_of (member e.saved "at")) [
                | some at ↦
                    if is_uuid thread
                    then seed_at e thread at (get s "config" null) s
                    else (false, s)
                | none ↦ (false, s)
              ])
              | _ ↦ (false, s)
            ]).1
    by_thread (str thread) = by_time thread (time_of (member e.saved "at"))
    by_thread null = same-Framed e.saved s
    by_thread v = same-Framed e.saved s

-- A seed is taken only from a hook of the same living owner, not later than now and routed to the
-- thread, which no hook of the bridge supersedes; then the lifecycle counts as observed, and no
-- message has changed.
pub seed_lifecycle-Seeded :
    (e : Earlier) (s : Store) → (seed_lifecycle e s).0 ≡ true → Seeded e s (seed_lifecycle e s).1
unfolding seed_lifecycle
seed_lifecycle-Seeded e s h = by_thread (member (get s "config" null) "thread") h
  where
    by_time :
        (thread : String) (t : Option ℕ)
        → time_of (member e.saved "at") ≡ t
        → (elim t as (λ x. Bool × Store) [
          | some at ↦
              if is_uuid thread then seed_at e thread at (get s "config" null) s else (false, s)
          | none ↦ (false, s)
        ]).0
          ≡ true
        → Seeded e s
            (elim t as (λ x. Bool × Store) [
              | some at ↦
                  if is_uuid thread then seed_at e thread at (get s "config" null) s else (false, s)
              | none ↦ (false, s)
            ]).1
    by_time thread none f k = cc
    by_time thread (some at) f k = elim (Bool-cases (is_uuid thread)) [
      | inl u ↦ rw u (seed_at-Seeded e thread at s f (rw u at k))
      | inr u ↦ cc (rw u at k)
    ]

    by_thread :
        (v : Value)
        → (elim v as (λ x. Bool × Store) [
          | str thread ↦ (elim (time_of (member e.saved "at")) [
            | some at ↦
                if is_uuid thread then seed_at e thread at (get s "config" null) s else (false, s)
            | none ↦ (false, s)
          ])
          | _ ↦ (false, s)
        ]).0
          ≡ true
        → Seeded e s
            (elim v as (λ x. Bool × Store) [
              | str thread ↦ (elim (time_of (member e.saved "at")) [
                | some at ↦
                    if is_uuid thread
                    then seed_at e thread at (get s "config" null) s
                    else (false, s)
                | none ↦ (false, s)
              ])
              | _ ↦ (false, s)
            ]).1
    by_thread (str thread) k = by_time thread (time_of (member e.saved "at")) refl k
    by_thread null k = cc
    by_thread v k = cc
