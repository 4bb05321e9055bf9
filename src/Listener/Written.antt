-- ===== src/Listener/Written.antt =====
-- The writes at the end of `start_bridge` of src/peer_chat.py: the configuration, the seed of the lifecycle
-- and `stop`.
use peer_chat.Base.{
  String, ◌≡◌, refl, sym, ◌∙◌, Bool, true, false, Option, none, some, ◌==◌, some_inj, ◌⊎◌, inl, inr,
}
use mathlib.Core.Path.{subst}
use peer_chat.Base.Json.{Value, null, bool, obj, Fields, truthy}
use peer_chat.Store.{Store, get, put}
use peer_chat.Peers.{Host, all_peers, normalise, enroll, enrolled_config}
use peer_chat.Registry.{seed_lifecycle, seed_evidence}
use peer_chat.Registry.Seed.{seed_lifecycle-Framed}
use peer_chat.Listener.Begin.{
  Chosen, nobody, unavailable, chosen, Ask, begun, Ending, running, stuck, launching, hand_over,
  is_current, with_default, set_delivery, set_budget, set_peers, finish,
}

-- The three tables are as they were.
pub record SameRows (s s' : Store) : Type 0 where
  pub messages : s'.messages ≡ s.messages
  pub outgoing : s'.outgoing ≡ s.outgoing
  pub timing : s'.timing ≡ s.timing

pub same-SameRows : (s : Store) → SameRows s s
same-SameRows s = record { messages = refl; outgoing = refl; timing = refl }

pub SameRows-trans : (s t u : Store) → SameRows s t → SameRows t u → SameRows s u
SameRows-trans s t u f g = record {
  messages = g.messages ∙ f.messages;
  outgoing = g.outgoing ∙ f.outgoing;
  timing = g.timing ∙ f.timing;
}

-- A store that has the configuration, and else is as another one was.
pub record Configured (s : Store) (config : Fields) (s' : Store) : Type 0 where
  pub stored : get s' "config" null ≡ obj config
  pub others : (k : String) → ("config" == k) ≡ false → s'.meta k ≡ s.meta k
  pub rows : SameRows s s'

put-Configured :
    (config earlier : Fields) (s t : Store)
    → Configured s earlier t
    → Configured s config (put "config" (obj config) t)
put-Configured config earlier s t c = record {
  stored = refl;
  others = λ k n. rw n (c.others k n);
  rows = record { messages = c.rows.messages; outgoing = c.rows.outgoing; timing = c.rows.timing };
}

set-Configured : (config : Fields) (s : Store) → Configured s config (put "config" (obj config) s)
set-Configured config s = record {
  stored = refl;
  others = λ k n. rw n;
  rows = record { messages = refl; outgoing = refl; timing = refl };
}

config_of : (h h' : Ending) (c d : Fields) (s t : Store) → begun h c s ≡ begun h' d t → c ≡ d
config_of h h' c d s t e = cc

store_of : (h h' : Ending) (c d : Fields) (s t : Store) → begun h c s ≡ begun h' d t → s ≡ t
store_of h h' c d s t e = cc

-- What the end of the start does to a store in which the configuration was written: a seed, and `stop`.
pub record Ended (saved : Value) (s : Store) (config : Fields) (s' : Store) : Type 0 where
  pub written : Store
  pub wrote : Configured s config written
  pub rows : SameRows written s'
  pub others :
      (k : String)
      → ("phase" == k) ≡ false
      → ("hook_seen" == k) ≡ false
      → ("stop" == k) ≡ false
      → s'.meta k ≡ written.meta k
  pub either :
      ((s'.meta "phase" ≡ written.meta "phase") × (s'.meta "hook_seen" ≡ written.meta "hook_seen"))
      ⊎ (s'.meta "hook_seen" ≡ some (seed_evidence saved))

-- Only the key `stop` differs.
record Stopped (s s' : Store) : Type 0 where
  rows : SameRows s s'
  others : (k : String) → ("stop" == k) ≡ false → s'.meta k ≡ s.meta k

same-Stopped : (s : Store) → Stopped s s
same-Stopped s = record { rows = same-SameRows s; others = λ k n. refl }

put-Stopped : (v : Value) (s t : Store) → Stopped s t → Stopped s (put "stop" v t)
put-Stopped v s t h = record {
  rows = record { messages = h.rows.messages; outgoing = h.rows.outgoing; timing = h.rows.timing };
  others = λ k n. rw n (h.others k n);
}

hand_over-Stopped :
    (live current leaves : Bool) (c config : Fields) (how : Ending) (s s' : Store)
    → hand_over live current leaves c s ≡ begun how config s'
    → (c ≡ config) × Stopped s s'
unfolding hand_over
hand_over-Stopped live current leaves c config how s s' h = go live current leaves h
  where
    made :
        (e : Ending) (t : Store)
        → Stopped s t
        → begun e c t ≡ begun how config s'
        → (c ≡ config) × Stopped s s'
    made e t k h =
        (config_of e how c config t s' h, subst (Stopped s) (store_of e how c config t s' h) k)

    go :
        (live current leaves : Bool)
        → hand_over live current leaves c s ≡ begun how config s'
        → (c ≡ config) × Stopped s s'
    go true true leaves h = made running s (same-Stopped s) h
    go true false true h =
        made launching _
          (put-Stopped (bool false) s _ (put-Stopped (bool true) s s (same-Stopped s))) h
    go true false false h = made stuck _ (put-Stopped (bool true) s s (same-Stopped s)) h
    go false current leaves h = made launching _ (put-Stopped (bool false) s s (same-Stopped s)) h

module _ (host : Host) where
  enroll-Configured :
      (peer : Value) (config : Fields) (s : Store) (r : Fields × Store)
      → enroll host peer (put "config" (obj config) s) ≡ some r
      → Configured s r.0 r.1
  unfolding enroll
  enroll-Configured peer config s r h = go (normalise host peer) h
    where
      entered : Fields → Fields
      entered d = enrolled_config host d (obj config)

      go :
          (d : Option Fields)
          → elim d as (λ x. Option (Fields × Store)) [
            | none ↦ none
            | some d ↦
                some (entered d, put "config" (obj (entered d)) (put "config" (obj config) s))
          ]
            ≡ some r
          → Configured s r.0 r.1
      go none e = cc
      go (some d) e =
          subst (λ (x : Fields × Store). Configured s x.0 x.1) (some_inj _ _ e)
            (put-Configured (entered d) config s _ (set-Configured config s))

  pub set_peers-Configured :
      (c : Chosen) (config : Fields) (s : Store) (r : Fields × Store)
      → set_peers host c config s ≡ some r
      → Configured s r.0 r.1
  set_peers-Configured nobody config s r h =
      subst (λ (x : Fields × Store). Configured s x.0 x.1) (some_inj _ _ h) (set-Configured _ s)
  set_peers-Configured (unavailable reason) config s r h =
      subst (λ (x : Fields × Store). Configured s x.0 x.1) (some_inj _ _ h) (set-Configured _ s)
  set_peers-Configured (chosen peer) config s r h = enroll-Configured peer config s r h

  pub finish-Ended :
      (a : Ask) (previous runtime : Value) (s : Store) (o : Option (Fields × Store)) (how : Ending)
      (config : Fields) (s' : Store)
      → ((r : Fields × Store) → o ≡ some r → Configured s r.0 r.1)
      → truthy previous ≡ true
      → a.budget ≡ none
      → finish host a previous runtime o ≡ begun how config s'
      → Ended a.earlier.saved s config s'
  finish-Ended a previous runtime s none how config s' f t b h = cc
  finish-Ended a previous runtime s (some (d, k)) how config s' f t b h =
      let (same, stopped) =
        hand_over-Stopped a.live (is_current runtime) a.leaves final config how
          (seed_lifecycle a.earlier written).1 s' h in
      let framed = seed_lifecycle-Framed a.earlier written in
      record {
        written = written;
        wrote =
            subst (λ c. Configured s c written) same
              (subst (Configured s final) (sym unset) (put-Configured final d s k (f (d, k) refl)));
        rows =
            SameRows-trans written (seed_lifecycle a.earlier written).1 s'
              (record {
                messages = framed.messages;
                outgoing = framed.outgoing;
                timing = framed.timing;
              })
              stopped.rows;
        others = λ k p q n. stopped.others k n ∙ framed.others k p q;
        either = elim framed.either [
          | inl (p, q) ↦ inl (stopped.others "phase" refl ∙ p, stopped.others "hook_seen" refl ∙ q)
          | inr q ↦ inr (stopped.others "hook_seen" refl ∙ q)
        ];
      }
    where
      final : Fields
      final = with_default (all_peers host (obj d)) d

      written : Store
      written = set_budget a.budget previous (set_delivery a previous (put "config" (obj final) k))

      unset : written ≡ put "config" (obj final) k
      unset = rw (b, t)
