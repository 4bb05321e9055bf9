-- ===== src/Listener/Carried.antt =====
-- What `start_bridge` of src/peer_chat.py keeps of an earlier bridge.
use peer_chat.Base.{
  String, ◌≡◌, refl, ap, ◌∙◌, Bool, true, false, ◌&&◌, Option, none, some, ◌==◌, ◌⊎◌, inl, inr,
}
use peer_chat.Base.Json.{Value, null, str, obj, Fields, truthy}
use peer_chat.Store.{Store, get}
use peer_chat.Peers.{Host}
use peer_chat.Peers.Resolve.{first_reason}
use peer_chat.Registry.{seed_evidence}
use peer_chat.Listener.Begin.{
  Ask, begun, Ending, is_new_owner, is_seen, reset, reset_owner, write_bridge, unless, reasons,
  begin,
}
use peer_chat.Listener.Written.{
  SameRows, same-SameRows, SameRows-trans, Ended, set_peers-Configured, finish-Ended,
}

-- What an added peer, an upgrade or a new owner leaves of a bridge, and what a new owner does not take over.
pub record Carried (a : Ask) (s : Store) (config : Fields) (s' : Store) : Type 0 where
  pub stored : get s' "config" null ≡ obj config
  pub rows : SameRows s s'
  pub others :
      (k : String)
      → ("config" == k) ≡ false
      → ("stop" == k) ≡ false
      → ("phase" == k) ≡ false
      → ("hook_seen" == k) ≡ false
      → ("wake_pending" == k) ≡ false
      → s'.meta k ≡ s.meta k
  pub woken : is_new_owner a (get s "config" null) ≡ true → s'.meta "wake_pending" ≡ none
  pub unseen :
      is_new_owner a (get s "config" null) ≡ true
      → is_seen a s ≡ false
      → ((s'.meta "phase" ≡ some (str "unknown")) × (s'.meta "hook_seen" ≡ none))
        ⊎ (s'.meta "hook_seen" ≡ some (seed_evidence a.earlier.saved))
  pub waking :
      is_new_owner a (get s "config" null) ≡ false → s'.meta "wake_pending" ≡ s.meta "wake_pending"
  pub lifecycle :
      is_new_owner a (get s "config" null) ≡ false
      → ((s'.meta "phase" ≡ s.meta "phase") × (s'.meta "hook_seen" ≡ s.meta "hook_seen"))
        ⊎ (s'.meta "hook_seen" ≡ some (seed_evidence a.earlier.saved))

same_config :
    (config : Fields) (s s' : Store)
    → s'.meta "config" ≡ s.meta "config"
    → get s "config" null ≡ obj config
    → get s' "config" null ≡ obj config
same_config config s s' e h =
    ap (λ (o : Option Value). elim o as (λ x. Value) [ none ↦ null | some v ↦ v ]) e ∙ h

-- The keys of a reset, and those that it leaves.
reset-others :
    (new seen : Bool) (s : Store) (k : String)
    → ("phase" == k) ≡ false
    → ("hook_seen" == k) ≡ false
    → ("wake_pending" == k) ≡ false
    → (reset new seen s).meta k ≡ s.meta k
unfolding reset
reset-others false seen s k p h w = refl
reset-others true true s k p h w = rw w
reset-others true false s k p h w = rw (w, h, p)

reset-rows : (new seen : Bool) (s : Store) → SameRows s (reset new seen s)
unfolding reset
reset-rows false seen s = same-SameRows s
reset-rows true true s = record { messages = refl; outgoing = refl; timing = refl }
reset-rows true false s = record { messages = refl; outgoing = refl; timing = refl }

reset-woken :
    (new seen : Bool) (s : Store) → new ≡ true → (reset new seen s).meta "wake_pending" ≡ none
unfolding reset
reset-woken false seen s e = cc
reset-woken true true s e = refl
reset-woken true false s e = refl

reset-unseen :
    (new seen : Bool) (s : Store)
    → new ≡ true
    → seen ≡ false
    → ((reset new seen s).meta "phase" ≡ some (str "unknown"))
      × ((reset new seen s).meta "hook_seen" ≡ none)
unfolding reset
reset-unseen false seen s e f = cc
reset-unseen true true s e f = cc
reset-unseen true false s e f = (refl, refl)

reset-same : (new seen : Bool) (s : Store) → new ≡ false → reset new seen s ≡ s
unfolding reset
reset-same false seen s e = refl
reset-same true seen s e = cc

module _ (host : Host) where
  -- A bridge that is started again, without a new allowance, keeps all rows of the three tables and every key
  -- but config, stop, phase, hook_seen and wake_pending, its delivery mode and its allowances among them.
  -- For the same owner the marker of a wake stays too, and so do the phase and the hook that was seen, unless
  -- hook_seen is now the evidence of the saved hook. A new owner does not take over the marker, nor, where
  -- the hook that was seen is not its own, the phase and that hook: they are unknown and none, unless
  -- hook_seen is that evidence.
  pub begin-Carried :
      (a : Ask) (s : Store) (how : Ending) (config : Fields) (s' : Store)
      → truthy (get s "config" null) ≡ true
      → a.budget ≡ none
      → begin host a s ≡ begun how config s'
      → Carried a s config s'
  unfolding begin write_bridge
  begin-Carried a s how config s' t b h = by_reason (first_reason (reasons host a s)) h
    where
      previous : Value
      previous = get s "config" null

      new : Bool
      new = truthy previous && is_new_owner a previous

      seen : Bool
      seen = is_seen a s

      changed : (b : Bool) → is_new_owner a previous ≡ b → new ≡ b
      changed b n = ap (λ c. c && is_new_owner a previous) t ∙ n

      kept : new ≡ false → (k : String) → (reset new seen s).meta k ≡ s.meta k
      kept n k = ap (λ (u : Store). u.meta k) (reset-same new seen s n)

      carried : Ended a.earlier.saved (reset_owner a previous s) config s' → Carried a s config s'
      carried c =
          let wrote = c.wrote in
          record {
            stored =
                same_config config c.written s' (c.others "config" refl refl refl) wrote.stored;
            rows =
                SameRows-trans s (reset new seen s) s' (reset-rows new seen s)
                  (SameRows-trans (reset new seen s) c.written s' wrote.rows c.rows);
            others = λ k n x p q w.
                c.others k p q x ∙ (wrote.others k n ∙ reset-others new seen s k p q w);
            woken = λ n.
                c.others "wake_pending" refl refl refl
                ∙ (wrote.others "wake_pending" refl ∙ reset-woken new seen s (changed true n));
            unseen = λ n f.
                let (p, q) = reset-unseen new seen s (changed true n) f in
                elim c.either [
                  | inl (x, y) ↦
                      inl (
                        x ∙ (wrote.others "phase" refl ∙ p),
                        y ∙ (wrote.others "hook_seen" refl ∙ q),
                      )
                  | inr y ↦ inr y
                ];
            waking = λ n.
                c.others "wake_pending" refl refl refl
                ∙ (wrote.others "wake_pending" refl ∙ kept (changed false n) "wake_pending");
            lifecycle = λ n.
                let same = kept (changed false n) in
                elim c.either [
                  | inl (x, y) ↦ inl (
                    x ∙ (wrote.others "phase" refl ∙ same "phase"),
                    y ∙ (wrote.others "hook_seen" refl ∙ same "hook_seen"),
                  )
                  | inr y ↦ inr y
                ];
          }

      by_reason :
          (o : Option String) → unless host a s o ≡ begun how config s' → Carried a s config s'
      by_reason (some reason) e = cc
      by_reason none e = carried (
          finish-Ended host a previous _ (reset_owner a previous s) _ how config s'
            (λ r k. set_peers-Configured host a.peer _ (reset_owner a previous s) r k) t b e)
