-- ===== src/Examples/Turns.antt =====
-- A turn that ended without a hook.
use peer_chat.Base.{ℕ, ◌≡◌, refl, ◌⊎◌, String, true, false, some, [], ◌∷◌}
use peer_chat.Base.Json.{Value, real, str, obj, end, field, member}
use peer_chat.Store.{Store, put}
use peer_chat.Lifecycle.{
  Rollout, turn_end_evidence, evidence_of, is_open_turn, time_of, may_reconcile, reconcile,
}
use peer_chat.Lifecycle.Ending.{Ended, turn_end_evidence-Ended}
use peer_chat.Lifecycle.Reconcile.{reconcile-phase, is_ripe, Reconciled}
use peer_chat.Examples.{empty}

abbrev ending : Value
ending = obj (
    field "type" (str "event_msg") (
      field "payload" (obj (field "type" (str "turn_aborted") (field "turn_id" (str "t1") end)))
        end))

abbrev tokens : Value
tokens = obj (
    field "type" (str "event_msg")
      (field "payload" (obj (field "type" (str "token_count") end)) end))

abbrev rollout : Rollout
rollout = record { records = some (ending ∷ tokens ∷ []); stamp = λ r. some 7 }

abbrev owned : Value
owned = obj (field "owner_identity" (str "o") end)

abbrev seen : Value
seen = obj (
    field "routing" (str "matched") (
      field "event" (str "PostToolUse")
        (field "turn" (str "t1") (field "at" (real 5) (field "owner_identity" (str "o") end)))))

abbrev found : Value
found = evidence_of owned ending "t1" 7 5

turn_end_evidence-Ended_example :
    (turn : String) × (hook_at : ℕ) × (member seen "turn" ≡ str turn)
    × (time_of (member seen "at") ≡ some hook_at)
    × (is_open_turn owned seen (str "o") ≡ true)
    × Ended rollout owned turn hook_at 9 found
unfolding turn_end_evidence member peer_chat.Lifecycle.scan_records peer_chat.Lifecycle.judge_ending
turn_end_evidence-Ended_example = turn_end_evidence-Ended rollout (str "o") 9 owned seen found refl

abbrev active : Store
active = put "phase" (str "active") (put "hook_seen" seen empty)

abbrev reconciled : Store
reconciled = (reconcile (some found) false true active active).1

reconcile-phase_example :
    ((reconcile (some found) false true active active ≡ (false, active))
      × (is_ripe (some found) true active active ≡ false))
    ⊎ Reconciled (some found) true active active (reconcile (some found) false true active active)
reconcile-phase_example = reconcile-phase (some found) false true active active
