-- ===== src/Observe/Evidence.antt =====
-- The evidence of an ended turn in `snapshot` of src/peer_observe.py, and the delivery state that is shown.
use peer_chat.Base.{
  String, Bool, true, false, ◌&&◌, ◌||◌, Option, none, some, if◌then◌else◌, ◌==◌, is_some, ltb,
  nat_eq,
}
use peer_chat.Base.Int.{pos, negsuc}
use peer_chat.Base.Json.{Value, null, int, str, obj, end, member, is_obj, is_text, or_else}
use peer_chat.Budget.{Getter, DeliveryState}
use peer_chat.Lifecycle.{ended_phase, time_of}
use peer_chat.Registry.{same_plain}
use peer_chat.Observe.Shown.{RuntimeState, Delivery}

-- `_MetaView.get`
abbrev pub view : (String → Value) → Getter
view meta key default = elim (meta key) [ null ↦ default | v ↦ v ]

abbrev pub set_phase : String → (String → Value) → String → Value
set_phase phase meta key = if key == "phase" then str phase else meta key

abbrev pub is_active_phase : Value → Bool
is_active_phase phase = is_text phase "active" || is_text phase "idle"

abbrev pub same_time : Value → Value → Bool
same_time a b = elim (time_of a) [
  | none ↦ same_plain a b
  | some t ↦ (elim (time_of b) [ none ↦ false | some u ↦ nat_eq t u ])
]

-- The evidence that `reconcile` left, of the hook and the owner that are current.
abbrev pub reconciled : Value → Value → Value → Option Value
reconciled config seen e =
    if is_obj e
      && (is_obj seen
          && (same_plain (member e "turn") (member seen "turn")
              && (same_time (member e "hook_at") (member seen "at")
                  && same_plain (member e "owner_identity") (member config "owner_identity"))))
    then some e
    else none

-- The phase as the evidence corrects it, and the evidence that is shown.
unfoldable pub with_evidence :
    (Value → Value → Option Value) → (String → Value) → (String → Value) × Option Value
with_evidence evidence meta =
    let seen = or_else (meta "hook_seen") (obj end) in
    if is_active_phase (meta "phase")
    then elim (evidence (meta "config") seen) [
      | none ↦ (meta, none)
      | some e ↦ (set_phase (ended_phase e) meta, some e)
    ]
    else (meta, reconciled (meta "config") seen (meta "lifecycle_reconciled"))

-- `protocol_version` is a whole number, as a listener writes it; without one it is 1.
abbrev pub is_old : Value → Bool
is_old runtime = elim (member runtime "protocol_version") [
  | null ↦ true
  | int n ↦ (elim n [ pos k ↦ ltb k 6 | negsuc k ↦ true ])
  | _ ↦ false
]

-- `delivery_state` of the row, for the runtime state and the state of the store.
unfoldable pub show_delivery : RuntimeState → DeliveryState → Option Value → Value → Delivery
show_delivery RuntimeState.running d evidence runtime =
    if is_some evidence && is_old runtime
    then elim d [
      | DeliveryState.idle_wake_enabled ↦ Delivery.awaiting_listener_upgrade
      | other ↦ Delivery.stored other
    ]
    else Delivery.stored d
show_delivery r d evidence runtime = Delivery.offline r
