-- ===== src/Budget.antt =====
-- src/peer_budget.py: allowances, the owner's renewal, and the state of delivery. `store` is used
-- there only through `get`, which src/peer_observe.py passes over a snapshot, so it is a function.
pub mod Allowance
pub mod Renewal
use peer_chat.Base.{
  ℕ, String, Bool, true, false, not, ◌&&◌, ◌||◌, Option, none, some, List, [], ◌∷◌, min,
  if◌then◌else◌, ◌==◌, any,
}
use peer_chat.Base.Int.{ℤ, pos, to_ℕ, pred_or_zero, is_positive, is_within}
use peer_chat.Base.Json.{Value, null, bool, int, real, str, member, is_obj, is_text}
use peer_chat.Base.Text.{is_blank, contains}
use peer_chat.Store.{Store, get, put}

abbrev pub unlimited : Value
unlimited = str "unlimited"

-- `parse_budget`: `to_int` is Python's `int()`, with `none` for the errors that are caught.
unfoldable pub parse_budget : (Value → Option ℤ) → Value → Option Value
parse_budget to_int value =
    if is_text value "unlimited"
    then some unlimited
    else (elim (to_int value) [ none ↦ none | some n ↦ some (int (pos (min (to_ℕ n) 50))) ])

-- `available`
abbrev pub available : Value → Bool
available (str s) = s == "unlimited"
available (int n) = is_positive n
available _ = false

-- `spend`: a value that no allowance has is a TypeError there; callers spend what is available.
abbrev pub spend : Value → Value
spend (int n) = int (pos (pred_or_zero n))
spend v = v

abbrev external_markers : List String
external_markers =
    "PEER CHAT DELIVERY NOTICE" ∷ "EXTERNAL PEER INBOX NOTICE" ∷ "EXTERNAL AGENT MESSAGE"
    ∷ "<cross-session-message" ∷ "[Peer bridge transport self-test;"
    ∷ "Peer Chat setup verification continuation," ∷ []

-- `any(marker in prompt for marker in EXTERNAL_MARKERS)`
unfoldable pub is_external : String → Bool
is_external prompt = any (contains prompt) external_markers

-- `type(limit) is int and 0 <= limit <= 50`
abbrev pub is_window : Value → Bool
is_window (int n) = is_within 50 n
is_window _ = false

-- The turn of a prompt that the owner typed.
unfoldable pub owner_turn : Value → Option String
unfolding is_external is_blank
owner_turn payload = elim (member payload "prompt") [
  | str prompt ↦ (elim (member payload "turn_id") [
    | str turn ↦
        (if is_text (member payload "hook_event_name") "UserPromptSubmit"
            && (not (is_blank prompt) && (not (turn == "") && not (is_external prompt)))
          then some turn
          else none)
    | _ ↦ none
  ])
  | _ ↦ none
]

abbrev pub renewed : Value → String → Store → Store
renewed limit turn s =
    put "budget_owner_turn" (str turn) (put "wake_remaining" limit (put "remaining" limit s))

abbrev pub renew_turn : String → Store → Bool × Store
renew_turn turn s =
    let limit = get s "budget_limit" null in
    if not (is_window limit) || is_text (get s "budget_owner_turn" null) turn
    then (false, s)
    else (true, renewed limit turn s)

-- `renew_for_owner_prompt`
unfoldable pub renew_for_owner_prompt : Value → Store → Bool × Store
renew_for_owner_prompt payload s = elim (owner_turn payload) [
  | none ↦ (false, s)
  | some turn ↦ renew_turn turn s
]

abbrev pub Getter : Type 0
Getter = String → Value → Value

-- `event in LIFECYCLE_EVENTS`
abbrev pub is_lifecycle_event : Value → Bool
is_lifecycle_event v =
    is_text v "SessionStart"
    || (is_text v "UserPromptSubmit" || (is_text v "PostToolUse" || is_text v "Stop"))

abbrev pub is_number : Value → Bool
is_number (int n) = true
is_number (real t) = true
is_number _ = false

-- `lifecycle_observed`
unfoldable pub lifecycle_observed : Getter → Bool
lifecycle_observed get =
    let seen = get "hook_seen" null in
    is_obj seen
    && (is_text (member seen "routing") "matched"
        && (is_lifecycle_event (member seen "event") && is_number (member seen "at")))

pub data DeliveryState : Type 0 where
  manual_inbox paused_interrupted paused_budget after_turn_queue : DeliveryState
  awaiting_lifecycle_hook paused_wake_budget : DeliveryState
  active_hooks idle_live_only idle_wake_enabled : DeliveryState

-- The tests of `delivery_state`, in their order.
pub record Tests : Type 0 where
  pub inbox : Bool
  pub interrupted : Bool
  pub exhausted : Bool
  pub queue : Bool
  pub unobserved : Bool
  pub unknown : Bool
  pub auto_idle : Bool
  pub wakes_exhausted : Bool
  pub active : Bool
  pub live : Bool

abbrev pub tests : Getter → Tests
tests get =
    let mode = get "delivery" (str "inbox") in
    let remaining = get "remaining" (int (pos 0)) in
    let phase = get "phase" (str "unknown") in
    record {
      inbox = is_text mode "inbox";
      interrupted = is_text (get "phase" null) "interrupted";
      exhausted = not (available remaining);
      queue = is_text mode "queue";
      unobserved = not (lifecycle_observed get);
      unknown = is_text phase "unknown";
      auto_idle = is_text mode "auto" && is_text phase "idle";
      wakes_exhausted = not (available (get "wake_remaining" remaining));
      active = is_text phase "active";
      live = is_text mode "live";
    }

unfoldable pub judge : Tests → DeliveryState
judge t =
    if t.inbox
    then DeliveryState.manual_inbox
    else if t.interrupted
    then DeliveryState.paused_interrupted
    else if t.exhausted
    then DeliveryState.paused_budget
    else if t.queue
    then DeliveryState.after_turn_queue
    else if t.unobserved
    then DeliveryState.awaiting_lifecycle_hook
    else if t.unknown
    then DeliveryState.awaiting_lifecycle_hook
    else if t.auto_idle && t.wakes_exhausted
    then DeliveryState.paused_wake_budget
    else if t.active
    then DeliveryState.active_hooks
    else if t.live
    then DeliveryState.idle_live_only
    else DeliveryState.idle_wake_enabled

-- `delivery_state`
unfoldable pub delivery_state : Getter → DeliveryState
unfolding judge
delivery_state get = judge (tests get)

-- The transaction of `configure_delivery`; the budget is what `parse_budget` made of the option.
unfoldable pub configure_delivery : String → Option Value → Store → Store
configure_delivery mode budget s =
    let moded = put "delivery" (str mode) s in
    elim budget [
      | none ↦ moded
      | some limit ↦
          put "budget_limit" limit (put "wake_remaining" limit (put "remaining" limit moded))
    ]
