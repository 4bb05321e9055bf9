-- ===== src/Observe/Warning.antt =====
-- `_warning` of src/peer_observe.py, and what `snapshot` appends to it.
use Prim.Native.String.{◌++◌}
use peer_chat.Base.{
  ℕ, String, Bool, false, not, ◌&&◌, ◌||◌, Option, none, some, List, [], ◌∷◌, if◌then◌else◌, ◌==◌,
  leb, length, nat_eq,
}
use peer_chat.Base.Int.{is_positive}
use peer_chat.Base.Json.{Value, int, obj, lookup}
use peer_chat.Base.Text.{prefix, rstrip}
use peer_chat.Base.Format.{tail_text, decimal, show}
use peer_chat.Store.{Status, same_status}
use peer_chat.Budget.{DeliveryState}
use peer_chat.Observe.Counts.{group_count}
use peer_chat.Observe.Shown.{RuntimeState, Delivery, Row}

-- `row.get("worker_error")` as a condition: neither missing nor empty.
abbrev pub filled : Option String → Option String
filled none = none
filled (some s) = if s == "" then none else some s

abbrev pub or_text : Option String → String → String
or_text o d = elim (filled o) [ none ↦ d | some s ↦ s ]

-- `age or 0`
abbrev pub or_zero : Option ℕ → ℕ
or_zero none = 0
or_zero (some n) = n

abbrev age_of : Status → List (Status × ℕ) → Option ℕ
age_of status [] = none
age_of status ((other, age) ∷ rest) =
    let later = age_of status rest in if same_status other status then some age else later

-- The hook is old, and so is a message that was received.
abbrev pub is_waiting : Row → Bool
is_waiting r =
    not (nat_eq (group_count Status.received r.pending_by_status) 0)
    && (leb 60 (or_zero (age_of Status.received r.pending_ages)) && leb 60 (or_zero r.hook_age))

module _ (other : Value → String) where
  -- `watch.get(key, '?')`
  abbrev watch_text : String → Option Value → String
  watch_text key (some (obj d)) = elim (lookup key d) [ none ↦ "?" | some v ↦ show other v ]
  watch_text key _ = "?"

  abbrev budget_hint : Value → String
  budget_hint (int n) =
      if is_positive n
      then "; the owner's next prompt renews it (limit " ++ (show other (int n) ++ ")")
      else "; configure `peer-chat delivery auto --budget N`"
  budget_hint _ = "; configure `peer-chat delivery auto --budget N`"

  -- The warnings of a bridge that does not run.
  unfoldable pub runtime_warning : RuntimeState → Row → Option String
  runtime_warning RuntimeState.unreadable r = some (
      "Bridge state "
      ++ (or_text r.error "unreadable"
          ++ ("; run `peer-chat doctor` and inspect " ++ prefix 8 r.thread)))
  runtime_warning RuntimeState.unconfigured r =
      some "Bridge has no configuration yet; connect from either agent to set it up"
  runtime_warning RuntimeState.stopped r = some (
      "Bridge stopped explicitly; nothing is delivered until `peer-chat --thread "
      ++ (r.thread ++ " start` (the watchdog respects the stop)"))
  runtime_warning RuntimeState.owner_offline r = some (
      "Owning Codex process is gone; "
      ++ ((if r.listener_alive
            then "the listener is retaining messages"
            else "messages are retained in the inbox")
          ++ ". Resume the thread in Codex; the watchdog reconnects the same verified thread automatically"))
  runtime_warning RuntimeState.listener_down r = some (
      "Listener down ("
      ++ ((if r.listener_alive
            then "socket is missing or not ours"
            else "listener process is not running")
          ++ ("); messages cannot be received until the watchdog restarts it or you run `peer-chat --thread "
              ++ (r.thread ++ " restart`"))))
  runtime_warning RuntimeState.running r = none

  -- The warnings of a delivery state.
  unfoldable pub delivery_warning : Delivery → Row → Option String
  delivery_warning Delivery.unknown r = none
  delivery_warning Delivery.awaiting_listener_upgrade r =
      some
        "The native turn ended, but this listener predates interruption recovery. Run peer-chat watch start to upgrade the transport."
  delivery_warning (Delivery.stored DeliveryState.manual_inbox) r =
      some
        "Inbox mode: nothing reaches the model until `peer-chat read --ack` (or set `peer-chat delivery auto`)"
  delivery_warning (Delivery.stored DeliveryState.paused_interrupted) r =
      some
        "Codex reports an interrupted turn and does not automatically start queued messages in this state. The inbox is retained; explicitly resume the session in its Codex tab. Restarting the listener, renewing a budget, or resending will not resume the model."
  delivery_warning (Delivery.stored DeliveryState.paused_budget) r =
      some ("Delivery budget exhausted: messages stay in the inbox" ++ budget_hint r.budget_limit)
  delivery_warning (Delivery.stored DeliveryState.after_turn_queue) r =
      some "Queue mode: delivery happens only after the current turn ends"
  delivery_warning (Delivery.stored DeliveryState.awaiting_lifecycle_hook) r =
      some
        "Verified hook readiness is not available for this Codex process, so messages wait in the inbox: run peer-chat-setup once if never done, resume the thread if the process predates setup, or type a first prompt in a new tab; the watchdog reconnects automatically"
  delivery_warning (Delivery.stored DeliveryState.paused_wake_budget) r =
      some
        "Wake budget exhausted: an idle Codex will not be woken until the owner's next prompt renews it"
  delivery_warning (Delivery.stored DeliveryState.active_hooks) r =
      if is_waiting r
      then some (
          "Message retained awaiting a new hook; last matched hook was "
          ++ (decimal (or_zero r.hook_age)
              ++ " seconds ago. Active hook state does not prove the model is currently working."))
      else none
  delivery_warning (Delivery.stored DeliveryState.idle_live_only) r =
      some
        "Live mode cannot wake an idle model: messages wait for its next tool call or prompt (set `peer-chat delivery auto` to enable wake)"
  delivery_warning (Delivery.stored DeliveryState.idle_wake_enabled) r = none
  delivery_warning (Delivery.offline s) r = none

  abbrev supervision_warning : Row → Option String
  supervision_warning r = elim r.supervision_enabled [
    | some false ↦
        some
          "Automatic recovery is not enabled for this bridge; reconnect by name or run peer-chat watch start."
    | _ ↦ none
  ]

  abbrev rest_warning : Row → Option String
  rest_warning r =
      if nat_eq r.outgoing_uncertain 0
      then supervision_warning r
      else some (
          decimal r.outgoing_uncertain
          ++ " outgoing write(s) uncertain; check `peer-chat status` before resending")

  abbrev error_warning : Row → Option String
  error_warning r = elim (filled r.worker_error) [
    | some e ↦ some (
        "Dispatcher stopped ("
        ++ (e
            ++ ("); the watchdog restarts it, or run `peer-chat --thread "
                ++ (r.thread ++ " restart`"))))
    | none ↦ (elim (filled r.restore_error) [
      | some e ↦ some (
          "Automatic restore failed: "
          ++ (e
              ++ (" (attempts "
                  ++ (watch_text "attempts" r.watch
                      ++ ("; retry at " ++ (watch_text "next_at" r.watch ++ ")"))))))
      | none ↦ none
    ])
  ]

  infixr 20 ◌or◌
  abbrev ◌or◌ : Option String → Option String → Option String
  none or later = later
  (some w) or later = some w

  -- `_warning`: the first that there is.
  unfoldable pub warning : Row → Option String
  unfolding runtime_warning delivery_warning
  warning r =
      runtime_warning r.runtime_state r
      or (error_warning r or (delivery_warning r.delivery_state r or rest_warning r))

-- The text ends with a full stop, an exclamation or a question mark.
abbrev ends_sentence : String → Bool
ends_sentence s = let c = tail_text 1 s in c == "." || (c == "!" || c == "?")

-- `held_note`
abbrev pub with_held : ℕ → Option String → Option String
with_held held w =
    if nat_eq held 0
    then w
    else some (
        (elim (filled w) [ none ↦ "" | some s ↦ s ++ " " ])
        ++ (decimal held
            ++ " message(s) held by a routing guard; inspect status --messages for the hold reason."))

abbrev sentence : String → String
sentence s = let t = rstrip s in t ++ ((if ends_sentence t then "" else ".") ++ " ")

abbrev pub with_failures : ℕ → Option String → Option String
with_failures failures w =
    if nat_eq failures 0
    then w
    else some (
        (elim (filled w) [ none ↦ "" | some s ↦ sentence s ])
        ++ (decimal failures
            ++ " peer advisory attempt(s) unconfirmed; no automatic resend. Inspect notice_failures in status --json."))

-- The warning of `snapshot`, with the notes on held messages and on notices.
unfoldable pub full_warning : (Value → String) → Row → Option String
unfolding warning rstrip
full_warning other r =
    with_failures (length r.notice_failures)
      (with_held (group_count Status.held r.pending_by_status) (warning other r))
