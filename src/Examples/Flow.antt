-- ===== src/Examples/Flow.antt =====
-- Histories, hooks and claims at concrete stores.
use peer_chat.Base.{
  ℕ, ◌+◌, ◌≤◌, ◌≡◌, refl, ◌⊎◌, String, Bool, true, false, ◌&&◌, Option, none, some, List, [], ◌∷◌,
  arith, if◌then◌else◌, ◌==◌, any, length,
}
use peer_chat.Base.Int.{pos}
use peer_chat.Base.Json.{Value, null, int, str, obj, end, field, is_text}
use peer_chat.Store.{Store, Message, Status, Frame, get, put, accept}
use peer_chat.Store.Progress.{row}
use peer_chat.Store.Keys.{Keyed, status_of}
use peer_chat.Budget.{available, spend}
use peer_chat.Hooks.{Offer, total, max_context, offer, offer_all}
use peer_chat.Hooks.Offers.{IsCount, units, offer-units}
use peer_chat.Hooks.Safety.{IsOfferable, offer_all-OnlyOfferable}
use peer_chat.Hooks.Deliver.{Arrival, silent, deliver, is_start, is_pause}
use peer_chat.Hooks.Phase.{Kept, deliver-rejected, deliver-phase}
use peer_chat.Dispatch.{
  claim_queue, is_claimable, claim_wake, may_wake, wake_refusal, wakes_left, marker_of,
}
use peer_chat.Dispatch.Claim.{is_forwarding, claim_queue-pays}
use peer_chat.Dispatch.Waking.{claim_wake-claims}
use peer_chat.History.{Reach, Step, Reach-Kept, accepted_once}
use peer_chat.Examples.{empty, host, config, wake}

abbrev quote : String → String
quote s = s

abbrev render : Value → String
render v = "{}"

-- A message of the enrolled peer `c`, which is then acknowledged.
abbrev arrived : Store
arrived = (accept "c" (Frame.message wake "hello" "prompting" []) 1 empty).1

abbrev first_row : Message
first_row = record {
  peer = "c";
  id = wake;
  kind = peer_chat.Store.Kind.message;
  body = "hello";
  sender_mode = some "prompting";
  hops = [];
  status = Status.received;
  detail = "";
  created = 1;
}

abbrev done : Store
done = peer_chat.Store.ack_one "c" wake 2 arrived

abbrev later : Store
later = (peer_chat.Store.read true 3 done).1

abbrev history : Reach host quote render arrived later
history =
    Reach.then_step (Reach.then_step Reach.start (Step.acks_one "c" wake 2)) (Step.reads true 3)

keyed_arrived : Keyed arrived.messages
unfolding accept
keyed_arrived = (λ e. refl, tt)

accepted_once_example : accept "c" (Frame.message wake "other" "bypass" []) 4 later ≡ (false, later)
accepted_once_example =
    accepted_once host quote render "c" wake "hello" "other" "prompting" "bypass" [] [] 1 4 empty
      later tt history

Reach-Kept_example : Kept arrived later
Reach-Kept_example = Reach-Kept host quote render history keyed_arrived

-- Hooks.
abbrev live : Store
live = put "remaining" (int (pos 3)) (put "delivery" (str "live") (put "config" config arrived))

abbrev offered : Store
offered = (offer_all host quote config 5 "" live).1

offer_all-OnlyOfferable_example :
    (status_of "c" wake live ≡ some Status.hook_offered)
    ⊎ IsOfferable host quote config live "c" wake
unfolding offer_all offer peer_chat.Store.pending peer_chat.Store.by_created accept
    peer_chat.Base.Json.lookup peer_chat.Peers.all_peers peer_chat.Peers.table_of
    peer_chat.Base.Json.member peer_chat.Peers.collect peer_chat.Peers.normalise
    peer_chat.Peers.normalise_claude peer_chat.Base.Json.insert total peer_chat.Hooks.offered_text
    peer_chat.Hooks.queued_text peer_chat.Store.update_messages
offer_all-OnlyOfferable_example =
    offer_all-OnlyOfferable host quote config 5 "" live "c" wake keyed_arrived refl

abbrev opening : Offer
opening = record { remaining = int (pos 3); pieces = []; store = live }

offer-units_example :
    let o = offer host quote config 5 (first_row ∷ []) opening in
    IsCount o.remaining × (units o.remaining + length o.pieces ≡ 3 + 0)
offer-units_example = offer-units host quote config 5 (first_row ∷ []) opening refl

abbrev tool_use : Value
tool_use = obj (field "hook_event_name" (str "PostToolUse") (field "session_id" (str wake) end))

abbrev arrival : Option String → Arrival
arrival r = record { registered = none; rejection = r; owner = null; now = 6 }

deliver-phase_example :
    get (deliver host quote render (arrival none) tool_use live).1 "phase" null
    ≡ str (if is_pause tool_use then "idle" else "active")
unfolding peer_chat.Base.Json.member peer_chat.Base.Text.is_uuid
deliver-phase_example = deliver-phase host quote render (arrival none) tool_use live refl refl

deliver-rejected_example :
    let (reply, s') = deliver host quote render (arrival (some "child")) tool_use live in
    (live.meta "hook_seen" ≡ s'.meta "hook_seen")
    × ((false && (is_start tool_use && "child" == "missing thread")) ≡ true
        ⊎ ((reply ≡ silent)
            × (live.messages ≡ s'.messages)
            × (live.outgoing ≡ s'.outgoing)
            × (live.timing ≡ s'.timing)
            × ((key : String) → ("hook_rejected" == key) ≡ false → live.meta key ≡ s'.meta key)))
deliver-rejected_example =
    deliver-rejected host quote render (arrival (some "child")) tool_use live "child" refl

-- Claims.
abbrev queueing : Store
queueing = put "remaining" (int (pos 3)) (put "delivery" (str "queue") arrived)

claim_queue-pays_example :
    (is_text (get queueing "delivery" null) "queue" ≡ true)
    × (any (is_claimable first_row) queueing.messages ≡ true)
    × (available (get queueing "remaining" null) ≡ true)
    × (get (claim_queue first_row queueing).1 "remaining" null
        ≡ spend (get queueing "remaining" null))
    × (any (is_forwarding first_row) (claim_queue first_row queueing).1.messages ≡ true)
    × (claim_queue first_row (claim_queue first_row queueing).1
        ≡ (false, (claim_queue first_row queueing).1))
unfolding claim_queue accept
claim_queue-pays_example = claim_queue-pays first_row queueing refl

abbrev idle : Store
idle = put "phase" (str "idle") (put "delivery" (str "auto") live)

abbrev woken : Store
woken = (claim_wake host config 7 idle).1

claim_wake-claims_example :
    (may_wake idle ≡ true)
    × (wake_refusal host config first_row ≡ none)
    × (row "c" wake idle.messages ≡ some first_row)
    × (first_row.status ≡ Status.received)
    × (get woken "wake_remaining" null ≡ spend (wakes_left idle))
    × (get woken "remaining" null ≡ get idle "remaining" null)
    × (get woken "wake_pending" null ≡ marker_of first_row 7)
    × (claim_wake host config 8 woken ≡ (none, woken))
unfolding claim_wake accept peer_chat.Dispatch.scan peer_chat.Store.pending
    peer_chat.Store.by_created peer_chat.Base.Json.lookup peer_chat.Peers.all_peers
    peer_chat.Peers.table_of peer_chat.Base.Json.member peer_chat.Peers.collect
    peer_chat.Peers.normalise peer_chat.Peers.normalise_claude peer_chat.Base.Json.insert
claim_wake-claims_example = claim_wake-claims host config 7 8 idle first_row keyed_arrived refl
