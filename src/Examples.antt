-- ===== src/Examples.antt =====
-- The theorems at concrete stores, payloads and hosts.
mod Flow
mod Watching
mod Turns
mod Routes
mod Chunks
mod Board
mod Wire
mod Warnings
mod Consents
mod Links
mod Endpoints
mod Clients
mod Restart
use peer_chat.Base.{
  ℕ, ◌≤◌, ◌≡◌, refl, ◌↔◌, ◌⊎◌, inl, inr, String, Bool, true, false, not, ◌&&◌, Option, none, some,
  List, [], ◌∷◌, arith, if◌then◌else◌, ◌==◌, nat_eq, select, min, Bool-cases, ◌<◌, ◌-◌,
}
use peer_chat.Base.Int.{ℤ, pos, to_ℕ}
use peer_chat.Base.Json.{
  Value, null, int, real, str, obj, Fields, end, field, lookup, member, is_text,
}
use peer_chat.Base.Text.{is_blank}
use peer_chat.Store.{Store, Frame, get, put, accept, ack_one, new_message}
use peer_chat.Store.Progress.{row, ack_one-Progress}
use peer_chat.Wake.{WakeState, Evidence, name, rank, get_or, record_state}
use peer_chat.Wake.Events.{active_hook, record_wake, is_notice}
use peer_chat.Wake.Rank.{is_last, last_state, progress, record_state-rank}
use peer_chat.Wake.Decide.{active_hook_decides, active_hook_stuck}
use peer_chat.Budget.{
  Getter, DeliveryState, parse_budget, available, spend, unlimited, is_window,
  renew_for_owner_prompt, delivery_state, lifecycle_observed,
}
use peer_chat.Budget.Allowance.{spend-available}
use peer_chat.Budget.Renewal.{renew_once}
use peer_chat.Peers.{Host, normalise, all_peers, enroll}
use peer_chat.Peers.Normal.{normalise_again}
use peer_chat.Peers.Enrolled.{IsTable, all_peers-IsTable, enroll-lookup, key_of, before}
use peer_chat.Selection.{choose, DecidedBy, choose_one}

abbrev pub empty : Store
empty = record { meta = λ k. none; messages = []; outgoing = []; timing = [] }

abbrev received : Store
received = (accept "p" (Frame.message "m" "hello" "prompting" []) 1 empty).1

abbrev acked : Store
acked = ack_one "p" "m" 2 received

-- Wakes.
abbrev pub wake : String
wake = "11111111-1111-4111-8111-111111111111"

abbrev no_evidence : Evidence
no_evidence = record { queue_id = none; event = none; turn = none; detail = "" }

abbrev waiting : Value
waiting = obj (field "id" (str wake) (field "status" (str "queued") end))

-- A wake that is queued, and one that is decided with the marker set again.
abbrev last_of : String → Value
last_of state = obj (field "id" (str wake) (field "state" (str state) (field "at" (real 4) end)))

abbrev queued : Store
queued = put "wake_pending" waiting (put "last_wake" (last_of "queued") empty)

abbrev decided : Store
decided = put "wake_pending" waiting (put "last_wake" (last_of "raced") empty)

abbrev tool_use : Value
tool_use = obj (field "hook_event_name" (str "PostToolUse") end)

record_state-rank_example :
    (is_last wake (record_state wake WakeState.queued no_evidence 9 decided).1 ≡ true)
    × (progress wake decided
        ≤ progress wake (record_state wake WakeState.queued no_evidence 9 decided).1)
    × (rank WakeState.queued
        ≤ progress wake (record_state wake WakeState.queued no_evidence 9 decided).1)
record_state-rank_example = record_state-rank wake WakeState.queued no_evidence 9 decided

active_hook_decides_example :
    (get_or (active_hook tool_use 9 queued).1 "wake_pending" null ≡ null)
    × (is_last wake (active_hook tool_use 9 queued).1 ≡ true)
    × (last_state (active_hook tool_use 9 queued).1
        ≡ str (
            if is_text (member tool_use "hook_event_name") "UserPromptSubmit"
              && is_notice tool_use wake
            then "activated"
            else if is_text (member waiting "status") "writing"
            then "raced"
            else "cancelled"))
unfolding member peer_chat.Wake.pending
active_hook_decides_example =
    active_hook_decides tool_use waiting wake 9 queued refl refl refl (omega arith)

active_hook_stuck_example : (active_hook tool_use 9 decided).1 ≡ decided
unfolding member peer_chat.Wake.pending
active_hook_stuck_example =
    active_hook_stuck tool_use waiting wake 9 decided refl refl refl refl refl

-- Allowances.
abbrev prompted : String → Value
prompted text = obj (
    field "hook_event_name" (str "UserPromptSubmit")
      (field "turn_id" (str "t1") (field "prompt" (str text) end)))

abbrev windowed : Store
windowed = put "budget_limit" (int (pos 5)) (put "remaining" (int (pos 0)) empty)

abbrev renewed_store : Store
renewed_store = (renew_for_owner_prompt (prompted "go on") windowed).1

renew_once_example :
    (is_window (get windowed "budget_limit" null) ≡ true)
    × (get renewed_store "remaining" null ≡ get windowed "budget_limit" null)
    × (get renewed_store "wake_remaining" null ≡ get windowed "budget_limit" null)
    × (renew_for_owner_prompt (prompted "go on") renewed_store ≡ (false, renewed_store))
unfolding renew_for_owner_prompt peer_chat.Budget.owner_turn member
renew_once_example = renew_once (prompted "go on") windowed refl

abbrev idle_getter : Getter
idle_getter key default =
    if key == "delivery"
    then str "auto"
    else if key == "phase"
    then str "idle"
    else if key == "hook_seen"
    then obj
        (field "routing" (str "matched") (field "event" (str "Stop") (field "at" (real 3) end)))
    else if key == "remaining"
    then int (pos 2)
    else default

-- Enrolled peers, on a host with two directories.
abbrev pub resolve_root : String → String
resolve_root p = if p == "/srv" then "/srv" else "/home"

abbrev pub is_root : String → Bool
is_root p = if p == "/srv" then true else p == "/home"

pub resolve_root-resolve_root : (p : String) → resolve_root (resolve_root p) ≡ resolve_root p
resolve_root-resolve_root p = elim (Bool-cases (p == "/srv")) [
  | inl e ↦ rw e refl
  | inr e ↦ rw e refl
]

pub is_root-resolve_root : (p : String) → is_root (resolve_root p) ≡ true
is_root-resolve_root p = elim (Bool-cases (p == "/srv")) [ inl e ↦ rw e refl | inr e ↦ rw e refl ]

pub is_blank-resolve_root : (p : String) → is_blank (resolve_root p) ≡ false
unfolding is_blank
is_blank-resolve_root p = elim (Bool-cases (p == "/srv")) [ inl e ↦ rw e refl | inr e ↦ rw e refl ]

abbrev pub host : Host
host = record {
  is_absolute = is_root;
  resolve = resolve_root;
  digest = λ p. "0123456789abcdef";
  resolve-resolve = resolve_root-resolve_root;
  is_absolute-resolve = is_root-resolve_root;
  is_blank-resolve = is_blank-resolve_root;
}

abbrev peer : Value
peer = obj (
    field "kind" (str "codex") (
      field "thread" (str wake)
        (field "codex_home" (str "/srv") (field "state_root" (str "/home") end))))

abbrev pub claude : Value
claude =
    obj (field "identity" (str "c") (field "pid" (int (pos 7)) (field "socket" (str "/s") end)))

abbrev canonical : Fields
canonical = elim (normalise host peer) [ none ↦ end | some d ↦ d ]

normalise_again_example : normalise host (obj canonical) ≡ some canonical
unfolding normalise member peer_chat.Peers.normalise_codex peer_chat.Base.Text.is_lower_uuid
    is_blank
normalise_again_example = normalise_again host peer {c = canonical} refl

abbrev pub config : Value
config = obj (field "peers" (obj (field "c" claude end)) end)

all_peers-IsTable_example : IsTable host (all_peers host config)
all_peers-IsTable_example = all_peers-IsTable host config

abbrev configured : Store
configured = put "config" config empty

enroll-lookup_example :
    ((normalise host peer ≡ none) × (enroll host peer configured ≡ none))
    ⊎ ((d : Fields) × (r : Fields × Store) × (normalise host peer ≡ some d)
        × (enroll host peer configured ≡ some r)
        × (get r.1 "config" null ≡ obj r.0)
        × (lookup "c" (all_peers host (obj r.0))
            ≡ (if key_of host d == "c" then some (obj d) else lookup "c" (before host config))))
enroll-lookup_example = enroll-lookup host peer configured "c"
