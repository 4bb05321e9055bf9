-- ===== src/Examples/Board.antt =====
-- A bridge that runs, and one whose database is broken.
use peer_chat.Base.{
  ℕ, ◌≤◌, ◌≡◌, refl, String, Bool, true, false, ◌&&◌, none, some, List, [], ◌∷◌, Option, is_some,
  select, length, not, nat_eq, leb, arith,
}
use peer_chat.Base.Int.{pos}
use peer_chat.Base.Json.{Value, null, bool, int, real, str, obj, Fields, end, field}
use peer_chat.Base.Text.{text_length}
use peer_chat.Store.{Store, Frame, Status, put, accept, is_message, is_status}
use peer_chat.Lifecycle.{Rollout}
use peer_chat.Observe.Counts.{read_timings}
use peer_chat.Observe.Totals.{readable_row-totals, AddsUp}
use peer_chat.Observe.Shown.{Row, blank_row}
use peer_chat.Observe.Snapshot.{Context, Files, opened, readable_row, snapshot}
use peer_chat.Observe.Reachable.{Reached, snapshot-Reached}
use peer_chat.Observe.Alarm.{snapshot-warned}
use peer_chat.Observe.Clean.{sanitize}
use peer_chat.Observe.Width.{every, sanitize_bounds}
use peer_chat.Examples.{empty, host, wake}

abbrev configured : Value
configured = obj (
    field "owner_pid" (int (pos 7)) (
      field "owner_identity" (str "o")
        (field "socket" (str "/s") (field "supervision" (bool true) end))))

abbrev listening : Value
listening = obj (field "pid" (int (pos 8)) (field "identity" (str "o") end))

abbrev hooked : Value
hooked =
    obj (
      field "routing" (str "matched") (field "event" (str "PostToolUse") (field "at" (real 5) end)))

abbrev saved : Store
saved = put "config" configured (
    put "runtime" listening (
      put "hook_seen" hooked (
        put "phase" (str "active") (
          put "delivery" (str "auto") (
            put "remaining" (int (pos 3))
              (accept "p" (Frame.message "m" "hello" "prompting" []) 1 empty).1)))))

abbrev context : Context
context = record {
  host = host;
  probe = record { process_identity = λ pid. some "o"; socket_ok = λ v. true };
  rollout = record { records = none; stamp = λ v. none };
  other = λ v. "";
  second = 1;
  now = 9;
  notice_peers = [];
}

abbrev files : Files
files = record {
  exists = true;
  dir_link = false;
  dir_foreign = false;
  link = false;
  regular = true;
  foreign = false;
}

abbrev row_in : Option Row → Row
row_in none = blank_row "" ""
row_in (some r) = r

snapshot-Reached_example : Reached context files (opened saved)
unfolding snapshot peer_chat.Base.Text.is_uuid accept peer_chat.Base.Json.member
    peer_chat.Lifecycle.turn_end_evidence peer_chat.Budget.delivery_state
    peer_chat.Budget.lifecycle_observed
snapshot-Reached_example =
    snapshot-Reached context files none (opened saved) wake
      (row_in (snapshot context files none (opened saved) wake)) refl refl

-- The same bridge, whose database is a link.
abbrev linked : Files
linked = record files { link = true }

snapshot-warned_example :
    is_some (row_in (snapshot context linked none (opened saved) wake)).warning ≡ true
unfolding snapshot peer_chat.Base.Text.is_uuid
snapshot-warned_example =
    snapshot-warned context linked none (opened saved) wake
      (row_in (snapshot context linked none (opened saved) wake)) refl refl

readable_row-totals_example :
    ((readable_row context wake "n" saved).received_total
      ≡ some (length (select is_message saved.messages)))
    × ((readable_row context wake "n" saved).acknowledged_total
        ≡ some (length (select (λ m. is_message m && is_status Status.consumed m) saved.messages)))
    × ((readable_row context wake "n" saved).pending_count
        ≡ length (select (λ m. is_message m && not (is_status Status.consumed m)) saved.messages))
    × ((readable_row context wake "n" saved).delivery_timing ≡ some (read_timings saved))
    × AddsUp
        (read_timings saved).to_ack
        (read_timings saved).to_ack_after_hook
        (read_timings saved).to_ack_without_hook
readable_row-totals_example = readable_row-totals context wake "n" saved

abbrev is_ascii : ℕ → Bool
is_ascii c = leb 0x20 c && not (nat_eq c 0x7f)

sanitize_bounds_example :
    (text_length (sanitize is_ascii 6 2 "peer\tchat") ≤ 6)
    × (every is_ascii (sanitize is_ascii 6 2 "peer\tchat") ≡ true)
sanitize_bounds_example = sanitize_bounds is_ascii 6 2 "peer\tchat" (omega arith) refl refl refl
