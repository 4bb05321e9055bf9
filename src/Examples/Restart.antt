-- ===== src/Examples/Restart.antt =====
-- A bridge that is started again by another owner.
use peer_chat.Base.{◌≡◌, refl, String, true, false, Option, none, some}
use peer_chat.Base.Int.{pos}
use peer_chat.Base.Json.{Value, null, bool, int, str, obj, Fields, end, field}
use peer_chat.Store.{Store, get, put}
use peer_chat.Listener.Begin.{Ask, Ending, stuck, begun, nobody, begin}
use peer_chat.Listener.Carried.{Carried, begin-Carried}
use peer_chat.Examples.{empty, host, claude}

abbrev saved : Store
saved = put "wake_pending" (str "w") (
    put "phase" (str "idle") (
      put "delivery" (str "auto") (
        put "config"
          (obj (
            field "thread" (str "t") (
              field "codex_home" (str "/h") (
                field "owner_identity" (str "old")
                  (field "peers" (obj (field "c" claude end)) end)))))
          empty)))

abbrev ask : Ask
ask = record {
  thread = "t";
  home = "/h";
  recover = false;
  owner = int (pos 7);
  identity = some "new";
  given = none;
  live = false;
  incompatible = none;
  peer = nobody;
  socket = "";
  path_error = none;
  executable = some "/bin/codex";
  delivery = none;
  budget = none;
  earlier = record {
    saved = null;
    owner = null;
    routes = record { environment = none; thread_row = none; is_child = false; resolve = λ p. p };
    now = 9;
  };
  leaves = true;
}

abbrev after : Ending × Fields × Store
after = elim (begin host ask saved) [
  | begun how config s ↦ (how, config, s)
  | _ ↦ (stuck, end, empty)
]

mode_kept : get after.2 "delivery" null ≡ str "auto"
unfolding begin peer_chat.Base.Json.member peer_chat.Peers.all_peers peer_chat.Peers.table_of
    peer_chat.Peers.collect peer_chat.Peers.normalise peer_chat.Peers.normalise_claude
    peer_chat.Base.Json.insert peer_chat.Registry.seed_lifecycle
mode_kept = refl

begin-Carried_example : Carried ask saved after.1 after.2
unfolding begin peer_chat.Base.Json.member peer_chat.Peers.all_peers peer_chat.Peers.table_of
    peer_chat.Peers.collect peer_chat.Peers.normalise peer_chat.Peers.normalise_claude
    peer_chat.Base.Json.insert
begin-Carried_example = begin-Carried host ask saved after.0 after.1 after.2 refl refl refl
