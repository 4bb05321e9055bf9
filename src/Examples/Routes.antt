-- ===== src/Examples/Routes.antt =====
-- A thread with one row in its metadata.
use peer_chat.Base.{◌≡◌, refl, String, true, false, none, some}
use peer_chat.Base.Int.{pos}
use peer_chat.Base.Json.{int, Value, null, real, str, obj, end, field}
use peer_chat.Store.{Store, put}
use peer_chat.Registry.{Routes, Earlier, routing_rejection, seed_lifecycle}
use peer_chat.Registry.Routing.{Own, routing_rejection-Own}
use peer_chat.Registry.Seed.{Seeded, seed_lifecycle-Seeded}
use peer_chat.Examples.{empty, wake}

abbrev routes : Routes
routes = record {
  environment = none;
  thread_row = some (record { rollout_path = some "/t"; archived = false });
  is_child = false;
  resolve = λ p. p;
}

abbrev payload : Value
payload = obj (field "session_id" (str wake) (field "transcript_path" (str "/t") end))

routing_rejection-Own_example : Own routes payload wake
unfolding routing_rejection peer_chat.Base.Json.member
routing_rejection-Own_example = routing_rejection-Own routes true payload wake refl

abbrev owned : Value
owned = obj (
    field "thread" (str wake)
      (field "owner_pid" (int (pos 7)) (field "owner_identity" (str "o") end)))

abbrev saved : Value
saved = obj (
    field "thread" (str wake) (
      field "owner_pid" (int (pos 7)) (
        field "owner_identity" (str "o") (
          field "routing" (str "matched") (
            field "event" (str "Stop")
              (field "at" (real 5) (field "transcript_path" (str "/t") end)))))))

abbrev earlier : Earlier
earlier = record { saved = saved; owner = str "o"; routes = routes; now = 9 }

abbrev attached : Store
attached = put "config" owned empty

seed_lifecycle-Seeded_example : Seeded earlier attached (seed_lifecycle earlier attached).1
unfolding seed_lifecycle peer_chat.Base.Json.member peer_chat.Base.Text.is_uuid routing_rejection
seed_lifecycle-Seeded_example = seed_lifecycle-Seeded earlier attached refl
