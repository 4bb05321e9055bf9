-- ===== src/Registry.antt =====
-- src/peer_registry.py: the rights of a thread, the routing of hooks, and the lifecycle that was seen
-- before a bridge existed. What is read of files, databases and processes is an argument.
pub mod Routing
pub mod Seed
use peer_chat.Base.{
  ℕ, String, Bool, true, false, not, ◌&&◌, ◌||◌, Option, none, some, if◌then◌else◌, ◌==◌, leb,
  is_some, nat_eq,
}
use peer_chat.Base.Int.{ℤ, pos}
use peer_chat.Base.Json.{
  lookup, Value, null, bool, int, real, str, obj, Fields, end, field, member, is_obj, is_text,
  is_null, truthy,
}
use peer_chat.Store.{Store, get, put}
use peer_chat.Budget.{is_lifecycle_event}
use peer_chat.Lifecycle.{time_of}
use peer_chat.Base.Text.{is_uuid}

pub data Permission : Type 0 where
  bypass prompting unknown : Permission

abbrev pub is_unrestricted : Value → Bool
is_unrestricted kind = is_text kind "disabled" || is_text kind "danger-full-access"

abbrev pub is_known : Value → Bool
is_known kind = is_unrestricted kind || (is_text kind "read-only" || is_text kind "workspace-write")

abbrev pub asks : Value → Bool
asks approval =
    is_text approval "on-request" || (is_text approval "on-failure" || is_text approval "untrusted")

-- `_classify`, where `kind` is the type in the sandbox policy, `none` if it has none.
unfoldable pub classify : Option Value → Value → Permission
classify none approval = Permission.unknown
classify (some kind) approval =
    if is_unrestricted kind && is_text approval "never"
    then Permission.bypass
    else if is_known kind && asks approval
    then Permission.prompting
    else Permission.unknown

-- `permission_class` of src/peer_chat.py; `none` is its ValueError, also for a policy that cannot be
-- read.
unfoldable pub permission_class : Option Value → Value → Option Permission
permission_class none approval = none
permission_class (some kind) approval =
    if is_unrestricted kind && is_text approval "never"
    then some Permission.bypass
    else if is_known kind && asks approval
    then some Permission.prompting
    else none

-- The row of a thread in the metadata: its rollout, and whether it is archived.
pub record ThreadRow : Type 0 where
  pub rollout_path : Option String
  pub archived : Bool

-- What `routing_rejection` reads outside the payload: the environment's thread, the row of the
-- configured thread, whether that is a spawned child, and the resolution of a path.
pub record Routes : Type 0 where
  pub environment : Option String
  pub thread_row : Option ThreadRow
  pub is_child : Bool
  pub resolve : String → String

abbrev pub has_marker : Value → Bool
has_marker payload =
    truthy (member payload "agent_id")
    || (truthy (member payload "agent_type")
        || not (is_null (member payload "agent_transcript_path")))

abbrev pub environment_differs : Routes → String → Bool
environment_differs routes thread = elim routes.environment [
  | none ↦ false
  | some t ↦ not (t == "") && not (t == thread)
]

abbrev pub row_rejection : Routes → String → Option ThreadRow → Option String
row_rejection routes transcript none = some "missing thread"
row_rejection routes transcript (some row) =
    if row.archived then some "archived thread" else (elim row.rollout_path [
      | none ↦ some "transcript_path mismatch"
      | some path ↦
          if path == "" || not (routes.resolve transcript == routes.resolve path)
          then some "transcript_path mismatch"
          else none
    ])

abbrev pub transcript_rejection : Routes → Value → Option String
transcript_rejection routes transcript = elim transcript [
  | str path ↦
      (if path == ""
        then some "missing transcript_path"
        else if routes.is_child
        then some "child thread"
        else row_rejection routes path routes.thread_row)
  | _ ↦ some "missing transcript_path"
]

-- `routing_rejection`, for the configured thread; `check` is `check_environment`.
unfoldable pub routing_rejection : Routes → Bool → Value → String → Option String
routing_rejection routes check payload thread =
    if not (is_text (member payload "session_id") thread)
    then some "session_id mismatch"
    else if has_marker payload
    then some "subagent marker"
    else if check && environment_differs routes thread
    then some "CODEX_THREAD_ID mismatch"
    else transcript_rejection routes (member payload "transcript_path")

abbrev pub is_count : Value → ℕ → Bool
is_count (int (pos n)) k = nat_eq n k
is_count _ k = false

-- Equality of the values that a registration holds: text, process numbers and null.
abbrev pub same_plain : Value → Value → Bool
same_plain (str a) v = is_text v a
same_plain (int (pos n)) v = is_count v n
same_plain null v = is_null v
same_plain _ v = false

abbrev pub same_member : String → Value → Value → Bool
same_member key v w = same_plain (member v key) (member w key)

-- The record of an earlier hook that `seed_lifecycle` reads, and what it learns with it.
pub record Earlier : Type 0 where
  pub saved : Value
  pub owner : Value
  pub routes : Routes
  pub now : ℕ

-- The value has a field of the name.
abbrev pub has_field : String → Value → Bool
has_field key (obj d) = is_some (lookup key d)
has_field key v = false

-- The tests on the saved record; an owner that the configuration does not name is a KeyError.
abbrev pub is_same_owner : Value → Value → Value → Bool
is_same_owner saved config owner =
    (has_field "owner_pid" config && has_field "owner_identity" config)
    && (same_member "thread" saved config
        && (same_member "owner_pid" saved config
            && (same_member "owner_identity" saved config
                && (same_member "codex_home" saved config
                    && same_plain owner (member config "owner_identity")))))

abbrev pub saved_payload : String → Value → Value
saved_payload thread saved =
    obj (
      field "session_id" (str thread)
        (field "transcript_path" (member saved "transcript_path") end))

-- The tests of `seed_lifecycle` before its transaction; `at` is the time of the saved hook.
abbrev pub is_seed : Earlier → String → ℕ → Value → Bool
is_seed e thread at config =
    is_obj e.saved
    && (is_same_owner e.saved config e.owner
        && (is_text (member e.saved "routing") "matched"
            && (is_lifecycle_event (member e.saved "event")
                && (leb at e.now
                    && not (
                        is_some (
                          routing_rejection e.routes false (saved_payload thread e.saved)
                            thread))))))

-- A hook that the bridge has seen itself wins, if it is another owner's or is not older.
abbrev pub is_superseded : Value → Value → ℕ → Bool
is_superseded seen config at =
    is_obj seen
    && (is_text (member seen "routing") "matched"
        && (not (same_member "owner_identity" seen config)
            || (elim (time_of (member seen "at")) [ none ↦ false | some t ↦ leb at t ])))

abbrev pub seed_evidence : Value → Value
seed_evidence saved = obj (
    field "at" (member saved "at") (
      field "event" (member saved "event") (
        field "turn" (member saved "turn") (
          field "routing" (member saved "routing") (
            field "owner_identity" (member saved "owner_identity")
              (field "source" (str "preconnection_hook") end))))))

abbrev pub seed_phase : Value → String
seed_phase event = if is_text event "SessionStart" || is_text event "Stop" then "idle" else "active"

abbrev pub seed_at : Earlier → String → ℕ → Value → Store → Bool × Store
seed_at e thread at config s =
    if is_seed e thread at config && not (is_superseded (get s "hook_seen" null) config at)
    then (
      true,
      put "phase" (str (seed_phase (member e.saved "event")))
          (put "hook_seen" (seed_evidence e.saved) s),
    )
    else (false, s)

-- `seed_lifecycle`
unfoldable pub seed_lifecycle : Earlier → Store → Bool × Store
seed_lifecycle e s = elim (member (get s "config" null) "thread") [
  | str thread ↦ (elim (time_of (member e.saved "at")) [
    | some at ↦ if is_uuid thread then seed_at e thread at (get s "config" null) s else (false, s)
    | none ↦ (false, s)
  ])
  | _ ↦ (false, s)
]
