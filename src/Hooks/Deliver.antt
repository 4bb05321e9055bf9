-- ===== src/Hooks/Deliver.antt =====
-- `deliver` of src/peer_hooks.py, from the routing of the hook to the text that it returns.
use peer_chat.Base.{
  ℕ, String, Bool, false, not, ◌&&◌, ◌||◌, Option, none, some, if◌then◌else◌, ◌==◌, is_some,
}
use Prim.Native.String.{◌++◌ as text_append}
use peer_chat.Base.Json.{
  Value, null, bool, real, str, obj, end, field, lookup, member, truthy, is_text, is_null,
}
use peer_chat.Base.Text.{is_uuid}
use peer_chat.Store.{Store, get, put}
use peer_chat.Budget.{is_lifecycle_event, renew_for_owner_prompt}
use peer_chat.Wake.Events.{active_hook}
use peer_chat.Peers.{Host}
use peer_chat.Hooks.{take_notices, offer_all}

-- What `deliver` learns from outside the store: the registration of the thread, why routing
-- rejected the payload, the process that owns the configured pid, and the clock.
pub record Arrival : Type 0 where
  pub registered : Option Value
  pub rejection : Option String
  pub owner : Value
  pub now : ℕ

-- What it does outside: the text for the model, and whether it starts `_restore`.
pub record Reply : Type 0 where
  pub restores : Bool
  pub context : Option String

abbrev pub silent : Reply
silent = record { restores = false; context = none }

-- `d.get(key, default)`
abbrev pub get_field : Value → String → Value → Value
get_field (obj d) key default = elim (lookup key d) [ none ↦ default | some v ↦ v ]
get_field _ key default = default

-- Equality of identities, which are text or missing.
abbrev pub same_identity : Value → Value → Bool
same_identity (str a) v = is_text v a
same_identity v w = is_null v && is_null w

abbrev pub is_start : Value → Bool
is_start payload = is_text (member payload "hook_event_name") "SessionStart"

-- `event in ("SessionStart", "Stop")`
abbrev pub is_pause : Value → Bool
is_pause payload = is_start payload || is_text (member payload "hook_event_name") "Stop"

-- Where the thread's row is not there yet, a start that registered the thread goes on.
abbrev pub is_rejected : Arrival → Value → Bool
is_rejected a payload = elim a.rejection [
  | none ↦ false
  | some r ↦ not (is_some a.registered && (is_start payload && r == "missing thread"))
]

-- `(registration or {}).get('owner_identity', config.get('owner_identity'))`
abbrev pub identity_of : Option Value → Value → Value
identity_of none config = member config "owner_identity"
identity_of (some r) config = get_field r "owner_identity" (member config "owner_identity")

abbrev pub routing : Option String → Value
routing none = str "matched"
routing (some r) = str (text_append "rejected: " r)

abbrev pub evidence : Arrival → Value → Value → Value
evidence a payload config = obj (
    field "at" (real a.now) (
      field "event" (member payload "hook_event_name") (
        field "turn" (member payload "turn_id") (
          field "routing" (routing a.rejection)
            (field "owner_identity" (identity_of a.registered config) end)))))

-- A rejected hook is kept apart from the evidence that lifecycle hooks run.
abbrev pub evidence_key : Option String → String
evidence_key none = "hook_seen"
evidence_key (some r) = "hook_rejected"

abbrev pub observe : Arrival → Value → Store → Store
observe a payload s = put (evidence_key a.rejection) (evidence a payload (get s "config" null)) s

-- A resumed thread whose owner process is gone gets its transport back.
abbrev pub restores_owner : Arrival → Value → Store → Bool
restores_owner a payload s =
    let config = get s "config" null in
    let old = member config "owner_identity" in
    elim a.registered [
      | none ↦ false
      | some r ↦
          is_start payload
          && (not (same_identity old (member r "owner_identity"))
              && (not (same_identity a.owner old) && not (truthy (get s "stop" (bool false)))))
    ]

abbrev pub enter_phase : Value → Store → Store
enter_phase payload s =
    if is_pause payload then put "phase" (str "idle") s else put "phase" (str "active") s

module _ (host : Host) (quote : String → String) (render : Value → String) where
  -- From the notices on, in an active turn.
  abbrev pub bring : Arrival → Value → Bool → Store → Reply × Store
  bring a config restores s =
      let (notice, taken) = take_notices render s in
      let (context, offered) = offer_all host quote config a.now notice taken in
      (record { restores = restores; context = context }, offered)

  -- From the renewal on, for a hook that routing accepts.
  abbrev pub enter : Arrival → Value → Store → Reply × Store
  enter a payload s =
      let restores = restores_owner a payload s in
      let renewed = (renew_for_owner_prompt payload s).1 in
      let entered = enter_phase payload renewed in
      if is_pause payload
      then (record { restores = restores; context = none }, entered)
      else bring a (get s "config" null) restores (active_hook payload a.now entered).1

  -- `deliver`, where the thread has a store.
  unfoldable pub deliver : Arrival → Value → Store → Reply × Store
  deliver a payload s =
      let observed = observe a payload s in
      if not (is_lifecycle_event (member payload "hook_event_name"))
      then (silent, s)
      else if not (elim (member payload "session_id") [ str t ↦ is_uuid t | _ ↦ false ])
      then (silent, s)
      else if not (truthy (get s "config" null))
      then (silent, s)
      else if is_rejected a payload
      then (silent, observed)
      else enter a payload observed
