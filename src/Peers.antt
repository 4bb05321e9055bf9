-- ===== src/Peers.antt =====
-- src/peer_peers.py: the table of enrolled peers. Records and tables are JSON objects, as there.
mod Claude
mod Codex
pub mod Normal
pub mod Enrolled
pub mod Resolve
pub mod Live
use Prim.Native.String.{◌++◌ as text_append}
use peer_chat.Base.{
  ℕ, String, Bool, true, false, not, ◌&&◌, ◌||◌, Option, none, some, if◌then◌else◌, ◌==◌, is_some,
  ◌≡◌,
}
use peer_chat.Base.Int.{pos, is_positive}
use peer_chat.Base.Json.{
  Value, null, bool, int, str, obj, Fields, end, field, insert, lookup, member, is_text, is_null,
  truthy, or_else,
}
use peer_chat.Base.Text.{is_blank, prefix, is_lower_uuid}
use peer_chat.Store.{Store, get, put}

-- What the module takes from `pathlib` and `hashlib`: whether a path with its `~` expanded is
-- absolute, that path resolved, and the first 16 digits of a SHA-256.
pub record Host : Type 0 where
  pub is_absolute : String → Bool
  pub resolve : String → String
  pub digest : String → String
  pub resolve-resolve : (p : String) → resolve (resolve p) ≡ resolve p
  pub is_absolute-resolve : (p : String) → is_absolute (resolve p) ≡ true
  pub is_blank-resolve : (p : String) → is_blank (resolve p) ≡ false

-- The tests of `_normalise` on a Claude entry.
abbrev pub is_filled : Value → Bool
is_filled (str s) = not (s == "")
is_filled _ = false

abbrev pub is_pid : Value → Bool
is_pid (int n) = is_positive n
is_pid _ = false

abbrev pub is_thread : Value → Bool
is_thread (str s) = is_lower_uuid s
is_thread _ = false

abbrev pub text_of : Value → String
text_of (str s) = s
text_of _ = ""

-- `out.setdefault("name", out["key"][:8])`
abbrev pub with_name : String → Fields → Fields
with_name key d = if is_some (lookup "name" d) then d else insert "name" (str (prefix 8 key)) d

-- An entry with no identity, pid or socket is no peer.
unfoldable pub normalise_claude : Fields → Option Fields
normalise_claude d =
    let identity = member (obj d) "identity" in
    if is_filled identity && (is_pid (member (obj d) "pid") && is_filled (member (obj d) "socket"))
    then some
        (with_name (text_of identity) (insert "key" identity (insert "kind" (str "claude") d)))
    else none

module _ (host : Host) where
  open host use {is_absolute, resolve, digest}

  -- `_absolute_root`
  abbrev pub absolute_root : Value → Option String
  absolute_root (str s) = if not (is_blank s) && is_absolute s then some (resolve s) else none
  absolute_root _ = none

  -- `codex_key`
  abbrev pub codex_key : String → String → String
  codex_key home thread =
      text_append "codex:" (text_append (digest (resolve home)) (text_append ":" thread))

  abbrev pub codex_fields : String → String → String → Fields → Fields
  codex_fields home root thread d =
      let key = codex_key (resolve home) thread in
      with_name key (
        insert "key" (str key)
          (insert "state_root" (str root) (insert "codex_home" (str (resolve home)) d)))

  unfoldable pub normalise_codex : Fields → Option Fields
  normalise_codex d =
      let home = text_of (member (obj d) "codex_home") in
      let thread = member (obj d) "thread" in
      if is_thread thread && (not (is_blank home) && is_absolute home)
      then (elim (absolute_root (member (obj d) "state_root")) [
        | none ↦ none
        | some root ↦ some (codex_fields home root (text_of thread) d)
      ])
      else none

  -- `_normalise`
  unfoldable pub normalise : Value → Option Fields
  normalise (obj d) =
      let kind = member (obj d) "kind" in
      if is_text kind "codex"
      then normalise_codex d
      else if is_null kind || is_text kind "claude"
      then normalise_claude d
      else none
  normalise _ = none

  abbrev pub add_peer : Fields → Fields → Fields
  add_peer d table = insert (text_of (member (obj d) "key")) (obj d) table

  -- The loop of `all_peers` over the entries of the map.
  unfoldable pub collect : Fields → Fields → Fields
  collect end out = out
  collect (field key entry rest) out = elim (normalise entry) [
    | none ↦ collect rest out
    | some d ↦ collect rest (add_peer d out)
  ]

  -- The entry that `all_peers` makes of a legacy `config["peer"]`.
  abbrev pub legacy_entry : Value → Value
  legacy_entry legacy = obj (
      field "kind" (str "claude") (
        field "pid" (member legacy "pid") (
          field "identity" (member legacy "identity") (
            field "socket" (member legacy "socket") (
              field "name" (or_else (member legacy "name") (str "Claude"))
                (field "enrolled_by" (str "legacy") end))))))

  -- A legacy peer counts only where there is no map.
  unfoldable pub legacy_table : Value → Fields
  legacy_table (obj legacy) = elim (normalise (legacy_entry (obj legacy))) [
    | none ↦ end
    | some d ↦ add_peer d end
  ]
  legacy_table _ = end

  unfoldable pub table_of : Value → Value → Fields
  table_of (obj table) legacy = collect table end
  table_of _ legacy = legacy_table legacy

  -- `all_peers`
  unfoldable pub all_peers : Value → Fields
  all_peers config = table_of (member config "peers") (member config "peer")

  -- `next((p for p in peers.values() if p["kind"] == "claude"), None)`
  unfoldable pub first_claude : Fields → Option Value
  first_claude end = none
  first_claude (field key peer rest) =
      let later = first_claude rest in
      if is_text (member peer "kind") "claude" then some peer else later

  -- `record.get("name", "Claude")`
  abbrev mirror_name : Value → Value
  mirror_name (obj d) = elim (lookup "name" d) [ none ↦ str "Claude" | some name ↦ name ]
  mirror_name _ = str "Claude"

  -- `_legacy_mirror`
  abbrev pub legacy_mirror : Value → Value
  legacy_mirror peer = obj (
      field "pid" (member peer "pid") (
        field "identity" (member peer "identity")
          (field "socket" (member peer "socket") (field "name" (mirror_name peer) end))))

  abbrev pub config_fields : Value → Fields
  config_fields (obj d) = d
  config_fields _ = end

  abbrev pub mirrored : Fields → Fields → Fields
  mirrored table config = elim (first_claude table) [
    | none ↦ config
    | some peer ↦ insert "peer" (legacy_mirror peer) config
  ]

  -- The configuration that `enroll` stores.
  unfoldable pub enrolled_config : Fields → Value → Fields
  enrolled_config d config =
      let fields = config_fields config in
      let table = add_peer d (all_peers (obj fields)) in
      mirrored table (insert "peers" (obj table) fields)

  -- `enroll`; `none` is its ValueError.
  unfoldable pub enroll : Value → Store → Option (Fields × Store)
  enroll peer s = elim (normalise peer) [
    | none ↦ none
    | some d ↦
        (let config = enrolled_config d (get s "config" null) in
          some (config, put "config" (obj config) s))
  ]
