-- ===== src/Setup.antt =====
-- src/peer_setup.py: the merge of the bridge's hooks into the configuration of Codex. The documents
-- are JSON; `none` is an exception, raised before anything is written.
mod Retain
pub mod Merge
pub mod Review
pub mod Consent
pub mod Install
use peer_chat.Base.{
  String, Bool, true, false, not, Option, none, some, List, [], ◌∷◌, if◌then◌else◌, ◌==◌, ◌||◌,
}
use peer_chat.Base.Int.{pos}
use peer_chat.Base.Json.{
  Value, null, bool, int, real, str, arr, obj, Fields, end, field, Items, no_items, item, lookup,
  insert, member, is_text,
}

abbrev pub marker : String
marker = "peer-chat: deliver invited peer messages"

abbrev pub events : List String
events = "SessionStart" ∷ "PostToolUse" ∷ "UserPromptSubmit" ∷ "Stop" ∷ []

abbrev pub limit_of : String → Fields
limit_of event =
    if event == "PostToolUse" || event == "UserPromptSubmit"
    then field "additionalContextLimit" (int (pos 5000)) end
    else end

-- `hook_definition`
abbrev pub hook_definition : String → String → Value
hook_definition command event =
    let handler = field "type" (str "command") (
      field "command" (str command)
        (field "timeout" (int (pos 3)) (field "statusMessage" (str marker) (limit_of event)))) in
    obj (field "hooks" (arr (item (obj handler) no_items)) end)

-- `d.pop(k, None)`
unfoldable pub remove : String → Fields → Fields
remove k end = end
remove k (field j v d) = let rest = remove k d in if j == k then rest else field j v rest

-- What a loop runs over, each member of which must be a dictionary: a list, or an empty dictionary or
-- text. All else fails there or at the first member.
abbrev pub entries : Value → Option Items
entries (arr xs) = some xs
entries (obj end) = some no_items
entries (str s) = if s == "" then some no_items else none
entries _ = none

-- `d.get(k, [])`
abbrev pub get_list : String → Fields → Value
get_list k d = elim (lookup k d) [ none ↦ arr no_items | some v ↦ v ]

-- `[h for h in handlers if h.get("statusMessage") != MARKER]`
unfoldable pub foreign : Items → Option Items
foreign no_items = some no_items
foreign (item (obj h) rest) = elim (foreign rest) [
  | none ↦ none
  | some kept ↦
      some (if is_text (member (obj h) "statusMessage") marker then kept else item (obj h) kept)
]
foreign (item _ rest) = none

-- The handlers of a group that are not the bridge's.
unfoldable pub foreign_handlers : Fields → Option Items
foreign_handlers group = elim (entries (get_list "hooks" group)) [
  | none ↦ none
  | some handlers ↦ foreign handlers
]

-- A group is kept with its other handlers, if it has any.
abbrev pub keep_group : Fields → Items → Items → Items
keep_group group no_items kept = kept
keep_group group (item h hs) kept = item (obj (insert "hooks" (arr (item h hs)) group)) kept

unfoldable pub retained : Items → Option Items
retained no_items = some no_items
retained (item (obj group) rest) = elim (foreign_handlers group) [
  | none ↦ none
  | some handlers ↦ (elim (retained rest) [
    | none ↦ none
    | some kept ↦ some (keep_group group handlers kept)
  ])
]
retained (item _ rest) = none

abbrev pub append : Items → Value → Items
append no_items v = item v no_items
append (item x xs) v = item x (append xs v)

abbrev pub with_ours : String → Bool → String → Items → Items
with_ours command remove event kept =
    if remove then kept else append kept (hook_definition command event)

-- `groups[event] = retained` or `groups.pop(event, None)`
abbrev pub store_groups : String → Items → Fields → Fields
store_groups event no_items groups = remove event groups
store_groups event (item g gs) groups = insert event (arr (item g gs)) groups

abbrev pub retained_of : String → Fields → Option Items
retained_of event groups = elim (entries (get_list event groups)) [
  | none ↦ none
  | some old ↦ retained old
]

abbrev pub merge_event : String → Bool → String → Fields → Option Fields
merge_event command remove event groups = elim (retained_of event groups) [
  | none ↦ none
  | some kept ↦ some (store_groups event (with_ours command remove event kept) groups)
]

-- The loop over the events.
unfoldable pub merge_events : String → Bool → List String → Fields → Option Fields
merge_events command remove [] groups = some groups
merge_events command remove (event ∷ rest) groups = elim (merge_event command remove event groups) [
  | none ↦ none
  | some groups' ↦ merge_events command remove rest groups'
]

-- `result.setdefault("hooks", {})`
abbrev pub hook_groups : Fields → Option Fields
hook_groups d = elim (lookup "hooks" d) [
  | none ↦ some end
  | some v ↦ (elim v [ obj groups ↦ some groups | _ ↦ none ])
]

-- `merge_hooks`
unfoldable pub merge_hooks : String → Bool → Fields → Option Fields
merge_hooks command remove d = elim (hook_groups d) [
  | none ↦ none
  | some groups ↦ (elim (merge_events command remove events groups) [
    | none ↦ none
    | some groups' ↦ some (insert "hooks" (obj groups') d)
  ])
]
