-- ===== src/Setup/Install.antt =====
-- `install` of src/peer_setup.py: the file of the hooks and its backup. Reading JSON from a text and
-- writing it are arguments; `none` is an exception, raised before anything is written.
use Prim.Native.String.{◌++◌}
use peer_chat.Base.{String, Bool, false, Option, none, some, if◌then◌else◌, ◌==◌}
use peer_chat.Base.Json.{Value, obj, Fields, end}
use peer_chat.Setup.{merge_hooks}

-- `hooks.json` and `hooks.json.peer-chat-backup`, where they exist.
pub record HookFiles : Type 0 where
  pub target : Option String
  pub backup : Option String

abbrev object_of : Option Value → Option Fields
object_of (some (obj d)) = some d
object_of _ = none

abbrev same_file : Option String → String → Bool
same_file none text = false
same_file (some old) text = old == text

-- The first text that was there is backed up once.
abbrev back_up : Option String → Option String → Option String
back_up (some kept) old = some kept
back_up none old = old

unfoldable pub install :
    (String → Option Value) → (Value → String) → String → Bool → HookFiles → Option HookFiles
unfolding merge_hooks
install parse dump command remove files =
    let existing : Option Fields = elim files.target [
      | none ↦ some end
      | some old ↦ object_of (parse old)
    ] in
    elim existing [
      | none ↦ none
      | some d ↦ (elim (merge_hooks command remove d) [
        | none ↦ none
        | some merged ↦
            let text = dump (obj merged) ++ "\n" in
            if same_file files.target text
            then some files
            else some (record { target = some text; backup = back_up files.backup files.target })
      ])
    ]
