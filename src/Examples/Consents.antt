-- ===== src/Examples/Consents.antt =====
-- Documents of hooks, and a client of Codex that shows four.
use peer_chat.Base.{◌≡◌, refl, String, true, false, none, some, List, [], ◌∷◌, Option}
use peer_chat.Base.Int.{pos}
use peer_chat.Base.Json.{
  Value, null, bool, int, str, arr, obj, Fields, end, field, Items, no_items, item,
}
use peer_chat.Setup.{merge_hooks, hook_definition, remove}
use peer_chat.Setup.Merge.{SameHooks, merge_hooks_again}
use peer_chat.Setup.Review.{Codex, Request, Outcome, enable_reviewed, review}
use peer_chat.Setup.Consent.{IsConsented, enable_reviewed-IsConsented}

abbrev others : Value
others = obj (field "hooks" (arr (item (obj (field "command" (str "x") end)) no_items)) end)

abbrev document : Fields
document = field "hooks" (obj (field "Stop" (arr (item others no_items)) end)) end

abbrev installed : Option Fields
installed = merge_hooks "hook" false document

abbrev of_installed : Option Fields → Fields
of_installed none = end
of_installed (some d) = d

merge_hooks_again_example :
    (a : Fields) × (b : Fields) × (merge_hooks "other" true (of_installed installed) ≡ some a)
    × (merge_hooks "other" true document ≡ some b)
    × SameHooks a b
unfolding merge_hooks peer_chat.Base.Json.lookup peer_chat.Setup.merge_events
    peer_chat.Setup.retained peer_chat.Base.Json.insert peer_chat.Setup.foreign_handlers
    peer_chat.Setup.foreign
merge_hooks_again_example =
    merge_hooks_again "hook" "other" false true document (of_installed installed) refl

abbrev shown : String → Value → Value
shown event trust = obj (
    field "statusMessage" (str "peer-chat: deliver invited peer messages") (
      field "sourcePath" (str "/c/hooks.json") (
        field "command" (str "hook") (
          field "eventName" (str event) (
            field "enabled" (bool true) (
              field "handlerType" (str "command") (
                field "timeoutSec" (int (pos 3)) (
                  field "key" (str event)
                    (field "currentHash" (str "sha256:1") (field "trustStatus" trust end))))))))))

abbrev all_shown : Value → Items
all_shown trust = item (shown "sessionStart" trust) (
    item (shown "postToolUse" trust)
      (item (shown "userPromptSubmit" trust) (item (shown "stop" trust) no_items)))

-- The state is the trust of the hooks; a write makes them trusted.
abbrev client : Codex Value
client = record {
  hooks = λ s. some (all_shown s);
  layers = λ s. some no_items;
  backup = λ s. some s;
  write = λ r s. some (str "trusted");
  resolve = λ p. p;
  quote = λ t. t;
  digest = λ l. "d";
}

enable_reviewed-IsConsented_example :
    IsConsented client "/c" "hook" "d"
      (str "untrusted")
      (enable_reviewed client "/c" "hook" "d" (str "untrusted"))
enable_reviewed-IsConsented_example =
    enable_reviewed-IsConsented client "/c" "hook" "d" (str "untrusted")

-- The attempt of the example writes and succeeds.
enabled_all : (enable_reviewed client "/c" "hook" "d" (str "untrusted")).state ≡ str "trusted"
unfolding enable_reviewed review peer_chat.Base.Json.member peer_chat.Setup.Review.review_one
    peer_chat.Setup.Review.is_plain peer_chat.Setup.Review.covers peer_chat.Setup.Review.edits_of
    peer_chat.Setup.Review.sort_hooks peer_chat.Setup.Review.versions
enabled_all = refl
