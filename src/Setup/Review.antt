-- ===== src/Setup/Review.antt =====
-- `review_hooks` and `enable_reviewed` of src/peer_setup.py: the owner's consent to the hooks that Codex
-- shows. Codex and the files are an argument, with a state of its own. The key of a hook is text, as
-- Codex sends it; a `failed` is a ValueError of the source, `crashed` any other exception.
use Prim.Native.String.{compare as compare_texts, ◌++◌ as text_append}
use text.Mathlib.Text.{starts_with}
use peer_chat.Base.{
  String, Bool, true, false, not, ◌&&◌, Option, none, some, List, [], ◌∷◌, map, if◌then◌else◌, ◌==◌,
  any, select, length, nat_eq,
}
use peer_chat.Base.Int.{pos}
use peer_chat.Base.Json.{
  Value, bool, int, str, arr, obj, Fields, end, Items, no_items, item, lookup, member, is_text,
  is_null, truthy,
}
use Prim.Native.Nat.{Ordering}

pub data Outcome {ℓ} (A : Type ℓ) : Type ℓ where
  done : A → Outcome A
  failed : String → Outcome A
  crashed : Outcome A

infixl 5 ◌>>=◌
abbrev pub ◌>>=◌ {ℓ κ} : {A : Type ℓ} {B : Type κ} → Outcome A → (A → Outcome B) → Outcome B
done a >>= f = f a
failed e >>= f = failed e
crashed >>= f = crashed

abbrev expected_events : List String
expected_events = "sessionStart" ∷ "postToolUse" ∷ "userPromptSubmit" ∷ "stop" ∷ []

-- What the review keeps of a hook.
pub record Reviewed : Type 0 where
  pub key : String
  pub event : String
  pub command : String
  pub hash : String
  pub trust : Value

abbrev pub is_trusted : Reviewed → Bool
is_trusted h = is_text h.trust "trusted"

abbrev is_on : Value → Bool
is_on (bool b) = b
is_on _ = false

abbrev is_three : Value → Bool
is_three (int (pos n)) = nat_eq n 3
is_three _ = false

-- The tests of the definition after its command.
unfoldable pub is_plain : Value → Bool
is_plain hook =
    not (truthy (member hook "isManaged"))
    && (is_on (member hook "enabled")
        && (is_text (member hook "handlerType") "command"
            && (is_three (member hook "timeoutSec")
                && (not (truthy (member hook "async")) && is_null (member hook "matcher")))))

abbrev pub differs : Outcome Reviewed
differs = failed "Bridge hook differs from the setup definition; review refused"

-- `hook[k]` of what is kept.
abbrev pub keep : String → String → Fields → Outcome Reviewed
keep event command hook = elim (lookup "key" hook) [
  | some (str key) ↦ (elim (lookup "currentHash" hook) [
    | some (str hash) ↦ (elim (lookup "trustStatus" hook) [
      | some trust ↦
          done (record { key = key; event = event; command = command; hash = hash; trust = trust })
      | none ↦ crashed
    ])
    | _ ↦ crashed
  ])
  | _ ↦ crashed
]

abbrev has_hash : Fields → Bool
has_hash hook = elim (member (obj hook) "currentHash") [
  | str hash ↦ starts_with hash "sha256:"
  | _ ↦ false
]

-- A hook of the bridge.
unfoldable pub review_one : String → Fields → Outcome Reviewed
review_one command hook =
    if not (is_text (member (obj hook) "command") command)
    then differs
    else elim (member (obj hook) "eventName") [
      | str event ↦
          if not (any (λ e. e == event) expected_events && is_plain (obj hook))
          then differs
          else if not (has_hash hook && truthy (member (obj hook) "key"))
          then failed "This Codex version does not expose exact hook identities and hashes"
          else keep event command hook
      | arr _ ↦ crashed
      | obj _ ↦ crashed
      | _ ↦ differs
    ]

-- `Path(hook.get("sourcePath", "")).resolve() != target`
abbrev is_elsewhere : (String → String) → String → Fields → Outcome Bool
is_elsewhere resolve target hook = elim (lookup "sourcePath" hook) [
  | none ↦ done (not (resolve "" == target))
  | some (str path) ↦ done (not (resolve path == target))
  | _ ↦ crashed
]

-- The loop over the hooks that Codex shows.
unfoldable pub review_all : (String → String) → String → String → Items → Outcome (List Reviewed)
review_all resolve target command no_items = done []
review_all resolve target command (item (obj hook) rest) =
    let others = review_all resolve target command rest in
    if not (is_text (member (obj hook) "statusMessage") "peer-chat: deliver invited peer messages")
    then others
    else is_elsewhere resolve target hook >>= λ elsewhere.
        if elsewhere
        then others
        else review_one command hook >>= λ h. others >>= λ hs. done (h ∷ hs)
review_all resolve target command (item _ rest) = crashed

abbrev is_before : String → String → Bool
is_before s t = elim (compare_texts s t) [ Ordering.gt ↦ false | _ ↦ true ]

-- `sorted(hooks, key=lambda h: h["key"])`
unfoldable pub place_hook : Reviewed → List Reviewed → List Reviewed
place_hook h [] = h ∷ []
place_hook h (x ∷ xs) =
    let rest = place_hook h xs in if is_before h.key x.key then h ∷ x ∷ xs else x ∷ rest

unfoldable pub sort_hooks : List Reviewed → List Reviewed
unfolding place_hook
sort_hooks [] = []
sort_hooks (h ∷ hs) = place_hook h (sort_hooks hs)

-- The set of the events is the expected one.
unfoldable pub covers : List Reviewed → Bool
covers hooks =
    nat_eq (length hooks) 4
    && (any (λ h. h.event == "sessionStart") hooks
        && (any (λ h. h.event == "postToolUse") hooks
            && (any (λ h. h.event == "userPromptSubmit") hooks
                && any (λ h. h.event == "stop") hooks)))

abbrev check_covered : List Reviewed → Outcome (List Reviewed)
check_covered hooks =
    if covers hooks
    then done (sort_hooks hooks)
    else failed "Codex did not discover all four bridge hooks"

-- `review_hooks`, on the hooks that the client returned.
unfoldable pub review_hooks : (String → String) → String → String → Items → Outcome (List Reviewed)
unfolding review_all
review_hooks resolve target command hooks =
    review_all resolve target command hooks >>= check_covered

-- `review_digest` is of these: the hooks without their trust.
pub record Definition : Type 0 where
  pub key : String
  pub event : String
  pub command : String
  pub hash : String

abbrev pub definition : Reviewed → Definition
definition h = record { key = h.key; event = h.event; command = h.command; hash = h.hash }

-- One hash that is written, under the path `hooks.state."key".trusted_hash`.
pub record Edit : Type 0 where
  pub key_path : String
  pub value : String

pub record Request : Type 0 where
  pub edits : List Edit
  pub file_path : String
  pub expected_version : Option Value

-- Codex and the files: the hooks that it shows, the layers of its configuration, the backup of the
-- configuration file, and the write. `none` is an exception. `quote` is `json.dumps` of a text.
pub record Codex (S : Type 0) : Type 0 where
  pub hooks : S → Option Items
  pub layers : S → Option Items
  pub backup : S → Option S
  pub write : Request → S → Option S
  pub resolve : String → String
  pub quote : String → String
  pub digest : List Definition → String

abbrev pub edit_of : (String → String) → Reviewed → Edit
edit_of quote h = record {
  key_path = text_append "hooks.state." (text_append (quote h.key) ".trusted_hash");
  value = h.hash;
}

-- `edits`: for the hooks that are not trusted.
unfoldable pub edits_of : (String → String) → List Reviewed → List Edit
edits_of quote hooks = map (edit_of quote) (select (λ h. not (is_trusted h)) hooks)

abbrev pub or_crash {ℓ} : {A : Type ℓ} → Option A → Outcome A
or_crash none = crashed
or_crash (some a) = done a

-- `layer.get("name", {})`
abbrev name_of_layer : Fields → Outcome Value
name_of_layer layer = elim (lookup "name" layer) [
  | none ↦ done (obj end)
  | some (obj d) ↦ done (obj d)
  | some _ ↦ crashed
]

-- The layer is of the user's configuration file; its `file` is text.
abbrev is_user_file : (String → String) → String → Value → Outcome Bool
is_user_file resolve path name =
    if is_text (member name "type") "user"
    then elim (member name "file") [ str file ↦ done (resolve file == resolve path) | _ ↦ crashed ]
    else done false

-- `versions`, of which the first is used.
unfoldable pub versions : (String → String) → String → Items → Outcome (List Value)
versions resolve path no_items = done []
versions resolve path (item (obj layer) rest) =
    let others = versions resolve path rest in
    name_of_layer layer >>= λ name. is_user_file resolve path name >>= λ mine.
    if mine
    then (or_crash (lookup "version" layer) >>= λ v. others >>= λ vs. done (v ∷ vs))
    else others
versions resolve path (item _ rest) = crashed

abbrev first_of : List Value → Option Value
first_of [] = none
first_of (v ∷ vs) = some v

-- What `enable_reviewed` leaves: the state, the request that it sent, and what it returns.
pub record Enabled (S : Type 0) : Type 0 where
  pub state : S
  pub sent : Option Request
  pub result : Outcome (List Reviewed)

module _ {S : Type 0} (codex : Codex S) (home command : String) where
  abbrev pub hooks_path : String
  hooks_path = codex.resolve (text_append home "/hooks.json")

  abbrev pub config_path : String
  config_path = text_append home "/config.toml"

  unfoldable pub review : S → Outcome (List Reviewed)
  unfolding review_hooks
  review s = or_crash (codex.hooks s) >>= review_hooks codex.resolve hooks_path command

  abbrev pub request_for : List Edit → S → Outcome Request
  request_for edits s = or_crash (codex.layers s) >>= λ layers.
      versions codex.resolve config_path layers >>= λ vs.
      done (record { edits = edits; file_path = config_path; expected_version = first_of vs })

  abbrev pub confirm : List Reviewed → Outcome (List Reviewed)
  confirm hooks =
      if any (λ h. not (is_trusted h)) hooks
      then failed "Codex did not confirm hook trust; setup is incomplete"
      else done hooks

  abbrev pub stopped : S → Option Request → Enabled S
  stopped s sent = record { state = s; sent = sent; result = crashed }

  abbrev pub finish_review : S → Option Request → Enabled S
  finish_review s sent = record { state = s; sent = sent; result = review s >>= confirm }

  abbrev pub send : Request → S → Enabled S
  send request s = elim (codex.write request s) [
    | none ↦ stopped s (some request)
    | some s' ↦ finish_review s' (some request)
  ]

  unfoldable pub write_edits : List Edit → S → Enabled S
  write_edits [] s = finish_review s none
  write_edits (e ∷ es) s = elim (request_for (e ∷ es) s) [
    | done request ↦ (elim (codex.backup s) [ none ↦ stopped s none | some s' ↦ send request s' ])
    | failed why ↦ record { state = s; sent = none; result = failed why }
    | crashed ↦ stopped s none
  ]

  -- `enable_reviewed`
  unfoldable pub enable_reviewed : String → S → Enabled S
  unfolding write_edits
  enable_reviewed approved s = elim (review s) [
    | failed why ↦ record { state = s; sent = none; result = failed why }
    | crashed ↦ stopped s none
    | done hooks ↦
        if not (codex.digest (map definition hooks) == approved)
        then record {
          state = s;
          sent = none;
          result = failed "Hook definitions changed since review; consent does not match";
        }
        else write_edits (edits_of codex.quote hooks) s
  ]
