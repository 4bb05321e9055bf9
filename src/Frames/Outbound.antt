-- ===== src/Frames/Outbound.antt =====
-- `outbound` of src/peer_chat.py: the frame that is written to a peer. The checks of the endpoint and
-- the write are outside; the permission class is what `permission_class` finds, and `own_hop` the digest
-- of the own thread.
use Prim.Native.Char.{code}
use Prim.Native.String.{◌++◌}
use text.Mathlib.Text.{starts_with}
use peer_chat.Base.{
  ℕ, String, Bool, not, ◌&&◌, ◌||◌, Option, none, some, List, [], ◌∷◌, ◌++◌ as join_lists,
  if◌then◌else◌, ◌==◌, leb, ltb, nat_eq, any, length,
}
use peer_chat.Base.Int.{pos}
use peer_chat.Base.Json.{Value, int, str, obj, end, field}
use peer_chat.Base.Text.{is_blank, prefix, rstrip}
use peer_chat.Base.Format.{join_with}
use peer_chat.Registry.{Permission}
use peer_chat.Frames.{max_line}
use peer_chat.Frames.Envelope.{nested_marker, Pairs, print_pairs, seal}
use peer_chat.Frames.Decode.{notice_mark}

-- What a call is about: the text and the id, the hops of the message that it answers, and whether it
-- is the bridge's own advisory; then the peer, the own socket, the permission class and the model.
pub record Sending : Type 0 where
  pub body : String
  pub id : String
  pub hops : List String
  pub advisory : Bool
  pub to_codex : Bool
  pub socket : String
  pub permission : Option Permission
  pub model : Option String
  pub own_hop : String

abbrev is_name_char : ℕ → Bool
is_name_char c =
    (leb b'A' c && leb c b'Z')
    || ((leb b'a' c && leb c b'z')
        || ((leb b'0' c && leb c b'9') || (nat_eq c b'_' || (nat_eq c b'.' || nat_eq c b'-'))))

-- `re.sub(r"[^A-Za-z0-9_.-]", "_", model)`
unfoldable pub safe_name : String → String
safe_name String.[] = ""
safe_name (String.◌∷◌ c s) =
    if is_name_char (code c) then String.◌∷◌ c (safe_name s) else String.◌∷◌ "_" (safe_name s)

abbrev pub model_suffix : Option String → String
model_suffix none = ""
model_suffix (some model) = if model == "" then "" else "-" ++ prefix 48 (safe_name model)

-- `sender_name`
unfoldable pub sender_name : Sending → String
unfolding safe_name
sender_name o = if o.advisory then "peer-chat-bridge" else "Codex" ++ model_suffix o.model

-- `mode`: without known permissions only an advisory is sent, which then cannot claim bypass.
unfoldable pub mode_of : Option Permission → Bool → Option String
mode_of (some Permission.bypass) advisory = some "bypass"
mode_of (some Permission.prompting) advisory = some "prompting"
mode_of (some Permission.unknown) advisory = if advisory then some "prompting" else none
mode_of none advisory = if advisory then some "prompting" else none

abbrev pub sender_mode : Sending → Option String
sender_mode o = mode_of o.permission o.advisory

-- The chain of hops, with the own one at its end.
unfoldable pub sent_hops : Sending → List String
sent_hops o =
    if o.to_codex || not (any (λ h. h == o.own_hop) o.hops)
    then join_lists o.hops (o.own_hop ∷ [])
    else o.hops

abbrev pub address : Sending → String
address o = "uds:" ++ o.socket

abbrev pub with_chain : List String → Pairs → Pairs
with_chain [] rest = rest
with_chain (h ∷ hs) rest = ("hop-chain", join_with "," (h ∷ hs)) ∷ rest

-- The attributes, in their order.
unfoldable pub attributes : Sending → String → Pairs
unfolding sender_name sent_hops
attributes o mode =
    ("from", address o)
    ∷ with_chain (sent_hops o) (("from-name", sender_name o) ∷ ("from-mode", mode) ∷ [])

unfoldable pub envelope : Sending → String → String
unfolding attributes print_pairs seal rstrip
envelope o mode = seal (print_pairs (attributes o mode)) (rstrip o.body)

abbrev pub message_of : String → Value
message_of content = obj (field "role" (str "user") (field "content" (str content) end))

abbrev pub frame_of : Sending → String → Value
frame_of o content = obj (
    field "msgV" (int (pos 1)) (
      field "msg_id" (str o.id) (
        field "type" (str "user") (
          field "message" (message_of content)
            (field "from" (str (address o)) (field "priority" (str "next") end))))))

-- The tests of the text.
abbrev pub is_refused : (ℕ → Bool) → Sending → Bool
is_refused is_word o =
    is_blank o.body
    || (nested_marker is_word o.body || (o.advisory && not (starts_with o.body notice_mark)))

-- `outbound`: the bytes of the line, or `none` for its ValueError. `dump` is `json.dumps` as bytes.
unfoldable pub outbound : (ℕ → Bool) → (Value → List ℕ) → Sending → Option (List ℕ)
unfolding nested_marker mode_of envelope sent_hops
outbound is_word dump o = if is_refused is_word o then none else elim (sender_mode o) [
  | none ↦ none
  | some mode ↦
      (let line = dump (frame_of o (envelope o mode)) in
        if ltb 32 (length (sent_hops o)) || ltb max_line (length line) then none else some line)
]
