-- ===== src/Frames/Decode.antt =====
-- `decode_frame` of src/peer_chat.py. `parse` is `json.loads` of the bytes of a line, `none` where that
-- raises; `is_word` is `\w` of a character.
use Prim.Native.Char.{code}
use text.Mathlib.Text.{starts_with}
use peer_chat.Base.{
  ℕ, String, Bool, true, false, not, ◌&&◌, ◌||◌, Option, none, some, List, [], if◌then◌else◌, ◌==◌,
  leb, ltb, nat_eq, any, length,
}
use peer_chat.Base.Json.{Value, null, int, str, member, is_text}
use peer_chat.Base.Text.{is_blank, is_uuid, text_length}
use peer_chat.Base.Format.{split_list}
use peer_chat.Store.{Frame}
use peer_chat.Frames.{max_line}
use peer_chat.Frames.Envelope.{
  nested_marker, Pairs, Mode, scan_pairs, are_distinct, get_pair, open_envelope,
}

abbrev is_lower_hex : ℕ → Bool
is_lower_hex c = (leb b'0' c && leb c b'9') || (leb b'a' c && leb c b'f')

abbrev pub all_hex : String → Bool
all_hex String.[] = true
all_hex (String.◌∷◌ c s) = is_lower_hex (code c) && all_hex s

-- `re.fullmatch(r"[0-9a-f]{24}", h)`
unfoldable pub is_hop : String → Bool
is_hop h = nat_eq (text_length h) 24 && all_hex h

abbrev pub notice_mark : String
notice_mark = "PEER CHAT DELIVERY NOTICE"

abbrev pub is_mode : String → Bool
is_mode mode = mode == "bypass" || mode == "prompting"

-- `props.get("hop-chain", "").split(",") if props.get("hop-chain") else []`
unfoldable pub hops_of : Option String → List String
hops_of none = []
hops_of (some chain) = if chain == "" then [] else split_list b',' chain

abbrev pub are_hops : List String → Bool
are_hops hops = leb (length hops) 32 && not (any (λ h. not (is_hop h)) hops)

abbrev text_in : ℕ → Value → Option String
text_in limit (str s) = if leb (text_length s) limit then some s else none
text_in limit _ = none

abbrev is_remaining : Value → Bool
is_remaining null = true
is_remaining (int n) = true
is_remaining v = is_text v "unlimited"

-- A notice of the control channel.
unfoldable pub decode_notice : Value → Option Frame
decode_notice frame = elim (text_in 80 (member frame "state")) [
  | none ↦ none
  | some state ↦ (elim (text_in 1000 (member frame "warning")) [
    | none ↦ none
    | some warning ↦
        if is_remaining (member frame "remaining")
        then some (Frame.notice state warning (member frame "remaining"))
        else none
  ])
]

abbrev pub id_of : Value → Option String
id_of (str s) = if is_uuid s then some s else none
id_of _ = none

abbrev is_outcome : String → Bool
is_outcome s =
    s == "held"
    || (s == "delivered"
        || (s == "refused" || (s == "denied" || (s == "expired" || s == "dropped"))))

-- The receipt of a message.
unfoldable pub decode_receipt : Value → Option Frame
decode_receipt frame = elim (id_of (member frame "orig_msg_id")) [
  | none ↦ none
  | some id ↦ (elim (member frame "status") [
    | str status ↦ if is_outcome status then some (Frame.receipt id status) else none
    | _ ↦ none
  ])
]

abbrev is_from : String → Option String → Bool
is_from expected none = false
is_from expected (some from) = from == expected

module _ (is_word : ℕ → Bool) where
  -- The tests of a message after its attributes were read.
  unfoldable pub check_message : String → String → String → Pairs → Option Frame
  unfolding hops_of is_hop nested_marker get_pair
  check_message expected id body props = elim (get_pair "from-mode" props) [
    | none ↦ none
    | some mode ↦
        (let hops = hops_of (get_pair "hop-chain" props) in
          if is_from expected (get_pair "from" props)
            && (is_mode mode
                && (not (is_blank body)
                    && (not (nested_marker is_word body)
                        && (not (starts_with body notice_mark) && are_hops hops))))
          then some (Frame.message id body mode hops)
          else none)
  ]

  abbrev pub check_pairs : String → String → String → Option Pairs → Option Frame
  check_pairs expected id body none = none
  check_pairs expected id body (some props) =
      if are_distinct props then check_message expected id body props else none

  unfoldable pub decode_match : String → String → Option (String × String) → Option Frame
  unfolding check_message scan_pairs are_distinct
  decode_match expected id none = none
  decode_match expected id (some (attrs, body)) =
      check_pairs expected id body (scan_pairs (Mode.in_key "") attrs)

  unfoldable pub decode_content : String → String → Value → Option Frame
  unfolding decode_match open_envelope
  decode_content expected id (str content) = decode_match expected id (open_envelope content)
  decode_content expected id _ = none

  unfoldable pub decode_with : String → Option String → Value → Option Frame
  unfolding decode_content
  decode_with expected none message = none
  decode_with expected (some id) message =
      if is_text (member message "role") "user"
      then decode_content expected id (member message "content")
      else none

  -- A message of a user.
  unfoldable pub decode_user : String → Value → Option Frame
  unfolding decode_with
  decode_user expected frame =
      decode_with expected (id_of (member frame "msg_id")) (member frame "message")

  unfoldable pub decode_value : String → Value → Option Frame
  unfolding decode_notice decode_receipt decode_user
  decode_value expected frame =
      if not (is_text (member frame "from") expected)
      then none
      else if is_text (member frame "type") "control"
          && is_text (member frame "action") "peer_chat_notice"
      then decode_notice frame
      else if is_text (member frame "type") "control"
          && is_text (member frame "action") "peer_message_status"
      then decode_receipt frame
      else if is_text (member frame "type") "user"
      then decode_user expected frame
      else none

  -- `decode_frame`
  unfoldable pub decode_frame : (List ℕ → Option Value) → List ℕ → String → Option Frame
  unfolding decode_value
  decode_frame parse raw expected =
      if ltb max_line (length raw)
      then none
      else elim (parse raw) [ none ↦ none | some frame ↦ decode_value expected frame ]
