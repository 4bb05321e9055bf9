-- ===== src/Frames/Trip.antt =====
-- A message that `outbound` of src/peer_chat.py sends, as `decode_frame` reads it.
use text.Mathlib.Text.{starts_with}
use peer_chat.Base.{
  ℕ, ◌⊎◌, String, ◌≡◌, refl, ap, sym, ◌∙◌, Bool, true, false, ◌||◌, Option, some, List, arith, leb,
  ltb, length, Bool-cases, inl, inr, eq_refl, some_inj,
}
use peer_chat.Base.Json.{Value, str, member, lookup}
use peer_chat.Base.Text.{is_blank, is_uuid, rstrip}
use peer_chat.Store.{Frame}
use peer_chat.Frames.{max_line}
use peer_chat.Frames.Scan.{passes}
use peer_chat.Frames.Envelope.{nested_marker, Pairs, is_value_end, print_pairs, seal, get_pair}
use peer_chat.Frames.Decode.{
  notice_mark, hops_of, check_message, check_pairs, id_of, decode_match, decode_content,
  decode_with, decode_user, decode_value, decode_frame, are_hops, is_mode,
}
use peer_chat.Frames.Outbound.{
  Sending, sender_name, sender_mode, sent_hops, address, attributes, message_of, envelope, frame_of,
  outbound, is_refused,
}
use peer_chat.Frames.Pairs.{scan_pairs-print_pairs, passes-print_pairs}
use peer_chat.Frames.Hops.{AllHops}
use peer_chat.Frames.Attributes.{
  open_envelope-seal, name-value, mode_of-mode, mode-plain, pairs, pairs-distinct, pairs-from,
  pairs-mode, pairs-hops, pairs-plain, pairs-filled,
}

hops-allowed :
    (hops : List String) → leb (length hops) 32 ≡ true → AllHops hops → are_hops hops ≡ true
hops-allowed hops l a = rw (l, a) refl

module _ (is_word : ℕ → Bool) where
  check_message-sent :
      (expected id body mode : String) (props : Pairs) (hops : List String)
      → get_pair "from-mode" props ≡ some mode
      → get_pair "from" props ≡ some expected
      → hops_of (get_pair "hop-chain" props) ≡ hops
      → is_mode mode ≡ true
      → is_blank body ≡ false
      → nested_marker is_word body ≡ false
      → starts_with body notice_mark ≡ false
      → are_hops hops ≡ true
      → check_message is_word expected id body props ≡ some (Frame.message id body mode hops)
  unfolding check_message
  check_message-sent expected id body mode props hops m f h i b n s a =
      rw (check_message, m, f, h, i, b, n, s, a, eq_refl expected) refl

  -- A frame of `outbound` passes each test of `decode_frame`.
  decode_user-sent :
      (o : Sending) (mode : String) (body : String)
      → is_uuid o.id ≡ true
      → (mode ≡ "bypass") ⊎ (mode ≡ "prompting")
      → passes is_value_end (address o) ≡ true
      → AllHops (sent_hops o)
      → leb (length (sent_hops o)) 32 ≡ true
      → is_blank body ≡ false
      → nested_marker is_word body ≡ false
      → starts_with body notice_mark ≡ false
      → decode_user is_word (address o) (frame_of o (seal (print_pairs (attributes o mode)) body))
        ≡ some (Frame.message o.id body mode (sent_hops o))
  unfolding decode_user decode_with decode_content decode_match attributes member lookup
  decode_user-sent o mode body u m f a l b n s =
      let props = pairs (address o) (sent_hops o) (sender_name o) mode in
      let (is, plain) = mode-plain mode m in
      let printable =
        pairs-plain (address o) (sender_name o) mode (sent_hops o) a f (name-value o) plain in
      let known : id_of (str o.id) ≡ some o.id = rw u refl in
      ap (λ i. decode_with is_word (address o) i (message_of (seal (print_pairs props) body))) known
      ∙ ap (decode_match is_word (address o) o.id) (
          open_envelope-seal (print_pairs props) body (passes-print_pairs props printable)
            (pairs-filled (address o) (sender_name o) mode (sent_hops o)))
      ∙ ap (check_pairs is_word (address o) o.id body)
          (scan_pairs-print_pairs ("from", address o) _ printable)
      ∙ rw (pairs-distinct (address o) (sender_name o) mode (sent_hops o)) (
          check_message-sent (address o) o.id body mode props (sent_hops o)
            (pairs-mode (address o) (sender_name o) mode (sent_hops o))
            (pairs-from (address o) (sender_name o) mode (sent_hops o))
            (pairs-hops (address o) (sender_name o) mode (sent_hops o) a) is b n s
            (hops-allowed (sent_hops o) l a))

blank-rstrip : (s : String) → is_blank s ≡ false → is_blank (rstrip s) ≡ false
unfolding is_blank rstrip
blank-rstrip String.[] h = cc
blank-rstrip (String.◌∷◌ c s) h = ground (arith, blank-rstrip s)

-- What a line that is sent has passed.
record Sent (is_word : ℕ → Bool) (dump : Value → List ℕ) (o : Sending) (mode : String)
    (line : List ℕ) : Type 0 where
  written : dump (frame_of o (envelope o mode)) ≡ line
  filled : is_blank o.body ≡ false
  chain : leb (length (sent_hops o)) 32 ≡ true
  short : ltb max_line (length line) ≡ false

within : (n : ℕ) → ltb 32 n ≡ false → leb n 32 ≡ true
within n h = ground arith

neither : (a b : Bool) → (a || b) ≡ false → (a ≡ false) × (b ≡ false)
neither a b h = (ground arith, ground arith)

outbound-Sent :
    (is_word : ℕ → Bool) (dump : Value → List ℕ) (o : Sending) (mode : String) (line : List ℕ)
    → sender_mode o ≡ some mode
    → outbound is_word dump o ≡ some line
    → Sent is_word dump o mode line
unfolding outbound
outbound-Sent is_word dump o mode line m h = elim (Bool-cases (is_refused is_word o)) [
  | inl e ↦ cc (rw (e, outbound) at h)
  | inr e ↦
      (let written = dump (frame_of o (envelope o mode)) in
        elim (Bool-cases (ltb 32 (length (sent_hops o)) || ltb max_line (length written))) [
          | inl f ↦ cc (rw (e, m, f, outbound) at h)
          | inr f ↦
              let same : written ≡ line = some_inj written line (rw (e, m, f, outbound) at h) in
              let (few, short) = neither (ltb 32 (length (sent_hops o))) _ f in
              record {
                written = same;
                filled = (neither (is_blank o.body) _ e).0;
                chain = within (length (sent_hops o)) few;
                short = rw (← same) short;
              }
        ])
]

decode_value-user :
    (is_word : ℕ → Bool) (o : Sending) (content : String)
    → decode_value is_word (address o) (frame_of o content)
      ≡ decode_user is_word (address o) (frame_of o content)
unfolding decode_value member lookup
decode_value-user is_word o content = rw (eq_refl (address o)) refl

-- A line that outbound returns is decoded by the peer, which expects the sender's address, to a message
-- with the same id, the text without the white space at its end, the sender's mode and the chain of hops
-- that was sent: where loads reads the frame that dumps wrote, the id is a UUID, the address can stand in
-- an attribute, every hop is one, and the text without that white space neither holds a marker nor
-- starts like a notice.
pub decode_frame-outbound :
    (is_word : ℕ → Bool) (parse : List ℕ → Option Value) (dump : Value → List ℕ) (o : Sending)
    (mode : String) (line : List ℕ)
    → sender_mode o ≡ some mode
    → outbound is_word dump o ≡ some line
    → parse (dump (frame_of o (envelope o mode))) ≡ some (frame_of o (envelope o mode))
    → is_uuid o.id ≡ true
    → passes is_value_end (address o) ≡ true
    → AllHops (sent_hops o)
    → nested_marker is_word (rstrip o.body) ≡ false
    → starts_with (rstrip o.body) notice_mark ≡ false
    → decode_frame is_word parse line (address o)
      ≡ some (Frame.message o.id (rstrip o.body) mode (sent_hops o))
unfolding decode_frame envelope
decode_frame-outbound is_word parse dump o mode line m h law u f a n s =
    let sent = outbound-Sent is_word dump o mode line m h in
    let read : parse line ≡ some (frame_of o (envelope o mode)) =
      ap parse (sym sent.written) ∙ law in
    rw (sent.short, read)
      (decode_value-user is_word o (envelope o mode)
        ∙ decode_user-sent is_word o mode (rstrip o.body) u
            (mode_of-mode o.permission o.advisory mode m) f a sent.chain
            (blank-rstrip o.body sent.filled) n s)
