-- ===== src/Observe/Clean.antt =====
-- `sanitize` of src/peer_observe.py: one line of printable text. `str.isprintable` of a character, for
-- which Python has a table, is an argument.
use Prim.Native.Char.{Char, code}
use Prim.Native.String.{◌++◌}
use peer_chat.Base.{
  ℕ, zero, suc, ◌+◌, ◌-◌, String, Bool, false, ◌&&◌, ◌||◌, if◌then◌else◌, ltb, leb, nat_eq, max,
}
use peer_chat.Base.Text.{prefix, text_length}
use peer_chat.Base.Format.{tail_text}

abbrev escape : ℕ
escape = 0x1b

-- `[\x00-\x08\x0b\x0c\x0e-\x1f\x7f-\x9f]`
abbrev is_control : ℕ → Bool
is_control c =
    leb c 8
    || (nat_eq c 0xb || (nat_eq c 0xc || ((leb 0xe c && leb c 0x1f) || (leb 0x7f c && leb c 0x9f))))

abbrev is_parameter : ℕ → Bool
is_parameter c = (leb b'0' c && leb c b'9') || (nat_eq c b';' || nat_eq c b'?')

abbrev is_between : ℕ → Bool
is_between c = leb b' ' c && leb c b'/'

abbrev is_final : ℕ → Bool
is_final c = leb b'@' c && leb c b'~'

-- The lengths below are of a match from here on, and zero where there is none. The classes of a CSI
-- sequence have no character in common, so the longest run of each is the only way to match.
abbrev longer : ℕ → ℕ
longer zero = 0
longer (suc n) = suc (suc n)

unfoldable pub csi_end : String → ℕ
csi_end String.[] = 0
csi_end (String.◌∷◌ c s) =
    let rest = csi_end s in
    if is_final (code c) then 1 else if is_between (code c) then longer rest else 0

unfoldable pub csi_length : String → ℕ
unfolding csi_end
csi_length String.[] = 0
csi_length (String.◌∷◌ c s) =
    let rest = csi_length s in
    if is_parameter (code c) then longer rest else csi_end (String.◌∷◌ c s)

abbrev starts_slash : String → Bool
starts_slash String.[] = false
starts_slash (String.◌∷◌ c s) = nat_eq (code c) 0x5c

-- `[^\x07\x1b]*(?:\x07|\x1b\\)`
unfoldable pub osc_length : String → ℕ
osc_length String.[] = 0
osc_length (String.◌∷◌ c s) =
    let rest = osc_length s in
    if nat_eq (code c) 7
    then 1
    else if nat_eq (code c) escape
    then if starts_slash s then 2 else 0
    else longer rest

abbrev after_bracket : ℕ → ℕ
after_bracket zero = 2
after_bracket (suc n) = 2 + suc n

-- What follows an escape: a sequence, or any one character but a line feed, or nothing.
abbrev escape_length : String → ℕ
escape_length String.[] = 1
escape_length (String.◌∷◌ c s) =
    if nat_eq (code c) b'['
    then after_bracket (csi_length s)
    else if nat_eq (code c) b']'
    then after_bracket (osc_length s)
    else if nat_eq (code c) 0xa
    then 1
    else 2

-- The length of the match of `_CONTROL` at a character.
unfoldable pub match_length : Char → String → ℕ
unfolding csi_length osc_length
match_length c s =
    if nat_eq (code c) escape then escape_length s else if is_control (code c) then 1 else 0

-- `_CONTROL.sub("?", text)`, with the number of characters of the match still to go.
unfoldable pub replace_controls : ℕ → String → String
unfolding match_length
replace_controls skip String.[] = ""
replace_controls zero (String.◌∷◌ c s) = elim (match_length c s) [
  | zero ↦ String.◌∷◌ c (replace_controls 0 s)
  | suc n ↦ String.◌∷◌ "?" (replace_controls n s)
]
replace_controls (suc n) (String.◌∷◌ c s) = replace_controls n s

-- `.replace("\r", " ").replace("\n", " ").replace("\t", " ")`
abbrev is_break : ℕ → Bool
is_break c = nat_eq c 0xd || (nat_eq c 0xa || nat_eq c 9)

-- The text is cut to the width, but for no width; `keep` of its last characters stay.
unfoldable pub shorten : ℕ → ℕ → String → String
shorten width keep text =
    if nat_eq width 0 || leb (text_length text) width
    then text
    else if ltb 0 keep && ltb (keep + 2) width
    then prefix (width - keep - 1) text ++ ("…" ++ tail_text keep text)
    else prefix (max 1 (width - 1)) text ++ "…"

module _ (is_printable : ℕ → Bool) where
  -- The characters of the line.
  unfoldable pub print_text : String → String
  print_text String.[] = ""
  print_text (String.◌∷◌ c s) =
      let rest = print_text s in
      if is_break (code c)
      then String.◌∷◌ " " rest
      else if is_printable (code c)
      then String.◌∷◌ c rest
      else String.◌∷◌ "?" rest

  -- `sanitize`
  unfoldable pub sanitize : ℕ → ℕ → String → String
  unfolding replace_controls print_text shorten
  sanitize width keep text = shorten width keep (print_text (replace_controls 0 text))
