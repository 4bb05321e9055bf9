-- ===== src/Frames/Envelope.antt =====
-- The envelope of a message in src/peer_chat.py: its marker, its attributes, and its text.
use Prim.Native.Char.{Char, code}
use Prim.Native.String.{◌++◌}
use peer_chat.Base.{
  ℕ, ◌+◌, String, Bool, true, false, not, ◌&&◌, ◌||◌, Option, none, some, List, [], ◌∷◌,
  if◌then◌else◌, ◌==◌, nat_eq, leb, any,
}
use peer_chat.Base.Text.{is_space}
use peer_chat.Frames.Scan.{after_prefix, before_suffix, span}

-- A letter of the tag in either case; Python also folds the long s (U+017F) to s.
abbrev folds_to : ℕ → ℕ → Bool
folds_to t c =
    nat_eq c t
    || ((leb b'a' t && (leb t b'z' && nat_eq (c + 32) t)) || (nat_eq t b's' && nat_eq c 0x17f))

-- What follows the tag, in any case.
unfoldable pub after_tag : String → String → Option String
after_tag String.[] s = some s
after_tag (String.◌∷◌ t tag) String.[] = none
after_tag (String.◌∷◌ t tag) (String.◌∷◌ c s) =
    let rest = after_tag tag s in if folds_to (code t) (code c) then rest else none

abbrev is_slash : ℕ → Bool
is_slash c = nat_eq c b'/' || nat_eq c 0x5c

-- The word ends: `\b` after a letter, where `\w` of a character is an argument.
abbrev ends_word : (ℕ → Bool) → String → Bool
ends_word is_word String.[] = true
ends_word is_word (String.◌∷◌ c s) = not (is_word (code c))

-- `\s*[/\\]*\s*cross-session-message\b`; the three runs have no character in common with what follows
-- them, so the longest run of each is the only way to match.
unfoldable pub is_marker : (ℕ → Bool) → String → Bool
unfolding is_space span after_tag
is_marker is_word s =
    let blank = span (λ c. not (is_space c)) s in
    let slashes = span (λ c. not (is_slash c)) blank.1 in
    let rest = (span (λ c. not (is_space c)) slashes.1).1 in
    elim (after_tag "cross-session-message" rest) [
      | none ↦ false
      | some after ↦ ends_word is_word after
    ]

-- `nested_marker`
unfoldable pub nested_marker : (ℕ → Bool) → String → Bool
unfolding is_marker
nested_marker is_word String.[] = false
nested_marker is_word (String.◌∷◌ c s) =
    (nat_eq (code c) b'<' && is_marker is_word s) || nested_marker is_word s

abbrev pub Pairs : Type 0
Pairs = List (String × String)

abbrev pub is_key_char : ℕ → Bool
is_key_char c = (leb b'a' c && leb c b'z') || nat_eq c b'-'

-- What `[^"<>\n]` leaves out, and what `[^<>\n]` does.
abbrev pub is_tag_end : ℕ → Bool
is_tag_end c = nat_eq c b'<' || (nat_eq c b'>' || nat_eq c 0xa)

abbrev pub is_value_end : ℕ → Bool
is_value_end c = nat_eq c 0x22 || is_tag_end c

-- Where the scan of the attributes stands: in a key, before the quote of a value, in a value, after it.
pub data Mode : Type 0 where
  in_key : String → Mode
  at_quote : String → Mode
  in_value : String → String → Mode
  closed : Mode

abbrev pub snoc : String → Char → String
snoc s c = s ++ String.◌∷◌ c ""

abbrev pub cons_pair : String × String → Option Pairs → Option Pairs
cons_pair p none = none
cons_pair p (some ps) = some (p ∷ ps)

-- The pairs `key="value"` with one space between two of them. That is when the pairs that
-- `re.findall` finds, joined by spaces, are the whole text.
unfoldable pub scan_pairs : Mode → String → Option Pairs
scan_pairs closed String.[] = some []
scan_pairs mode String.[] = none
scan_pairs (in_key key) (String.◌∷◌ c s) =
    let more = scan_pairs (in_key (snoc key c)) s in
    let quote = scan_pairs (at_quote key) s in
    if is_key_char (code c)
    then more
    else if nat_eq (code c) b'=' && not (key == "")
    then quote
    else none
scan_pairs (at_quote key) (String.◌∷◌ c s) =
    let value = scan_pairs (in_value key "") s in if nat_eq (code c) 0x22 then value else none
scan_pairs (in_value key value) (String.◌∷◌ c s) =
    let done = scan_pairs closed s in
    let more = scan_pairs (in_value key (snoc value c)) s in
    if nat_eq (code c) 0x22
    then cons_pair (key, value) done
    else if is_value_end (code c)
    then none
    else more
scan_pairs closed (String.◌∷◌ c s) =
    let next = scan_pairs (in_key "") s in if nat_eq (code c) b' ' then next else none

abbrev pub has_pair : String → Pairs → Bool
has_pair key pairs = any (λ p. p.0 == key) pairs

-- `len(dict(pairs)) == len(pairs)`: no key twice.
unfoldable pub are_distinct : Pairs → Bool
are_distinct [] = true
are_distinct ((key, value) ∷ rest) = not (has_pair key rest) && are_distinct rest

-- `props.get(key)`
unfoldable pub get_pair : String → Pairs → Option String
get_pair key [] = none
get_pair key ((k, v) ∷ rest) = let later = get_pair key rest in if k == key then some v else later

abbrev pub opening : String
opening = "<cross-session-message "

abbrev pub closing : String
closing = "\n</cross-session-message>"

abbrev body_of : String → Option String
body_of String.[] = none
body_of (String.◌∷◌ c s) = if nat_eq (code c) 0xa then before_suffix closing s else none

-- The attributes, which are not empty, then `>`, and after a line feed the text.
unfoldable pub open_at : String × String → Option (String × String)
unfolding before_suffix
open_at (attrs, String.[]) = none
open_at (attrs, String.◌∷◌ c after) =
    if not (attrs == "") && nat_eq (code c) b'>'
    then elim (body_of after) [ none ↦ none | some body ↦ some (attrs, body) ]
    else none

unfoldable pub open_tag : Option String → Option (String × String)
unfolding span open_at
open_tag none = none
open_tag (some rest) = open_at (span is_tag_end rest)

-- The match of the envelope.
unfoldable pub open_envelope : String → Option (String × String)
unfolding after_prefix open_tag
open_envelope content = open_tag (after_prefix opening content)

-- `f'{k}="{v}"'`, and such pairs with a space between two.
abbrev pub print_pair : String × String → String → String
print_pair (key, value) rest =
    key ++ String.◌∷◌ "=" (String.◌∷◌ "\"" (value ++ String.◌∷◌ "\"" rest))

unfoldable pub print_pairs : Pairs → String
print_pairs [] = ""
print_pairs (p ∷ []) = print_pair p ""
print_pairs (p ∷ q ∷ ps) = print_pair p (String.◌∷◌ " " (print_pairs (q ∷ ps)))

-- `f"<{TAG} {attrs}>\n{body}\n</{TAG}>"`
unfoldable pub seal : String → String → String
seal attrs body = opening ++ (attrs ++ String.◌∷◌ ">" (String.◌∷◌ "\n" (body ++ closing)))
