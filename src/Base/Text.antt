-- ===== src/Base/Text.antt =====
-- What the source uses of Python's text methods.
use Prim.Native.Nat.{ℕ, zero, suc, ◌+◌}
use Prim.Native.Char.{code}
use Prim.Native.String.{String, ◌++◌}
use mathlib.Core.Path.{◌≡◌}
use native.Mathlib.Omega.{arith}
use text.Mathlib.TextLemmas.{nil-append, cons-append}
use mathlib.Core.Bool.{Bool, true, false, not, ◌&&◌, ◌||◌}
use mathlib.Core.Option.{Option, none, some}
use text.Mathlib.Text.{find?}
use peer_chat.Base.Tests.{◌==◌, leb, nat_eq, if◌then◌else◌, is_some}

-- `str.isspace` of one character.
unfoldable pub is_space : ℕ → Bool
is_space c =
    (leb 9 c && leb c 13)
    || (leb 28 c && leb c 32)
    || nat_eq c 0x85
    || nat_eq c 0xa0
    || nat_eq c 0x1680
    || (leb 0x2000 c && leb c 0x200a)
    || nat_eq c 0x2028
    || nat_eq c 0x2029
    || nat_eq c 0x202f
    || nat_eq c 0x205f
    || nat_eq c 0x3000

-- `not s.strip()`: the text is empty or holds white space alone.
unfoldable pub is_blank : String → Bool
unfolding is_space
is_blank String.[] = true
is_blank (String.◌∷◌ c s) = is_space (code c) && is_blank s

lstrip : String → String
unfolding is_space
lstrip String.[] = ""
lstrip (String.◌∷◌ c s) = let rest = lstrip s in if is_space (code c) then rest else String.◌∷◌ c s

unfoldable pub rstrip : String → String
unfolding is_blank
rstrip String.[] = ""
rstrip (String.◌∷◌ c s) =
    let rest = rstrip s in if is_blank (String.◌∷◌ c s) then "" else String.◌∷◌ c rest

-- `s.strip()`
unfoldable pub strip : String → String
unfolding lstrip rstrip
strip s = rstrip (lstrip s)

-- `part in s`
abbrev pub contains : String → String → Bool
contains s part = is_some (find? s part)

is_hex : ℕ → Bool
is_hex c = (leb b'0' c && leb c b'9') || (leb b'a' c && leb c b'f') || (leb b'A' c && leb c b'F')

-- What follows n hexadecimal digits, and what follows a dash.
after_hex : ℕ → String → Option String
unfolding is_hex
after_hex zero s = some s
after_hex (suc n) String.[] = none
after_hex (suc n) (String.◌∷◌ c s) =
    let rest = after_hex n s in if is_hex (code c) then rest else none

after_dash : String → Option String
after_dash String.[] = none
after_dash (String.◌∷◌ c s) = if nat_eq (code c) b'-' then some s else none

infixl 20 ◌then_group◌
abbrev ◌then_group◌ : Option String → ℕ → Option String
none then_group n = none
(some s) then_group n = elim (after_dash s) [ none ↦ none | some t ↦ after_hex n t ]

-- What follows the groups 8-4-4-4-12 of a UUID, in either case.
after_uuid : String → Option String
unfolding after_hex after_dash
after_uuid s = (((after_hex 8 s then_group 4) then_group 4) then_group 4) then_group 12

-- `valid_id`: `str(uuid.UUID(value)) == value.lower()` holds of the canonical form in either case.
unfoldable pub is_uuid : String → Bool
unfolding after_uuid
is_uuid s = elim (after_uuid s) [ none ↦ false | some rest ↦ rest == "" ]

-- `UUID_RE.match(value.lower())`: the `$` of the expression also stands before a final line feed.
unfoldable pub matches_uuid : String → Bool
unfolding after_uuid
matches_uuid s = elim (after_uuid s) [ none ↦ false | some rest ↦ rest == "" || rest == "\n" ]

-- `s[:n]`
abbrev pub prefix : ℕ → String → String
prefix zero s = ""
prefix (suc n) String.[] = ""
prefix (suc n) (String.◌∷◌ c s) = String.◌∷◌ c (prefix n s)

is_upper_hex : ℕ → Bool
is_upper_hex c = leb b'A' c && leb c b'F'

has_upper_hex : String → Bool
unfolding is_upper_hex
has_upper_hex String.[] = false
has_upper_hex (String.◌∷◌ c s) = is_upper_hex (code c) || has_upper_hex s

-- `valid_uuid` of src/peer_peers.py: the canonical form, in lower case.
unfoldable pub is_lower_uuid : String → Bool
unfolding is_uuid has_upper_hex
is_lower_uuid s = is_uuid s && not (has_upper_hex s)

-- `len(s)`
abbrev pub text_length : String → ℕ
text_length String.[] = 0
text_length (String.◌∷◌ c s) = suc (text_length s)

pub text_length-append : (s t : String) → text_length (s ++ t) ≡ text_length s + text_length t
text_length-append String.[] t = rw (nil-append t) (omega arith)
text_length-append (String.◌∷◌ c s) t =
    rw (cons-append c s t) (omega (arith, text_length-append s t))
