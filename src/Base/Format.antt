-- ===== src/Base/Format.antt =====
-- What the source uses of Python's formatting: slices, `split`, `join`, `ljust`, `str`.
use Prim.Native.Nat.{ℕ, zero, suc, ◌-◌, ◌/◌, ◌%◌, ◌<◌}
use Prim.Native.Char.{code}
use Prim.Native.String.{String, ◌++◌}
use mathlib.Core.Path.{◌≡◌}
use mathlib.Core.List.{List, [], ◌∷◌}
use native.Mathlib.Omega.{arith}
use peer_chat.Base.Tests.{ltb, nat_eq, if◌then◌else◌}
use peer_chat.Base.Int.{ℤ, pos, negsuc}
use peer_chat.Base.Json.{Value, null, bool, int, str}
use peer_chat.Base.Text.{prefix, text_length}

-- `s[n:]`
unfoldable pub drop_text : ℕ → String → String
drop_text zero s = s
drop_text (suc n) String.[] = ""
drop_text (suc n) (String.◌∷◌ c s) = drop_text n s

-- `s[-n:]`, for n above 0.
abbrev pub tail_text : ℕ → String → String
tail_text n s = drop_text (text_length s - n) s

-- `s.split(c)`

unfoldable pub split_on : ℕ → String → String × List String
split_on sep String.[] = ("", [])
split_on sep (String.◌∷◌ c s) =
    let (first, rest) = split_on sep s in
    if nat_eq (code c) sep then ("", first ∷ rest) else (String.◌∷◌ c first, rest)

abbrev pub split_list : ℕ → String → List String
split_list sep s = let (first, rest) = split_on sep s in first ∷ rest

-- `sep.join(parts)`
unfoldable pub join_with : String → List String → String
join_with sep [] = ""
join_with sep (x ∷ []) = x
join_with sep (x ∷ y ∷ xs) = x ++ (sep ++ join_with sep (y ∷ xs))

unfoldable pub spaces : ℕ → String
spaces zero = ""
spaces (suc n) = " " ++ spaces n

-- `s.ljust(n)`
unfoldable pub ljust : ℕ → String → String
unfolding spaces
ljust n s = s ++ spaces (n - text_length s)

abbrev digit : ℕ → String
digit d = prefix 1 (drop_text d "0123456789")

-- The decimal digits, with fuel.
unfoldable pub decimal_on : ℕ → ℕ → String
unfolding drop_text
decimal_on zero n = ""
decimal_on (suc f) n =
    let rest = decimal_on f (n / 10) in if ltb n 10 then digit n else rest ++ digit (n % 10)

-- `str(n)`
unfoldable pub decimal : ℕ → String
unfolding decimal_on
decimal n = decimal_on (suc n) n

-- More fuel than the number gives the same digits.
decimal_on-enough : (f g n : ℕ) → n < f → n < g → decimal_on f n ≡ decimal_on g n
unfolding decimal_on
decimal_on-enough zero g n h k = elim h [ ]
decimal_on-enough (suc f) zero n h k = elim k [ ]
decimal_on-enough (suc f) (suc g) n h k = ground (arith, decimal_on-enough f g (n / 10))

abbrev pub show_int : ℤ → String
show_int (pos n) = decimal n
show_int (negsuc n) = "-" ++ decimal (suc n)

-- `str(x)`; that of a float, a list or a dictionary is an argument.
unfoldable pub show : (Value → String) → Value → String
show other null = "None"
show other (bool b) = if b then "True" else "False"
show other (int n) = show_int n
show other (str s) = s
show other v = other v
