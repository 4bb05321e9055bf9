-- ===== src/Frames/Scan.antt =====
-- The scans of a text that the expressions of src/peer_chat.py stand for.
use Prim.Native.Char.{Char, code}
use Prim.Native.String.{◌++◌}
use text.Mathlib.TextLemmas.{nil-append, cons-append}
use peer_chat.Base.{
  ℕ, String, ◌≡◌, refl, Bool, true, false, not, ◌&&◌, Option, none, some, arith, if◌then◌else◌,
  ◌==◌, nat_eq, eq_iff, eq_refl, ap, Bool-cases, inl, inr,
}
use peer_chat.Base.Text.{text_length, text_length-append}

-- The text after a prefix.
unfoldable pub after_prefix : String → String → Option String
after_prefix String.[] s = some s
after_prefix (String.◌∷◌ c p) String.[] = none
after_prefix (String.◌∷◌ c p) (String.◌∷◌ d s) =
    let rest = after_prefix p s in if nat_eq (code c) (code d) then rest else none

-- The text before a suffix.
unfoldable pub before_suffix : String → String → Option String
before_suffix suffix String.[] = if suffix == "" then some "" else none
before_suffix suffix (String.◌∷◌ c s) =
    let rest = before_suffix suffix s in
    if String.◌∷◌ c s == suffix
    then some ""
    else elim rest [ none ↦ none | some t ↦ some (String.◌∷◌ c t) ]

-- The characters up to the first that stops, and the text from there on.
unfoldable pub span : (ℕ → Bool) → String → String × String
span stop String.[] = ("", "")
span stop (String.◌∷◌ c s) =
    let (first, rest) = span stop s in
    if stop (code c) then ("", String.◌∷◌ c s) else (String.◌∷◌ c first, rest)

pub after_prefix-append : (p s : String) → after_prefix p (p ++ s) ≡ some s
unfolding after_prefix
after_prefix-append String.[] s = ap some (nil-append s)
after_prefix-append (String.◌∷◌ c p) s =
    rw (cons-append c p s) (ground (arith, after_prefix-append p s))

not_longer : (c : Char) (s t : String) → (String.◌∷◌ c (s ++ t) == t) ≡ false
not_longer c s t = elim (Bool-cases (String.◌∷◌ c (s ++ t) == t)) [
  | inr f ↦ f
  | inl e ↦ absurd (
      omega
        (arith, ap text_length ((eq_iff (String.◌∷◌ c (s ++ t)) t).0 e), text_length-append s t))
]

pub before_suffix-append : (s t : String) → before_suffix t (s ++ t) ≡ some s
unfolding before_suffix
before_suffix-append String.[] t = rw (nil-append t) (whole t)
  where
    whole : (t : String) → before_suffix t t ≡ some ""
    whole String.[] = refl
    whole (String.◌∷◌ c t) = rw (eq_refl (String.◌∷◌ c t)) refl
before_suffix-append (String.◌∷◌ c s) t =
    rw (cons-append c s t) (rw (not_longer c s t, before_suffix-append s t) refl)

-- No character stops.
abbrev pub passes : (ℕ → Bool) → String → Bool
passes stop String.[] = true
passes stop (String.◌∷◌ c s) = not (stop (code c)) && passes stop s

absurd_test {ℓ} : {A : Type ℓ} (a b : Bool) → a ≡ true → (not a && b) ≡ true → A
absurd_test a b e h = absurd (true_not a b e h)
  where
    true_not : (a b : Bool) → a ≡ true → (not a && b) ≡ true → ⊥
    true_not a b e h = ground arith

pub second_test : (a b : Bool) → (not a && b) ≡ true → b ≡ true
second_test a b h = ground arith

pub span-append :
    (stop : ℕ → Bool) (s : String) (c : Char) (t : String)
    → passes stop s ≡ true
    → stop (code c) ≡ true
    → span stop (s ++ String.◌∷◌ c t) ≡ (s, String.◌∷◌ c t)
unfolding span
span-append stop String.[] c t h e = rw (nil-append (String.◌∷◌ c t), e) refl
span-append stop (String.◌∷◌ d s) c t h e = elim (Bool-cases (stop (code d))) [
  | inl f ↦ absurd_test (stop (code d)) (passes stop s) f h
  | inr f ↦
      rw (cons-append d s (String.◌∷◌ c t))
        (rw (f, span-append stop s c t (second_test (stop (code d)) (passes stop s) h) e) refl)
]
