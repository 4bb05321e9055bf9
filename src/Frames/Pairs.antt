-- ===== src/Frames/Pairs.antt =====
-- The attributes of an envelope, printed and scanned.
use Prim.Native.Char.{Char, code}
use Prim.Native.String.{◌++◌}
use text.Mathlib.TextLemmas.{nil-append, cons-append, append-nil, append_assoc}
use peer_chat.Base.{
  and_first, and_second, ℕ, String, ◌≡◌, refl, ap, sym, ◌∙◌, Bool, true, false, not, ◌&&◌, some, [],
  ◌∷◌, arith, ◌==◌,
}
use peer_chat.Frames.Scan.{passes, second_test}
use peer_chat.Frames.Envelope.{
  Pairs, Mode, is_key_char, is_value_end, is_tag_end, scan_pairs, snoc, cons_pair, print_pair,
  print_pairs,
}

abbrev pub is_key : String → Bool
is_key String.[] = true
is_key (String.◌∷◌ c s) = is_key_char (code c) && is_key s

-- A pair that can be printed.
abbrev pub is_plain_pair : String × String → Bool
is_plain_pair (key, value) = is_key key && (not (key == "") && passes is_value_end value)

abbrev pub are_plain : Pairs → Bool
are_plain [] = true
are_plain (p ∷ ps) = is_plain_pair p && are_plain ps

plain_named : (key value : String) → is_plain_pair (key, value) ≡ true → (key == "") ≡ false
plain_named key value h = ground arith

plain_value :
    (key value : String) → is_plain_pair (key, value) ≡ true → passes is_value_end value ≡ true
plain_value key value h =
    and_second (not (key == "")) (passes is_value_end value) (and_second (is_key key) _ h)

snoc-append : (acc : String) (c : Char) (s : String) → snoc acc c ++ s ≡ acc ++ String.◌∷◌ c s
snoc-append acc c s =
    append_assoc acc (String.◌∷◌ c "") s
    ∙ ap (λ t. acc ++ t) (cons-append c "" s ∙ ap (String.◌∷◌ c) (nil-append s))

scan-value :
    (key acc value rest : String)
    → passes is_value_end value ≡ true
    → scan_pairs (Mode.in_value key acc) (value ++ String.◌∷◌ "\"" rest)
      ≡ cons_pair (key, acc ++ value) (scan_pairs Mode.closed rest)
unfolding scan_pairs
scan-value key acc String.[] rest h = rw (nil-append (String.◌∷◌ "\"" rest), append-nil acc) refl
scan-value key acc (String.◌∷◌ c s) rest h =
    let later =
      scan-value key (snoc acc c) s rest
        (second_test (is_value_end (code c)) (passes is_value_end s) h)
      ∙ ap (λ t. cons_pair (key, t) (scan_pairs Mode.closed rest)) (snoc-append acc c s) in
    rw (cons-append c s (String.◌∷◌ "\"" rest)) (ground (arith, later))

scan-key :
    (acc key value rest : String)
    → is_key key ≡ true
    → (acc ++ key == "") ≡ false
    → passes is_value_end value ≡ true
    → scan_pairs
        (Mode.in_key acc)
        (key ++ String.◌∷◌ "=" (String.◌∷◌ "\"" (value ++ String.◌∷◌ "\"" rest)))
      ≡ cons_pair (acc ++ key, value) (scan_pairs Mode.closed rest)
unfolding scan_pairs
scan-key acc String.[] value rest k e h =
    let named : (acc == "") ≡ false = ap (λ t. t == "") (sym (append-nil acc)) ∙ e in
    rw
      (
        nil-append (String.◌∷◌ "=" (String.◌∷◌ "\"" (value ++ String.◌∷◌ "\"" rest))),
        append-nil acc,
      )
      (rw named (
        scan-value acc "" value rest h
        ∙ ap (λ t. cons_pair (acc, t) (scan_pairs Mode.closed rest)) (nil-append value)))
scan-key acc (String.◌∷◌ c s) value rest k e h =
    let named : (snoc acc c ++ s == "") ≡ false = ap (λ t. t == "") (snoc-append acc c s) ∙ e in
    let later =
      scan-key (snoc acc c) s value rest (and_second (is_key_char (code c)) (is_key s) k) named h
      ∙ ap (λ t. cons_pair (t, value) (scan_pairs Mode.closed rest)) (snoc-append acc c s) in
    rw (cons-append c s (String.◌∷◌ "=" (String.◌∷◌ "\"" (value ++ String.◌∷◌ "\"" rest))))
      (rw (and_first (is_key_char (code c)) (is_key s) k) later)

scan-pair :
    (p : String × String) (rest : String)
    → is_plain_pair p ≡ true
    → scan_pairs (Mode.in_key "") (print_pair p rest) ≡ cons_pair p (scan_pairs Mode.closed rest)
scan-pair (key, value) rest h =
    let named : ("" ++ key == "") ≡ false =
      ap (λ t. t == "") (nil-append key) ∙ plain_named key value h in
    scan-key "" key value rest (and_first (is_key key) _ h) named (plain_value key value h)
    ∙ ap (λ t. cons_pair (t, value) (scan_pairs Mode.closed rest)) (nil-append key)

-- Printed pairs are scanned as they were.
pub scan_pairs-print_pairs :
    (p : String × String) (ps : Pairs)
    → are_plain (p ∷ ps) ≡ true
    → scan_pairs (Mode.in_key "") (print_pairs (p ∷ ps)) ≡ some (p ∷ ps)
unfolding scan_pairs print_pairs
scan_pairs-print_pairs p [] h = scan-pair p "" (and_first (is_plain_pair p) true h)
scan_pairs-print_pairs p (q ∷ ps) h =
    scan-pair p (String.◌∷◌ " " (print_pairs (q ∷ ps))) (and_first (is_plain_pair p) _ h)
    ∙ ap (cons_pair p) (scan_pairs-print_pairs q ps (and_second (is_plain_pair p) _ h))

module _ (stop : ℕ → Bool) where
  pub passes-append :
      (s t : String) → passes stop s ≡ true → passes stop t ≡ true → passes stop (s ++ t) ≡ true
  passes-append String.[] t h k = rw (nil-append t) k
  passes-append (String.◌∷◌ c s) t h k = rw (cons-append c s t) (ground (arith, passes-append s t))

passes-key : (s : String) → is_key s ≡ true → passes is_tag_end s ≡ true
passes-key String.[] h = refl
passes-key (String.◌∷◌ c s) h = ground (arith, passes-key s)

passes-value : (s : String) → passes is_value_end s ≡ true → passes is_tag_end s ≡ true
passes-value String.[] h = refl
passes-value (String.◌∷◌ c s) h = ground (arith, passes-value s)

passes-pair :
    (p : String × String) (rest : String)
    → is_plain_pair p ≡ true
    → passes is_tag_end rest ≡ true
    → passes is_tag_end (print_pair p rest) ≡ true
passes-pair (key, value) rest h r =
    passes-append is_tag_end key (String.◌∷◌ "=" (String.◌∷◌ "\"" (value ++ String.◌∷◌ "\"" rest)))
      (passes-key key (and_first (is_key key) _ h))
      (passes-append is_tag_end value (String.◌∷◌ "\"" rest)
        (passes-value value (plain_value key value h)) r)

pub passes-print_pairs :
    (ps : Pairs) → are_plain ps ≡ true → passes is_tag_end (print_pairs ps) ≡ true
unfolding print_pairs
passes-print_pairs [] h = refl
passes-print_pairs (p ∷ []) h = passes-pair p "" (and_first (is_plain_pair p) _ h) refl
passes-print_pairs (p ∷ q ∷ ps) h =
    passes-pair p (String.◌∷◌ " " (print_pairs (q ∷ ps))) (and_first (is_plain_pair p) _ h)
      (passes-print_pairs (q ∷ ps) (and_second (is_plain_pair p) _ h))
