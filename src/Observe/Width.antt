-- ===== src/Observe/Width.antt =====
-- The line that `sanitize` of src/peer_observe.py returns.
use Prim.Native.Char.{code}
use Prim.Native.String.{◌++◌}
use text.Mathlib.TextLemmas.{nil-append, cons-append}
use peer_chat.Base.{
  ℕ, zero, suc, ◌+◌, ◌-◌, ◌≤◌, String, ◌≡◌, refl, Bool, true, ◌&&◌, ◌||◌, arith, ltb, leb, nat_eq,
  max, Bool-cases, inl, inr,
}
use peer_chat.Base.Text.{prefix, text_length, text_length-append}
use peer_chat.Base.Format.{drop_text, tail_text}
use peer_chat.Observe.Clean.{replace_controls, print_text, shorten, sanitize}

-- A test of every character.
abbrev pub every : (ℕ → Bool) → String → Bool
every p String.[] = true
every p (String.◌∷◌ c s) = p (code c) && every p s

text_length-prefix : (n : ℕ) (s : String) → text_length (prefix n s) ≤ n
text_length-prefix zero s = omega arith
text_length-prefix (suc n) String.[] = omega arith
text_length-prefix (suc n) (String.◌∷◌ c s) = omega (arith, text_length-prefix n s)

text_length-drop : (n : ℕ) (s : String) → text_length (drop_text n s) ≡ text_length s - n
unfolding drop_text
text_length-drop zero s = omega arith
text_length-drop (suc n) String.[] = omega arith
text_length-drop (suc n) (String.◌∷◌ c s) = omega (arith, text_length-drop n s)

shorten-length :
    (width keep : ℕ) (s : String) → 2 ≤ width → text_length (shorten width keep s) ≤ width
unfolding shorten
shorten-length width keep s h = ground (
  arith,
  text_length-append (prefix (width - keep - 1) s) ("…" ++ tail_text keep s),
  text_length-append "…" (tail_text keep s),
  text_length-append (prefix (max 1 (width - 1)) s) "…",
  text_length-prefix (width - keep - 1) s,
  text_length-prefix (max 1 (width - 1)) s,
  text_length-drop (text_length s - keep) s,
)

module _ (p : ℕ → Bool) where
  every-append : (s t : String) → every p s ≡ true → every p t ≡ true → every p (s ++ t) ≡ true
  every-append String.[] t h k = rw (nil-append t) k
  every-append (String.◌∷◌ c s) t h k = rw (cons-append c s t) (ground (arith, every-append s t))

  every-prefix : (n : ℕ) (s : String) → every p s ≡ true → every p (prefix n s) ≡ true
  every-prefix zero s h = refl
  every-prefix (suc n) String.[] h = refl
  every-prefix (suc n) (String.◌∷◌ c s) h = ground (arith, every-prefix n s)

  every-drop : (n : ℕ) (s : String) → every p s ≡ true → every p (drop_text n s) ≡ true
  unfolding drop_text
  every-drop zero s h = h
  every-drop (suc n) String.[] h = h
  every-drop (suc n) (String.◌∷◌ c s) h = ground (arith, every-drop n s)

  every-print_text : (s : String) → p b' ' ≡ true → p b'?' ≡ true → every p (print_text p s) ≡ true
  unfolding print_text
  every-print_text String.[] b q = refl
  every-print_text (String.◌∷◌ c s) b q = ground (arith, every-print_text s b q)

  every-shorten :
      (width keep : ℕ) (s : String)
      → p 0x2026 ≡ true
      → every p s ≡ true
      → every p (shorten width keep s) ≡ true
  unfolding shorten
  every-shorten width keep s e h = elim (Bool-cases (nat_eq width 0 || leb (text_length s) width)) [
    | inl f ↦ rw f h
    | inr f ↦ (elim (Bool-cases (ltb 0 keep && ltb (keep + 2) width)) [
      | inl g ↦
          rw (f, g)
            (every-append (prefix (width - keep - 1) s) ("…" ++ tail_text keep s)
              (every-prefix (width - keep - 1) s h)
              (every-append "…" (tail_text keep s) (rw e refl)
                (every-drop (text_length s - keep) s h)))
      | inr g ↦
          rw (f, g)
            (every-append (prefix (max 1 (width - 1)) s) "…" (every-prefix (max 1 (width - 1)) s h)
              (rw e refl))
    ])
  ]

-- For a width of two at least, the line that is shown has at most so many characters, and every one is
-- printable, where the space, the question mark and the ellipsis are.
pub sanitize_bounds :
    (p : ℕ → Bool) (width keep : ℕ) (text : String)
    → 2 ≤ width
    → p b' ' ≡ true
    → p b'?' ≡ true
    → p 0x2026 ≡ true
    → (text_length (sanitize p width keep text) ≤ width)
      × (every p (sanitize p width keep text) ≡ true)
unfolding sanitize
sanitize_bounds p width keep text h b q e =
    let clean = print_text p (replace_controls 0 text) in
    (
      shorten-length width keep clean h,
      every-shorten p width keep clean e (every-print_text p (replace_controls 0 text) b q),
    )
