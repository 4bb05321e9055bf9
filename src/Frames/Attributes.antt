-- ===== src/Frames/Attributes.antt =====
-- The envelope that `outbound` of src/peer_chat.py writes, opened and scanned.
use Prim.Native.String.{◌++◌}
use peer_chat.Base.{
  ℕ, zero, suc, ◌⊎◌, ◌≤◌, String, ◌≡◌, refl, ap, sym, ◌∙◌, Bool, true, false, Option, none, some,
  List, [], ◌∷◌, arith, ◌==◌, Bool-cases, inl, inr, eq_iff, some_inj,
}
use peer_chat.Base.Text.{text_length-append, text_length, prefix}
use peer_chat.Registry.{Permission}
use peer_chat.Frames.Scan.{passes, after_prefix-append, before_suffix-append, span-append}
use peer_chat.Frames.Envelope.{
  Pairs, is_value_end, is_tag_end, print_pairs, seal, open_at, open_tag, open_envelope,
  are_distinct, get_pair, opening, closing,
}
use peer_chat.Frames.Decode.{hops_of, is_mode}
use peer_chat.Frames.Outbound.{Sending, sender_name, mode_of, with_chain, safe_name, model_suffix}
use peer_chat.Frames.Pairs.{are_plain, passes-append}
use peer_chat.Frames.Hops.{AllHops, join-value, hops_of-join}

-- A sealed text is opened to its attributes and its body.
open_at-seal :
    (attrs body : String)
    → (attrs == "") ≡ false
    → open_at (attrs, String.◌∷◌ ">" (String.◌∷◌ "\n" (body ++ closing))) ≡ some (attrs, body)
unfolding open_at
open_at-seal attrs body f = rw (f, before_suffix-append body closing) refl

pub open_envelope-seal :
    (attrs body : String)
    → passes is_tag_end attrs ≡ true
    → (attrs == "") ≡ false
    → open_envelope (seal attrs body) ≡ some (attrs, body)
unfolding open_envelope open_tag seal
open_envelope-seal attrs body p f =
    ap open_tag
      (after_prefix-append opening (attrs ++ String.◌∷◌ ">" (String.◌∷◌ "\n" (body ++ closing))))
    ∙ ap open_at (span-append is_tag_end attrs ">" (String.◌∷◌ "\n" (body ++ closing)) p refl)
    ∙ open_at-seal attrs body f

-- What the attributes hold can be printed.
safe-value : (s : String) → passes is_value_end (safe_name s) ≡ true
unfolding safe_name
safe-value String.[] = refl
safe-value (String.◌∷◌ c s) = ground (arith, safe-value s)

prefix-value :
    (n : ℕ) (s : String) → passes is_value_end s ≡ true → passes is_value_end (prefix n s) ≡ true
prefix-value zero s h = refl
prefix-value (suc n) String.[] h = refl
prefix-value (suc n) (String.◌∷◌ c s) h = ground (arith, prefix-value n s)

suffix-value : (m : Option String) → passes is_value_end (model_suffix m) ≡ true
suffix-value none = refl
suffix-value (some m) = elim (Bool-cases (m == "")) [
  | inl e ↦ rw e refl
  | inr e ↦ rw e (
      passes-append is_value_end "-" (prefix 48 (safe_name m)) refl
        (prefix-value 48 (safe_name m) (safe-value m)))
]

pub name-value : (o : Sending) → passes is_value_end (sender_name o) ≡ true
unfolding sender_name
name-value o = elim (Bool-cases o.advisory) [
  | inl e ↦ simp (e) refl
  | inr e ↦
      simp (e)
        (passes-append is_value_end "Codex" (model_suffix o.model) refl (suffix-value o.model))
]

pub mode_of-mode :
    (permission : Option Permission) (advisory : Bool) (mode : String)
    → mode_of permission advisory ≡ some mode
    → (mode ≡ "bypass") ⊎ (mode ≡ "prompting")
unfolding mode_of
mode_of-mode (some Permission.bypass) advisory mode h = inl (sym (some_inj "bypass" mode h))
mode_of-mode (some Permission.prompting) advisory mode h = inr (sym (some_inj "prompting" mode h))
mode_of-mode (some Permission.unknown) true mode h = inr (sym (some_inj "prompting" mode h))
mode_of-mode (some Permission.unknown) false mode h = cc
mode_of-mode none true mode h = inr (sym (some_inj "prompting" mode h))
mode_of-mode none false mode h = cc

pub mode-plain :
    (mode : String)
    → (mode ≡ "bypass") ⊎ (mode ≡ "prompting")
    → (is_mode mode ≡ true) × (passes is_value_end mode ≡ true)
mode-plain mode (inl e) = rw e (refl, refl)
mode-plain mode (inr e) = rw e (refl, refl)

filled-append : (s t : String) → 1 ≤ text_length s → (s ++ t == "") ≡ false
filled-append s t h = elim (Bool-cases (s ++ t == "")) [
  | inr f ↦ f
  | inl e ↦
      absurd (omega (arith, h, text_length-append s t, ap text_length ((eq_iff (s ++ t) "").0 e)))
]

-- The attributes, for a chain of hops, a name and a mode.
abbrev pub pairs : String → List String → String → String → Pairs
pairs from hops name mode =
    ("from", from) ∷ with_chain hops (("from-name", name) ∷ ("from-mode", mode) ∷ [])

module _ (from name mode : String) where
  pub pairs-distinct : (hops : List String) → are_distinct (pairs from hops name mode) ≡ true
  unfolding are_distinct
  pairs-distinct [] = refl
  pairs-distinct (h ∷ hs) = refl

  pub pairs-from : (hops : List String) → get_pair "from" (pairs from hops name mode) ≡ some from
  unfolding get_pair
  pairs-from hops = refl

  pub pairs-mode :
      (hops : List String) → get_pair "from-mode" (pairs from hops name mode) ≡ some mode
  unfolding get_pair
  pairs-mode [] = refl
  pairs-mode (h ∷ hs) = refl

  pub pairs-hops :
      (hops : List String)
      → AllHops hops
      → hops_of (get_pair "hop-chain" (pairs from hops name mode)) ≡ hops
  unfolding get_pair hops_of
  pairs-hops [] a = refl
  pairs-hops (h ∷ hs) a = hops_of-join h hs a

  pub pairs-plain :
      (hops : List String)
      → AllHops hops
      → passes is_value_end from ≡ true
      → passes is_value_end name ≡ true
      → passes is_value_end mode ≡ true
      → are_plain (pairs from hops name mode) ≡ true
  pairs-plain [] a f n m = rw (f, n, m) refl
  pairs-plain (h ∷ hs) a f n m = rw (f, n, m, join-value h hs a) refl

  pub pairs-filled : (hops : List String) → (print_pairs (pairs from hops name mode) == "") ≡ false
  unfolding print_pairs
  pairs-filled [] = filled-append "from" _ (omega arith)
  pairs-filled (h ∷ hs) = filled-append "from" _ (omega arith)
