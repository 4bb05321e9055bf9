-- ===== src/Frames/Hops.antt =====
-- A chain of hops, joined by commas and split again.
use Prim.Native.String.{◌++◌}
use text.Mathlib.TextLemmas.{nil-append, cons-append}
use peer_chat.Base.{
  ℕ, ◌≤◌, String, ◌≡◌, refl, ap, ◌∙◌, Bool, true, false, not, some, List, [], ◌∷◌, arith, ◌==◌,
  nat_eq, any, Bool-cases, inl, inr, eq_iff,
}
use peer_chat.Base.Text.{text_length-append, text_length}
use peer_chat.Base.Format.{split_on, split_list, join_with}
use peer_chat.Frames.Scan.{passes}
use peer_chat.Frames.Envelope.{is_value_end}
use peer_chat.Frames.Decode.{is_hop, hops_of, all_hex}
use peer_chat.Frames.Pairs.{passes-append}

abbrev is_comma : ℕ → Bool
is_comma c = nat_eq c b','

split-plain : (s : String) → passes is_comma s ≡ true → split_on b',' s ≡ (s, [])
unfolding split_on
split-plain String.[] h = refl
split-plain (String.◌∷◌ c s) h = ground (arith, split-plain s)

split-comma :
    (s t : String)
    → passes is_comma s ≡ true
    → split_on b',' (s ++ String.◌∷◌ "," t) ≡ (s, split_list b',' t)
unfolding split_on
split-comma String.[] t h = rw (nil-append (String.◌∷◌ "," t)) refl
split-comma (String.◌∷◌ c s) t h =
    rw (cons-append c s (String.◌∷◌ "," t)) (ground (arith, split-comma s t))

hex-plain : (s : String) → all_hex s ≡ true → passes is_comma s ≡ true
hex-plain String.[] h = refl
hex-plain (String.◌∷◌ c s) h = ground (arith, hex-plain s)

hex-value : (s : String) → all_hex s ≡ true → passes is_value_end s ≡ true
hex-value String.[] h = refl
hex-value (String.◌∷◌ c s) h = ground (arith, hex-value s)

abbrev pub AllHops : List String → Type 0
AllHops hops = any (λ h. not (is_hop h)) hops ≡ false

first_hop : (h : String) (hs : List String) → AllHops (h ∷ hs) → is_hop h ≡ true
first_hop h hs a = ground arith

later_hops : (h : String) (hs : List String) → AllHops (h ∷ hs) → AllHops hs
later_hops h hs a = ground arith

hop-length : (h : String) → is_hop h ≡ true → text_length h ≡ 24
unfolding is_hop
hop-length h e = ground arith

hop-hex : (h : String) → is_hop h ≡ true → all_hex h ≡ true
unfolding is_hop
hop-hex h e = ground arith

comma-append : (t : String) → "," ++ t ≡ String.◌∷◌ "," t
comma-append t = cons-append "," "" t ∙ ap (String.◌∷◌ ",") (nil-append t)

join-cons :
    (h g : String) (hs : List String)
    → join_with "," (h ∷ g ∷ hs) ≡ h ++ String.◌∷◌ "," (join_with "," (g ∷ hs))
unfolding join_with
join-cons h g hs = ap (λ t. h ++ t) (comma-append (join_with "," (g ∷ hs)))

split_list-join :
    (h : String) (hs : List String)
    → AllHops (h ∷ hs)
    → split_list b',' (join_with "," (h ∷ hs)) ≡ h ∷ hs
unfolding join_with
split_list-join h [] a =
    ap (λ (p : String × List String). p.0 ∷ p.1)
      (split-plain h (hex-plain h (hop-hex h (first_hop h [] a))))
split_list-join h (g ∷ hs) a =
    ap (split_list b',') (join-cons h g hs)
    ∙ ap (λ (p : String × List String). p.0 ∷ p.1)
        (split-comma h (join_with "," (g ∷ hs)) (hex-plain h (hop-hex h (first_hop h (g ∷ hs) a))))
    ∙ ap (λ l. h ∷ l) (split_list-join g hs (later_hops h (g ∷ hs) a))

pub join-value :
    (h : String) (hs : List String)
    → AllHops (h ∷ hs)
    → passes is_value_end (join_with "," (h ∷ hs)) ≡ true
unfolding join_with
join-value h [] a = hex-value h (hop-hex h (first_hop h [] a))
join-value h (g ∷ hs) a =
    ap (passes is_value_end) (join-cons h g hs)
    ∙ passes-append is_value_end h (String.◌∷◌ "," (join_with "," (g ∷ hs)))
        (hex-value h (hop-hex h (first_hop h (g ∷ hs) a)))
        (join-value g hs (later_hops h (g ∷ hs) a))

joined-length :
    (h : String) (hs : List String) → AllHops (h ∷ hs) → 24 ≤ text_length (join_with "," (h ∷ hs))
unfolding join_with
joined-length h [] a = omega (arith, hop-length h (first_hop h [] a))
joined-length h (g ∷ hs) a = omega (
  arith,
  hop-length h (first_hop h (g ∷ hs) a),
  text_length-append h ("," ++ join_with "," (g ∷ hs)),
)

joined-filled :
    (h : String) (hs : List String) → AllHops (h ∷ hs) → (join_with "," (h ∷ hs) == "") ≡ false
joined-filled h hs a = elim (Bool-cases (join_with "," (h ∷ hs) == "")) [
  | inr f ↦ f
  | inl e ↦ absurd (
      omega
        (arith, joined-length h hs a, ap text_length ((eq_iff (join_with "," (h ∷ hs)) "").0 e)))
]

-- A chain that was sent is read as it was.
pub hops_of-join :
    (h : String) (hs : List String)
    → AllHops (h ∷ hs)
    → hops_of (some (join_with "," (h ∷ hs))) ≡ h ∷ hs
unfolding hops_of
hops_of-join h hs a = rw (joined-filled h hs a) (split_list-join h hs a)
