-- ===== src/Frames.antt =====
-- class LineBuffer of src/peer_chat.py: the frames of a socket, which come in pieces of any size. A byte
-- is a number.
pub mod Scan
pub mod Envelope
pub mod Decode
pub mod Outbound
mod Pairs
mod Hops
mod Attributes
pub mod Trip
use peer_chat.Base.{
  ℕ, ◌≡◌, refl, sym, ap, ◌∙◌, Bool, true, false, ◌||◌, Option, none, some, List, [], ◌∷◌, ◌++◌,
  arith, if◌then◌else◌, nat_eq, ltb, length, any, select, Bool-cases, inl, inr, some_inj,
}

abbrev pub max_line : ℕ
max_line = 65536

abbrev pub new_line : ℕ
new_line = 10

abbrev pub push : ℕ → List (List ℕ) × List ℕ → List (List ℕ) × List ℕ
push c ([], rest) = ([], c ∷ rest)
push c (line ∷ lines, rest) = ((c ∷ line) ∷ lines, rest)

-- `buffer.split(b"\n")`: the complete lines, and what is after the last line feed.
unfoldable pub cut : List ℕ → List (List ℕ) × List ℕ
cut [] = ([], [])
cut (c ∷ cs) =
    let (lines, rest) = cut cs in
    if nat_eq c new_line then ([] ∷ lines, rest) else push c (lines, rest)

abbrev pub is_long : List ℕ → Bool
is_long line = ltb max_line (length line)

abbrev pub is_filled : List ℕ → Bool
is_filled [] = false
is_filled (c ∷ cs) = true

-- `feed`: the lines that are complete, and the new buffer; `none` is its ValueError.
unfoldable pub feed : List ℕ → List ℕ → Option (List (List ℕ) × List ℕ)
feed buffer bytes =
    let (lines, rest) = cut (buffer ++ bytes) in
    if is_long rest || any is_long lines then none else some (select is_filled lines, rest)

join_cut : List (List ℕ) × List ℕ → List ℕ → List (List ℕ) × List ℕ
join_cut (lines, rest) ys = (lines ++ (cut (rest ++ ys)).0, (cut (rest ++ ys)).1)

push-join_cut :
    (c : ℕ) (p : List (List ℕ) × List ℕ) (ys : List ℕ)
    → nat_eq c new_line ≡ false
    → push c (join_cut p ys) ≡ join_cut (push c p) ys
unfolding join_cut cut
push-join_cut c ([], rest) ys h = rw h refl
push-join_cut c (line ∷ lines, rest) ys h = refl

cut-append : (xs ys : List ℕ) → cut (xs ++ ys) ≡ join_cut (cut xs) ys
unfolding cut join_cut
cut-append [] ys = refl
cut-append (c ∷ xs) ys = elim (Bool-cases (nat_eq c new_line)) [
  | inl e ↦ rw e (rw (cut-append xs ys) refl)
  | inr e ↦ rw e (rw (cut-append xs ys) (push-join_cut c (cut xs) ys e))
]

append_assoc : (xs ys zs : List ℕ) → xs ++ (ys ++ zs) ≡ (xs ++ ys) ++ zs
append_assoc [] ys zs = refl
append_assoc (x ∷ xs) ys zs = ap (λ l. x ∷ l) (append_assoc xs ys zs)

any-append : (xs ys : List (List ℕ)) → any is_long (xs ++ ys) ≡ (any is_long xs || any is_long ys)
any-append [] ys = refl
any-append (x ∷ xs) ys = ground (arith, any-append xs ys)

select-append :
    (xs ys : List (List ℕ))
    → select is_filled (xs ++ ys) ≡ select is_filled xs ++ select is_filled ys
select-append [] ys = refl
select-append ([] ∷ xs) ys = select-append xs ys
select-append ((c ∷ cs) ∷ xs) ys = ap (λ l. (c ∷ cs) ∷ l) (select-append xs ys)

-- What a successful call says of the lines that the bytes are cut into.
record Fed (buffer bytes : List ℕ) (lines : List (List ℕ)) (rest : List ℕ) : Type 0 where
  short_rest : is_long (cut (buffer ++ bytes)).1 ≡ false
  short_lines : any is_long (cut (buffer ++ bytes)).0 ≡ false
  lines_eq : lines ≡ select is_filled (cut (buffer ++ bytes)).0
  rest_eq : rest ≡ (cut (buffer ++ bytes)).1

feed-Fed :
    (buffer bytes : List ℕ) (lines : List (List ℕ)) (rest : List ℕ)
    → feed buffer bytes ≡ some (lines, rest)
    → Fed buffer bytes lines rest
unfolding feed
feed-Fed buffer bytes lines rest h =
    elim (Bool-cases (is_long (cut (buffer ++ bytes)).1 || any is_long (cut (buffer ++ bytes)).0)) [
      | inl e ↦ cc (rw e at h)
      | inr e ↦
          let same = some_inj _ _ (rw e at h) in
          record {
            short_rest = ground arith;
            short_lines = ground arith;
            lines_eq = sym (ap (λ p. p.0) same);
            rest_eq = sym (ap (λ p. p.1) same);
          }
    ]

-- Where two pieces are taken one after the other, the piece that they make together is taken too,
-- with the same lines and the same buffer.
pub feed-append :
    (buffer xs ys : List ℕ) (lines lines' : List (List ℕ)) (rest rest' : List ℕ)
    → feed buffer xs ≡ some (lines, rest)
    → feed rest ys ≡ some (lines', rest')
    → feed buffer (xs ++ ys) ≡ some (lines ++ lines', rest')
unfolding feed join_cut
feed-append buffer xs ys lines lines' rest rest' h k =
    let a = feed-Fed buffer xs lines rest h in
    let b = feed-Fed rest ys lines' rest' k in
    let whole : cut (buffer ++ (xs ++ ys))
        ≡ ((cut (buffer ++ xs)).0 ++ (cut (rest ++ ys)).0, (cut (rest ++ ys)).1) =
      ap cut (append_assoc buffer xs ys)
      ∙ (cut-append (buffer ++ xs) ys
          ∙ ap (λ r. ((cut (buffer ++ xs)).0 ++ (cut (r ++ ys)).0, (cut (r ++ ys)).1))
              (sym a.rest_eq)) in
    rw whole (
      rw (any-append (cut (buffer ++ xs)).0 (cut (rest ++ ys)).0) (
        rw (a.short_lines, b.short_lines, b.short_rest)
          (rw (select-append (cut (buffer ++ xs)).0 (cut (rest ++ ys)).0)
            (rw (a.lines_eq, b.lines_eq, b.rest_eq) refl))))
