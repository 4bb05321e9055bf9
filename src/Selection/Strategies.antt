-- ===== src/Selection/Strategies.antt =====
-- The strategies of `select_peer` (src/peer_peers.py) and `select_session` (src/peer_registry.py).
-- `lower` is `str.lower`, and `number` is `int()` of a text for which `isdigit` holds.
use peer_chat.Base.{
  ℕ, String, ◌≡◌, Bool, true, false, ◌&&◌, ◌||◌, Option, none, some, List, [], ◌∷◌, select,
  if◌then◌else◌, ◌==◌, leb, nat_eq, All, Bool-cases, inl, inr, some_inj, zero, suc,
}
use peer_chat.Base.Int.{pos}
use peer_chat.Base.Json.{Value, int, str, Fields, end, field, member, is_obj, is_str, is_text}
use peer_chat.Base.Text.{prefix, strip, text_length}
use peer_chat.Peers.{Host, all_peers, text_of}
use peer_chat.Selection.{Choice, choose, choose-none_match}

-- `peers.values()`
abbrev pub values : Fields → List Value
values end = []
values (field key v rest) = v ∷ values rest

-- `text.startswith(start)`
abbrev pub starts_with : String → String → Bool
starts_with text start = prefix (text_length start) text == start

-- `isinstance(r.get("name"), str) and r["name"].lower() == selector.lower()`
abbrev pub same_name : (String → String) → String → Value → Bool
same_name lower selector r = elim (member r "name") [
  | str name ↦ lower name == lower selector
  | _ ↦ false
]

abbrev pub peer_strategies : (String → String) → String → List (Value → Bool)
peer_strategies lower selector =
    (λ r. is_text (member r "key") selector)
    ∷ (λ r. is_text (member r "name") selector)
    ∷ same_name lower selector
    ∷ (λ r.
        leb 8 (text_length selector)
        && (starts_with (text_of (member r "key")) selector
            || starts_with (text_of (member r "thread")) selector))
    ∷ []

-- `select_peer`; `none` is its error for a selector that is blank.
unfoldable pub select_peer : (String → String) → Host → Value → Value → Option (Choice Value)
select_peer lower host config (str s) =
    if strip s == ""
    then none
    else some (choose (peer_strategies lower (strip s)) (values (all_peers host config)))
select_peer lower host config _ = none

abbrev pub is_number_of : (String → Option ℕ) → String → Value → Bool
is_number_of number digits v = elim (number digits) [
  | none ↦ false
  | some n ↦ (elim v [ int (pos k) ↦ nat_eq k n | _ ↦ false ])
]

-- `selector[4:]`
abbrev pub drop : ℕ → String → String
drop zero s = s
drop (suc n) String.[] = ""
drop (suc n) (String.◌∷◌ c s) = drop n s

abbrev pub session_strategies :
    (String → String) → (String → Option ℕ) → String → List (Value → Bool)
session_strategies lower number selector =
    (λ r. is_text (member r "id") selector)
    ∷ (λ r. is_text (member r "name") selector)
    ∷ same_name lower selector
    ∷ (λ r.
        leb 8 (text_length selector)
        && (is_str (member r "id") && starts_with (text_of (member r "id")) selector))
    ∷ (λ r. starts_with selector "pid:" && is_number_of number (drop 4 selector) (member r "pid"))
    ∷ []

abbrev pub of_kind : Option String → Value → Bool
of_kind kind r = is_obj r && (elim kind [ none ↦ true | some k ↦ is_text (member r "kind") k ])

-- `select_session`
unfoldable pub select_session :
    (String → String)
    → (String → Option ℕ)
    → List Value
    → Value
    → Option String
    → Option (Choice Value)
select_session lower number rows (str s) kind =
    if strip s == ""
    then none
    else some (choose (session_strategies lower number (strip s)) (select (of_kind kind) rows))
select_session lower number rows _ kind = none

-- No session is reported as missing that a strategy finds: neither the exact id, nor the name in any
-- case, nor a prefix of eight characters of the id, nor the process number of a row of that kind.
pub select_session-none_match :
    (lower : String → String) (number : String → Option ℕ) (rows : List Value) (s : String)
    (kind : Option String)
    → select_session lower number rows (str s) kind ≡ some Choice.none_match
    → All
        (λ p. select p (select (of_kind kind) rows) ≡ [])
        (session_strategies lower number (strip s))
unfolding select_session
select_session-none_match lower number rows s kind h = elim (Bool-cases (strip s == "")) [
  | inl e ↦ cc (rw e at h)
  | inr e ↦
      choose-none_match (session_strategies lower number (strip s)) (select (of_kind kind) rows)
        (some_inj _ Choice.none_match (rw e at h))
]
