-- ===== src/Peers/Claude.antt =====
-- `_normalise` of src/peer_peers.py on a Claude record.
use peer_chat.Base.{
  String, ◌≡◌, refl, sym, ap, ◌∙◌, inl, inr, true, false, ◌&&◌, none, some, arith, ◌==◌, is_some,
  Bool-cases,
}
use peer_chat.Base.Json.{
  Value, str, obj, Fields, insert, lookup, lookup-insert, lookup-insert_ne, insert_same, member,
}
use peer_chat.Base.Text.{prefix}
use peer_chat.Peers.{is_filled, is_pid, text_of, with_name, normalise_claude}

pub lookup-with_name :
    (key j : String) (d : Fields) → ("name" == j) ≡ false → lookup j (with_name key d) ≡ lookup j d
lookup-with_name key j d h = elim (Bool-cases (is_some (lookup "name" d))) [
  | inl e ↦ rw e
  | inr e ↦ rw e (lookup-insert_ne "name" j _ d h)
]

pub is_some-with_name :
    (key : String) (d : Fields) → is_some (lookup "name" (with_name key d)) ≡ true
is_some-with_name key d = elim (Bool-cases (is_some (lookup "name" d))) [
  | inl e ↦ rw e e
  | inr e ↦ rw e (rw (lookup-insert "name" "name" (str (prefix 8 key)) d))
]

pub with_name_named :
    (key : String) (d : Fields) → is_some (lookup "name" d) ≡ true → with_name key d ≡ d
with_name_named key d h = rw h

module _ (d : Fields) where
  abbrev pub keyed : Value → Fields
  keyed identity = insert "key" identity (insert "kind" (str "claude") d)

  abbrev pub claude_fields : Value → Fields
  claude_fields identity = with_name (text_of identity) (keyed identity)

  lookup-claude :
      (identity : Value) (j : String)
      → ("name" == j) ≡ false
      → ("key" == j) ≡ false
      → ("kind" == j) ≡ false
      → lookup j (claude_fields identity) ≡ lookup j d
  lookup-claude identity j n k c =
      lookup-with_name _ j _ n ∙ (lookup-insert_ne "key" j _ _ k ∙ lookup-insert_ne "kind" j _ d c)

  lookup-claude-key : (identity : Value) → lookup "key" (claude_fields identity) ≡ some identity
  lookup-claude-key identity =
      lookup-with_name _ "key" _ refl ∙ lookup-insert "key" "key" identity _

  pub lookup-claude-kind :
      (identity : Value) → lookup "kind" (claude_fields identity) ≡ some (str "claude")
  lookup-claude-kind identity =
      lookup-with_name _ "kind" _ refl
      ∙ (lookup-insert_ne "key" "kind" _ _ refl ∙ lookup-insert "kind" "kind" (str "claude") d)

pub same-member :
    (j : String) (d d' : Fields) → lookup j d ≡ lookup j d' → member (obj d) j ≡ member (obj d') j
unfolding member
same-member j d d' h = rw (h, member)

claude-again :
    (d : Fields)
    → let identity = member (obj d) "identity" in
      (is_filled identity && (is_pid (member (obj d) "pid") && is_filled (member (obj d) "socket")))
        ≡ true
      → normalise_claude (claude_fields d identity) ≡ some (claude_fields d identity)
unfolding normalise_claude
claude-again d h =
    let v = member (obj d) "identity" in
    let c = claude_fields d v in
    let i : member (obj c) "identity" ≡ v =
      same-member "identity" c d (lookup-claude d v "identity" refl refl refl) in
    let p : member (obj c) "pid" ≡ member (obj d) "pid" =
      same-member "pid" c d (lookup-claude d v "pid" refl refl refl) in
    let k : member (obj c) "socket" ≡ member (obj d) "socket" =
      same-member "socket" c d (lookup-claude d v "socket" refl refl refl) in
    rw (i, p, k)
      (rw h (
        rw (insert_same "kind" (str "claude") c (lookup-claude-kind d v)) (
          rw (insert_same "key" v c (lookup-claude-key d v))
            (ap some (with_name_named _ c (is_some-with_name _ _))))))

pub normalise_claude-bad :
    (d : Fields)
    → (is_filled (member (obj d) "identity")
        && (is_pid (member (obj d) "pid") && is_filled (member (obj d) "socket")))
      ≡ false
    → normalise_claude d ≡ none
unfolding normalise_claude
normalise_claude-bad d e = rw e

pub normalise_claude-fields :
    (d : Fields) {c : Fields}
    → normalise_claude d ≡ some c
    → (c ≡ claude_fields d (member (obj d) "identity")) × (normalise_claude c ≡ some c)
normalise_claude-fields d {c} h =
    elim (Bool-cases (
      is_filled (member (obj d) "identity")
      && (is_pid (member (obj d) "pid") && is_filled (member (obj d) "socket")))) [
        | inl e ↦
            let same : some c ≡ some (claude_fields d (member (obj d) "identity")) =
              sym h ∙ unfold normalise_claude in rw e in
            let same' : c ≡ claude_fields d (member (obj d) "identity") = ground arith in
            (same', rw same' (claude-again d e))
        | inr e ↦ cc (normalise_claude-bad d e, h)
      ]
