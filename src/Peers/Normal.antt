-- ===== src/Peers/Normal.antt =====
-- `_normalise` of src/peer_peers.py, over both kinds of record.
use peer_chat.Base.{◌≡◌, refl, sym, ap, ◌∙◌, inl, inr, true, false, ◌||◌, none, some, Bool-cases}
use peer_chat.Base.Json.{
  Value, null, str, obj, Fields, member, member-lookup, is_obj, is_text, is_null,
}
use peer_chat.Peers.{Host, normalise_claude, normalise_codex, normalise}
use peer_chat.Peers.Claude.{lookup-claude-kind, normalise_claude-fields}
use peer_chat.Peers.Codex.{normalise_codex-again}

module _ (host : Host) where
  normalise-codex :
      (d : Fields)
      → is_text (member (obj d) "kind") "codex" ≡ true
      → normalise host (obj d) ≡ normalise_codex host d
  unfolding normalise
  normalise-codex d k = rw k

  pub normalise-claude :
      (d : Fields)
      → is_text (member (obj d) "kind") "codex" ≡ false
      → (is_null (member (obj d) "kind") || is_text (member (obj d) "kind") "claude") ≡ true
      → normalise host (obj d) ≡ normalise_claude d
  unfolding normalise
  normalise-claude d k c = rw (k, c)

  normalise-other :
      (d : Fields)
      → is_text (member (obj d) "kind") "codex" ≡ false
      → (is_null (member (obj d) "kind") || is_text (member (obj d) "kind") "claude") ≡ false
      → normalise host (obj d) ≡ none
  unfolding normalise
  normalise-other d k c = rw (k, c)

  normalise-not_obj : (v : Value) → is_obj v ≡ false → normalise host v ≡ none
  unfolding normalise
  normalise-not_obj (obj d) h = cc
  normalise-not_obj null h = refl
  normalise-not_obj _ h = refl

  -- Normalising a canonical record gives it back.
  pub normalise_again :
      (v : Value) {c : Fields} → normalise host v ≡ some c → normalise host (obj c) ≡ some c
  normalise_again (obj d) {c} h = elim (Bool-cases (is_text (member (obj d) "kind") "codex")) [
    | inl k ↦
        let (again, same) = normalise_codex-again host d (sym (normalise-codex d k) ∙ h) in
        normalise-codex c (ap (λ x. is_text x "codex") same ∙ k) ∙ again
    | inr k ↦
        (elim (Bool-cases
          (is_null (member (obj d) "kind") || is_text (member (obj d) "kind") "claude")) [
            | inl n ↦
                let (fields, again) =
                  normalise_claude-fields d (sym (normalise-claude d k n) ∙ h) in
                let kind : member (obj c) "kind" ≡ str "claude" =
                  rw fields (member-lookup "kind" _ _ (lookup-claude-kind d _)) in
                normalise-claude c (ap (λ x. is_text x "codex") kind)
                  (ap (λ x. is_null x || is_text x "claude") kind)
                ∙ again
            | inr n ↦ cc (normalise-other d k n, h)
          ])
  ]
  normalise_again null h = cc (normalise-not_obj null refl, h)
  normalise_again v h = cc (normalise-not_obj v refl, h)
