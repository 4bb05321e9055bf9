-- ===== src/Peers/Codex.antt =====
-- `_normalise` of src/peer_peers.py on a Codex record.
use peer_chat.Base.{
  and_first, String, ◌≡◌, refl, sym, ap, ◌∙◌, inl, inr, Bool, true, false, not, ◌&&◌, Option, none,
  some, arith, ◌==◌, is_some, Bool-cases, some_inj, Option-cases,
}
use mathlib.Core.Option
use peer_chat.Base.Json.{
  Value, null, str, obj, Fields, lookup, lookup-insert, lookup-insert_ne, insert_same, member,
  member-lookup,
}
use peer_chat.Base.Text.{is_blank, is_lower_uuid}
use peer_chat.Peers.{
  Host, is_thread, text_of, normalise_codex, absolute_root, codex_key, codex_fields,
}
use peer_chat.Peers.Claude.{lookup-with_name, is_some-with_name, with_name_named, same-member}

thread_text :
    (v : Value) → is_thread v ≡ true → (t : String) × (v ≡ str t) × (is_lower_uuid t ≡ true)
thread_text (str t) h = (t, refl, h)
thread_text null h = cc
thread_text _ h = cc

module _ (host : Host) where
  open host use {is_absolute, resolve, digest}

  lookup-codex :
      (home root thread j : String) (d : Fields)
      → ("name" == j) ≡ false
      → ("key" == j) ≡ false
      → ("state_root" == j) ≡ false
      → ("codex_home" == j) ≡ false
      → lookup j (codex_fields host home root thread d) ≡ lookup j d
  lookup-codex home root thread j d n k r c =
      lookup-with_name _ j _ n
      ∙ (lookup-insert_ne "key" j _ _ k
          ∙ (lookup-insert_ne "state_root" j _ _ r ∙ lookup-insert_ne "codex_home" j _ d c))

  codex_home-codex :
      (home root thread : String) (d : Fields)
      → lookup "codex_home" (codex_fields host home root thread d) ≡ some (str (resolve home))
  codex_home-codex home root thread d =
      lookup-with_name _ "codex_home" _ refl
      ∙ (lookup-insert_ne "key" "codex_home" _ _ refl
          ∙ (lookup-insert_ne "state_root" "codex_home" _ _ refl
              ∙ lookup-insert "codex_home" "codex_home" _ d))

  state_root-codex :
      (home root thread : String) (d : Fields)
      → lookup "state_root" (codex_fields host home root thread d) ≡ some (str root)
  state_root-codex home root thread d =
      lookup-with_name _ "state_root" _ refl
      ∙ (lookup-insert_ne "key" "state_root" _ _ refl ∙ lookup-insert "state_root" "state_root" _ _)

  key-codex :
      (home root thread : String) (d : Fields)
      → lookup "key" (codex_fields host home root thread d)
        ≡ some (str (codex_key host (resolve home) thread))
  key-codex home root thread d = lookup-with_name _ "key" _ refl ∙ lookup-insert "key" "key" _ _

  codex_fields_same :
      (home root thread : String) (c : Fields)
      → lookup "codex_home" c ≡ some (str (resolve home))
      → lookup "state_root" c ≡ some (str root)
      → lookup "key" c ≡ some (str (codex_key host (resolve home) thread))
      → is_some (lookup "name" c) ≡ true
      → codex_fields host home root thread c ≡ c
  codex_fields_same home root thread c h r k n =
      rw (insert_same "codex_home" _ c h)
        (rw (insert_same "state_root" _ c r) (rw (insert_same "key" _ c k) (with_name_named _ c n)))

  -- A record with resolved paths and its own key is left as it is.
  codex-again :
      (home root thread : String) (d : Fields)
      → member (obj d) "thread" ≡ str thread
      → is_lower_uuid thread ≡ true
      → normalise_codex host (codex_fields host home (resolve root) thread d)
        ≡ some (codex_fields host home (resolve root) thread d)
  unfolding normalise_codex
  codex-again home root thread d t u =
      let c = codex_fields host home (resolve root) thread d in
      let h : member (obj c) "codex_home" ≡ str (resolve home) =
        member-lookup "codex_home" _ c (codex_home-codex home (resolve root) thread d) in
      let r : member (obj c) "state_root" ≡ str (resolve root) =
        member-lookup "state_root" _ c (state_root-codex home (resolve root) thread d) in
      let i : member (obj c) "thread" ≡ str thread =
        same-member "thread" c d
          (lookup-codex home (resolve root) thread "thread" d refl refl refl refl)
        ∙ t in
      let twice : resolve (resolve home) ≡ resolve home = host.resolve-resolve home in
      rw (h, i)
        (rw (u, host.is_blank-resolve home, host.is_absolute-resolve home)
          (rw (r, absolute_root)
            (rw (host.is_blank-resolve root, host.is_absolute-resolve root)
              (rw (h, i)
                (rw (host.resolve-resolve root) (
                  ap some (
                    codex_fields_same (resolve home) (resolve root) thread c
                      (codex_home-codex home (resolve root) thread d
                        ∙ ap (λ x. some (str x)) (sym twice))
                      (state_root-codex home (resolve root) thread d)
                      (key-codex home (resolve root) thread d
                        ∙ ap (λ x. some (str (codex_key host x thread))) (sym twice))
                      (is_some-with_name _ _))))))))

  absolute_root-resolve :
      (v : Value) (root : String)
      → absolute_root host v ≡ some root
      → (p : String) × (root ≡ resolve p)
  absolute_root-resolve (str p) root h = elim (Bool-cases (not (is_blank p) && is_absolute p)) [
    | inl e ↦ (p, ground arith)
    | inr e ↦ absurd (ground arith)
  ]
  absolute_root-resolve null root h = cc
  absolute_root-resolve _ root h = cc

  abbrev home_of : Fields → String
  home_of d = text_of (member (obj d) "codex_home")

  abbrev is_codex : Fields → Bool
  is_codex d =
      is_thread (member (obj d) "thread") && (not (is_blank (home_of d)) && is_absolute (home_of d))

  normalise_codex-eval :
      (d : Fields) (r : Option String)
      → is_codex d ≡ true
      → absolute_root host (member (obj d) "state_root") ≡ r
      → normalise_codex host d
        ≡ Option.map
            (λ root. codex_fields host (home_of d) root (text_of (member (obj d) "thread")) d)
            r
  unfolding normalise_codex
  normalise_codex-eval d none e f = rw (e, f)
  normalise_codex-eval d (some root) e f = rw (e, f)

  normalise_codex-bad : (d : Fields) → is_codex d ≡ false → normalise_codex host d ≡ none
  unfolding normalise_codex
  normalise_codex-bad d e = rw e

  normalise_codex-fields :
      (d : Fields) {c : Fields}
      → normalise_codex host d ≡ some c
      → (root thread : String) × (member (obj d) "thread" ≡ str thread)
        × (is_lower_uuid thread ≡ true)
        × (c ≡ codex_fields host (home_of d) (resolve root) thread d)
  normalise_codex-fields d {c} h = elim (Bool-cases (is_codex d)) [
    | inl e ↦ (elim (Option-cases (absolute_root host (member (obj d) "state_root"))) [
      | inl n ↦ cc (normalise_codex-eval d none e n, h)
      | inr (r, f) ↦
          let (thread, t, u) = thread_text (member (obj d) "thread") (and_first _ _ e) in
          let (root, g) = absolute_root-resolve (member (obj d) "state_root") r f in
          let made = some_inj _ _ (sym h ∙ normalise_codex-eval d (some r) e f) in
          (
            root,
            thread,
            t,
            u,
            made
                ∙ (ap (λ x. codex_fields host (home_of d) x (text_of (member (obj d) "thread")) d) g
                    ∙ ap (λ x. codex_fields host (home_of d) (resolve root) (text_of x) d) t),
          )
    ])
    | inr e ↦ cc (normalise_codex-bad d e, h)
  ]

  pub normalise_codex-again :
      (d : Fields) {c : Fields}
      → normalise_codex host d ≡ some c
      → (normalise_codex host c ≡ some c) × (member (obj c) "kind" ≡ member (obj d) "kind")
  normalise_codex-again d {c} h =
      let (root, thread, t, u, e) = normalise_codex-fields d h in
      rw e (
        codex-again (home_of d) root thread d t u,
        same-member "kind" _ d
            (lookup-codex (home_of d) (resolve root) thread "kind" d refl refl refl refl),
      )
