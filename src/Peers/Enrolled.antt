-- ===== src/Peers/Enrolled.antt =====
-- `all_peers` and `enroll` of src/peer_peers.py: the table of a configuration.
use peer_chat.Base.{
  String, ◌≡◌, refl, sym, ap, ◌∙◌, Option, none, some, arith, if◌then◌else◌, ◌==◌, eq_iff,
  Bool-cases, inl, inr, ◌⊎◌, Option-cases, false,
}
use peer_chat.Base.Json.{
  Value, null, obj, Fields, end, field, insert, lookup, lookup-insert, lookup-insert_ne, member,
  member-insert, member-insert_ne,
}
use peer_chat.Store.{Store, get, put}
use peer_chat.Peers.{
  Host, text_of, normalise, add_peer, collect, all_peers, legacy_entry, legacy_table, table_of,
  enrolled_config, mirrored, config_fields, first_claude, enroll,
}
use peer_chat.Peers.Normal.{normalise_again}

swap_ne : (a b : String) → (a == b) ≡ false → (b == a) ≡ false
swap_ne a b h = ground (arith, eq_iff a b, eq_iff b a)

module _ (host : Host) where
  abbrev pub key_of : Fields → String
  key_of d = text_of (member (obj d) "key")

  -- A canonical record, stored under its own key.
  pub record IsEntry (key : String) (v : Value) : Type 0 where
    pub entry : Fields
    pub is_obj : v ≡ obj entry
    pub canonical : normalise host (obj entry) ≡ some entry
    pub key_eq : key_of entry ≡ key

  -- Every entry is canonical, and no key occurs twice.
  abbrev pub IsTable : Fields → Type 0
  IsTable end = Unit
  IsTable (field key v rest) = IsEntry key v × (lookup key rest ≡ none) × IsTable rest

  insert-IsTable :
      (key : String) (v : Value) (t : Fields) → IsEntry key v → IsTable t → IsTable (insert key v t)
  unfolding insert lookup
  insert-IsTable key v end e h = (e, refl, tt)
  insert-IsTable key v (field j w rest) e h = elim (Bool-cases (j == key)) [
    | inl same ↦ rw same (e, ap (λ x. lookup x rest) (sym ((eq_iff j key).0 same)) ∙ h.1, h.2)
    | inr other ↦ rw other (
      h.0,
      lookup-insert_ne key j v rest (swap_ne j key other) ∙ h.1,
      insert-IsTable key v rest e h.2,
    )
  ]

  add_peer-IsTable :
      (d t : Fields) → normalise host (obj d) ≡ some d → IsTable t → IsTable (add_peer host d t)
  add_peer-IsTable d t c h =
      insert-IsTable (key_of d) (obj d) t
        (record { entry = d; is_obj = refl; canonical = c; key_eq = refl }) h

  collect-none :
      (key : String) (v : Value) (rest out : Fields)
      → normalise host v ≡ none
      → collect host (field key v rest) out ≡ collect host rest out
  unfolding collect
  collect-none key v rest out n = rw (n, collect)

  collect-some :
      (key : String) (v : Value) (rest out d : Fields)
      → normalise host v ≡ some d
      → collect host (field key v rest) out ≡ collect host rest (add_peer host d out)
  unfolding collect
  collect-some key v rest out d n = rw (n, collect)

  collect-IsTable : (t out : Fields) → IsTable out → IsTable (collect host t out)
  collect-IsTable end out h = unfold collect in h
  collect-IsTable (field key v rest) out h = elim (Option-cases (normalise host v)) [
    | inl n ↦ rw (collect-none key v rest out n) (collect-IsTable rest out h)
    | inr (d, n) ↦ rw (collect-some key v rest out d n) (
        collect-IsTable rest (add_peer host d out)
          (add_peer-IsTable d out (normalise_again host v n) h))
  ]

  abbrev or_lookup : Option Value → Option Value → Option Value
  or_lookup none o = o
  or_lookup (some v) o = some v

  found_first :
      (key j : String) (v : Value) (rest out : Fields)
      → lookup key rest ≡ none
      → or_lookup (lookup j rest) (if key == j then some v else lookup j out)
        ≡ or_lookup (if key == j then some v else lookup j rest) (lookup j out)
  found_first key j v rest out h = elim (Bool-cases (key == j)) [
    | inl e ↦ rw (e, ap (λ x. lookup x rest) (sym ((eq_iff key j).0 e)) ∙ h) refl
    | inr e ↦ rw e
  ]

  -- Reading a table back finds what it holds.
  lookup-collect :
      (t out : Fields) (j : String)
      → IsTable t
      → lookup j (collect host t out) ≡ or_lookup (lookup j t) (lookup j out)
  lookup-collect end out j h = unfold collect lookup in refl
  lookup-collect (field key v rest) out j h =
      let e = h.0 in
      let n : normalise host v ≡ some e.entry = rw e.is_obj e.canonical in
      rw (collect-some key v rest out e.entry n) (
        lookup-collect rest (add_peer host e.entry out) j h.2
        ∙ rw (lookup-insert (key_of e.entry) j (obj e.entry) out)
            (rw (e.key_eq, ← e.is_obj) (found_first key j v rest out h.1 ∙ unfold lookup in refl)))

  legacy_table-IsTable : (v : Value) → IsTable (legacy_table host v)
  unfolding legacy_table
  legacy_table-IsTable (obj legacy) =
      elim (Option-cases (normalise host (legacy_entry host (obj legacy)))) [
        | inl n ↦ rw (legacy_table, n) tt
        | inr (d, n) ↦ rw (legacy_table, n) (add_peer-IsTable d end (normalise_again host _ n) tt)
      ]
  legacy_table-IsTable null = tt
  legacy_table-IsTable _ = tt

  table_of-IsTable : (v legacy : Value) → IsTable (table_of host v legacy)
  table_of-IsTable (obj table) legacy = unfold table_of in collect-IsTable table end tt
  table_of-IsTable null legacy = unfold table_of in legacy_table-IsTable legacy
  table_of-IsTable _ legacy = unfold table_of in legacy_table-IsTable legacy

  -- The table that `all_peers` returns is canonical, whatever the configuration holds: every entry
  -- is a record that `_normalise` gives back, stored under its own key, and no key occurs twice.
  pub all_peers-IsTable : (config : Value) → IsTable (all_peers host config)
  all_peers-IsTable config =
      unfold all_peers in table_of-IsTable (member config "peers") (member config "peer")

  or_lookup-end : (j : String) (o : Option Value) → or_lookup o (lookup j end) ≡ o
  unfolding lookup
  or_lookup-end j none = refl
  or_lookup-end j (some v) = refl

  peers-mirrored :
      (table config : Fields)
      → member (obj (mirrored host table config)) "peers" ≡ member (obj config) "peers"
  peers-mirrored table config = elim (Option-cases (first_claude host table)) [
    | inl e ↦ rw (e, mirrored)
    | inr (p, e) ↦ rw (e, mirrored) (member-insert_ne "peer" "peers" _ config refl)
  ]

  all_peers-mapped :
      (c t : Fields) → member (obj c) "peers" ≡ obj t → all_peers host (obj c) ≡ collect host t end
  unfolding all_peers table_of
  all_peers-mapped c t h = rw (h, table_of)

  abbrev pub before : Value → Fields
  before config = all_peers host (obj (config_fields host config))

  all_peers-enrolled :
      (d : Fields) (config : Value)
      → all_peers host (obj (enrolled_config host d config))
        ≡ collect host (add_peer host d (before config)) end
  unfolding enrolled_config
  all_peers-enrolled d config =
      all_peers-mapped _ (add_peer host d (before config))
        (peers-mirrored _ _ ∙ member-insert "peers" "peers" _ (config_fields host config))

  lookup-enrolled :
      (d : Fields) (config : Value) (j : String)
      → normalise host (obj d) ≡ some d
      → lookup j (all_peers host (obj (enrolled_config host d config)))
        ≡ (if key_of d == j then some (obj d) else lookup j (before config))
  lookup-enrolled d config j n =
      let table = add_peer-IsTable d (before config) n (all_peers-IsTable _) in
      ap (lookup j) (all_peers-enrolled d config)
      ∙ (lookup-collect _ end j table
          ∙ (or_lookup-end j (lookup j (add_peer host d (before config)))
              ∙ lookup-insert (key_of d) j (obj d) (before config)))

  -- After an enrolment the normalised record is found under its key, and under every other key
  -- what was found before. An entry that cannot be normalised is refused.
  pub enroll-lookup :
      (peer : Value) (s : Store) (j : String)
      → ((normalise host peer ≡ none) × (enroll host peer s ≡ none))
        ⊎ ((d : Fields) × (r : Fields × Store) × (normalise host peer ≡ some d)
            × (enroll host peer s ≡ some r)
            × (get r.1 "config" null ≡ obj r.0)
            × (lookup j (all_peers host (obj r.0)) ≡ (
                if key_of d == j then some (obj d) else lookup j (before (get s "config" null)))))
  unfolding enroll
  enroll-lookup peer s j = elim (Option-cases (normalise host peer)) [
    | inl n ↦ inl (n, rw (n, enroll))
    | inr (d, n) ↦
        let config = enrolled_config host d (get s "config" null) in
        inr (
          d,
          (config, put "config" (obj config) s),
          n,
          rw (n, enroll),
          refl,
          lookup-enrolled d (get s "config" null) j (normalise_again host peer n),
        )
  ]
