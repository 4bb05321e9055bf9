-- ===== src/Peers/Live.antt =====
-- The endpoints that `resolve_peer` and `expected_endpoints` of src/peer_peers.py return.
use peer_chat.Base.{
  String, ◌≡◌, refl, Bool, true, false, not, ◌&&◌, Option, none, some, List, [], ◌∷◌, ◌++◌, arith,
  find, Bool-cases, inl, inr, sym, ap, ◌∙◌, ◌||◌, eq_iff,
}
use mathlib.Core.Path.{subst}
use peer_chat.Base.Json.{Value, str, null, obj, Fields, end, field, member, is_text, is_obj, is_str}
use peer_chat.Peers.{Host, is_filled, normalise, normalise_claude, all_peers}
use peer_chat.Peers.Claude.{normalise_claude-bad}
use peer_chat.Peers.Normal.{normalise-claude, normalise_again}
use peer_chat.Peers.Resolve.{
  FileInfo, StateFile, missing, foreign, unreadable, corrupt, saved, Machine, Endpoint, Resolved,
  refused, live, first_reason, is_int, is_identity, socket_error, unless_error, with_socket,
  claude_endpoint, resolve_claude, codex_tests, codex_endpoint, judge_codex, resolve_codex,
  resolve_at, resolve_normal, resolve_peer, has_no_root, Found, Expected, clash, expected, has_pid,
  add_endpoint, add_endpoints, expected_endpoints,
}

-- There is a process, it has the identity that was recorded, and the socket is one of the user.
pub record IsLive (m : Machine) (e : Endpoint) : Type 0 where
  pub identified : (i : String) × (m.identity e.pid ≡ some i) × (e.identity ≡ str i)
  pub bound :
      (f : FileInfo) × (m.lstat e.socket ≡ some f) × (f.is_socket ≡ true) × (f.is_own ≡ true)

-- The table of endpoints, built up: every entry is resolved and live, and its process is new.
pub data Listed (host : Host) (m : Machine) (root : Option String) : List Found → Type 0 where
  empty : Listed host m root []
  further :
      {found : List Found} (f : Found)
      → Listed host m root found
      → resolve_peer host m root f.peer ≡ live f.endpoint
      → IsLive m f.endpoint
      → find (has_pid f.endpoint.pid) found ≡ none
      → Listed host m root (found ++ f ∷ [])

socket_error-none :
    (what : String) (o : Option FileInfo)
    → socket_error what o ≡ none
    → (f : FileInfo) × (o ≡ some f) × (f.is_socket ≡ true) × (f.is_own ≡ true)
socket_error-none what none h = cc
socket_error-none what (some f) h = (f, refl, ground arith, ground arith)

live_inj : (x e : Endpoint) → live x ≡ live e → x ≡ e
live_inj x e h = cc

-- An identity that is a text is that of a process which there is.
identity_known :
    (o : Option String) (v : Value)
    → is_str v ≡ true
    → is_identity o v ≡ true
    → (i : String) × (o ≡ some i) × (v ≡ str i)
identity_known none null s h = cc
identity_known none v s h = absurd (ground arith)
identity_known (some i) (str x) s h = (i, refl, ap str ((eq_iff x i).0 h))
identity_known (some i) null s h = cc
identity_known (some i) v s h = cc

filled_text : (v : Value) → is_filled v ≡ true → is_str v ≡ true
filled_text (str x) h = refl
filled_text null h = cc
filled_text v h = cc

-- A canonical record of a Claude peer has a text for its identity.
claude-is_str :
    (host : Host) (v : Value) (d : Fields)
    → normalise host v ≡ some d
    → is_text (member (obj d) "kind") "claude" ≡ true
    → is_str (member (obj d) "identity") ≡ true
claude-is_str host v d h k = elim (Bool-cases (is_filled (member (obj d) "identity"))) [
  | inl f ↦ filled_text (member (obj d) "identity") f
  | inr f ↦
      let canonical : normalise_claude d ≡ some d =
        sym
          (normalise-claude host d (claude_not_codex (member (obj d) "kind") k) (either_kind _ _ k))
        ∙ normalise_again host v h in
      cc (normalise_claude-bad d (not_both _ _ f), canonical)
]
  where
    either_kind : (a b : Bool) → b ≡ true → (a || b) ≡ true
    either_kind a b e = ground arith

    not_both : (a b : Bool) → a ≡ false → (a && b) ≡ false
    not_both a b e = ground arith

    claude_not_codex : (x : Value) → is_text x "claude" ≡ true → is_text x "codex" ≡ false
    claude_not_codex (str x) e = rw ((eq_iff x "claude").0 e) refl
    claude_not_codex null e = refl
    claude_not_codex x e = cc

with_socket-IsLive :
    (m : Machine) (what : String) (x e : Endpoint)
    → is_str x.identity ≡ true
    → is_identity (m.identity x.pid) x.identity ≡ true
    → with_socket m what x ≡ live e
    → IsLive m e
with_socket-IsLive m what x e t i h = go (socket_error what (m.lstat x.socket)) refl h
  where
    go :
        (o : Option String)
        → socket_error what (m.lstat x.socket) ≡ o
        → unless_error o x ≡ live e
        → IsLive m e
    go (some reason) k h = cc
    go none k h = subst (IsLive m) (live_inj x e h) (record {
      identified = identity_known (m.identity x.pid) x.identity t i;
      bound = socket_error-none what (m.lstat x.socket) k;
    })

resolve_claude-IsLive :
    (m : Machine) (d : Fields) (e : Endpoint)
    → is_str (member (obj d) "identity") ≡ true
    → resolve_claude m d ≡ live e
    → IsLive m e
unfolding resolve_claude
resolve_claude-IsLive m d e s h =
    elim (Bool-cases
      (is_identity (m.identity (member (obj d) "pid")) (member (obj d) "identity"))) [
        | inl t ↦ with_socket-IsLive m "claude peer" (claude_endpoint d) e s t (rw (t) at h)
        | inr t ↦ cc (rw (t) at h)
      ]

abbrev third : List (Bool × String) → Bool
third (_ ∷ _ ∷ (test, reason) ∷ rest) = test
third _ = false

-- Where a list of tests has no reason, the third one is false.
first_reason-third : (ts : List (Bool × String)) → first_reason ts ≡ none → third ts ≡ false
unfolding first_reason
first_reason-third [] h = refl
first_reason-third (a ∷ []) h = refl
first_reason-third (a ∷ b ∷ []) h = refl
first_reason-third ((a, x) ∷ (b, y) ∷ (c, z) ∷ rest) h = ground arith

listener_identified : (i s t : Bool) → not (i && (s && t)) ≡ false → (s ≡ true) × (t ≡ true)
listener_identified i s t h = (ground arith, ground arith)

expected_inj :
    (xs ys : List Found) (fs gs : List (String × String))
    → expected xs fs ≡ expected ys gs
    → xs ≡ ys
expected_inj xs ys fs gs h = cc

module _ (host : Host) (m : Machine) where
  resolve_codex-IsLive :
      (d : Fields) (root : String) (file : StateFile) (e : Endpoint)
      → resolve_codex host m d root file ≡ live e
      → IsLive m e
  unfolding resolve_codex
  resolve_codex-IsLive d root missing e h = cc
  resolve_codex-IsLive d root foreign e h = cc
  resolve_codex-IsLive d root unreadable e h = cc
  resolve_codex-IsLive d root corrupt e h = cc
  resolve_codex-IsLive d root (saved config runtime) e h = elim (Bool-cases (is_obj config)) [
    | inr c ↦ cc (rw (c) at h)
    | inl c ↦ elim (Bool-cases (is_obj runtime)) [
      | inr r ↦ cc (rw (c, r) at h)
      | inl r ↦
          judged (first_reason (codex_tests host m d root config runtime)) refl (rw (c, r) at h)
    ]
  ]
    where
      judged :
          (o : Option String)
          → first_reason (codex_tests host m d root config runtime) ≡ o
          → judge_codex host m config runtime o ≡ live e
          → IsLive m e
      judged (some reason) k j = cc
      judged none k j =
          let listener =
            listener_identified (is_int (member runtime "pid")) (is_str (member runtime "identity"))
              (is_identity (m.identity (member runtime "pid")) (member runtime "identity"))
              (first_reason-third (codex_tests host m d root config runtime) k) in
          with_socket-IsLive m "codex peer" (codex_endpoint host m config runtime) e listener.0
            listener.1 j

  resolve_at-IsLive :
      (d : Fields) (root : Option String) (e : Endpoint)
      → resolve_at host m d root ≡ live e
      → IsLive m e
  unfolding resolve_at
  resolve_at-IsLive d none e h = cc
  resolve_at-IsLive d (some root) e h = resolve_codex-IsLive d root _ e h

  resolve_normal-IsLive :
      (root : Option String) (v : Value) (o : Option Fields) (e : Endpoint)
      → normalise host v ≡ o
      → resolve_normal host m root o ≡ live e
      → IsLive m e
  unfolding resolve_normal
  resolve_normal-IsLive root v none e n h = cc
  resolve_normal-IsLive root v (some d) e n h =
      elim (Bool-cases (is_text (member (obj d) "kind") "claude")) [
        | inl t ↦ resolve_claude-IsLive m d e (claude-is_str host v d n t) (rw (t) at h)
        | inr t ↦ resolve_at-IsLive d _ e (rw (t) at h)
      ]

  resolve_peer-IsLive :
      (root : Option String) (v : Value) (e : Endpoint)
      → resolve_peer host m root v ≡ live e
      → IsLive m e
  unfolding resolve_peer
  resolve_peer-IsLive root v e h = elim (Bool-cases (has_no_root host m root v)) [
    | inl t ↦ cc (rw (t) at h)
    | inr t ↦ resolve_normal-IsLive root v (normalise host v) e refl (rw (t) at h)
  ]

  module _ (root : Option String) where
    add_endpoints-Listed :
        (peers : Fields) (found : List Found) (failures : List (String × String)) (out : List Found)
        (reasons : List (String × String))
        → Listed host m root found
        → add_endpoints host m root peers found failures ≡ expected out reasons
        → Listed host m root out
    unfolding add_endpoints
    add_endpoints-Listed end found failures out reasons l h =
        subst (Listed host m root) (expected_inj found out failures reasons h) l
    add_endpoints-Listed (field key peer rest) found failures out reasons l h =
        added (λ f g k. add_endpoints-Listed rest f g out reasons k) (resolve_peer host m root peer)
          refl h
      where
        Rest : Type 0
        Rest =
            (f : List Found) (g : List (String × String))
            → Listed host m root f
            → add_endpoints host m root rest f g ≡ expected out reasons
            → Listed host m root out

        placed :
            Rest
            → (e : Endpoint) → resolve_peer host m root peer ≡ live e
            → (o : Option Found) → find (has_pid e.pid) found ≡ o
            → (elim o as (λ x. Expected) [
              | some earlier ↦ clash earlier.key key
              | none ↦
                  add_endpoints host m root rest
                    (found ++ (record { key = key; peer = peer; endpoint = e } ∷ []))
                    failures
            ])
              ≡ expected out reasons
            → Listed host m root out
        placed ih e k (some earlier) n h = cc
        placed ih e k none n h =
            ih _ failures
              (further (record { key = key; peer = peer; endpoint = e }) l k
                (resolve_peer-IsLive root peer e k) n)
              h

        added :
            Rest
            → (r : Resolved) → resolve_peer host m root peer ≡ r
            → add_endpoint key peer r found failures (add_endpoints host m root rest)
              ≡ expected out reasons
            → Listed host m root out
        added ih (refused reason) k h = ih found _ l h
        added ih (live e) k h = placed ih e k (find (has_pid e.pid) found) refl h

-- The table that `expected_endpoints` returns holds peers that `resolve_peer` resolves, each with a
-- process that exists and has the identity which was recorded and a socket of the user, and no process
-- twice.
pub expected_endpoints-Listed :
    (host : Host) (m : Machine) (root : Option String) (config : Value) (out : List Found)
    (reasons : List (String × String))
    → expected_endpoints host m root config ≡ expected out reasons
    → Listed host m root out
unfolding expected_endpoints
expected_endpoints-Listed host m root config out reasons h =
    add_endpoints-Listed host m root (all_peers host config) [] [] out reasons empty h
