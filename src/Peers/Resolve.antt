-- ===== src/Peers/Resolve.antt =====
-- `resolve_peer` and `expected_endpoints` of src/peer_peers.py. What they find out about processes and
-- files is an argument; a SQLite file of a bridge is read by it too.
use Prim.Native.String.{◌++◌ as text_append}
use peer_chat.Base.{
  String, Bool, true, false, not, ◌&&◌, ◌||◌, Option, none, some, List, [], ◌∷◌, if◌then◌else◌,
  ◌==◌, nat_eq, find, ◌++◌ as join_lists,
}
use peer_chat.Base.Int.{pos, negsuc}
use peer_chat.Base.Json.{
  Value, int, str, obj, Fields, end, field, member, is_text, is_null, is_str, is_obj, or_else,
}
use peer_chat.Peers.{Host, is_filled, text_of, absolute_root, normalise, all_peers}

-- What `lstat` tells of a path.
pub record FileInfo : Type 0 where
  pub is_socket : Bool
  pub is_own : Bool

-- The database of another bridge, with its `config` and `runtime`.
pub data StateFile : Type 0 where
  missing foreign unreadable corrupt : StateFile
  saved : Value → Value → StateFile

pub record Machine : Type 0 where
  pub identity : Value → Option String
  pub is_own_uid : Value → Bool
  pub lstat : String → Option FileInfo
  pub counterpart : String → String → StateFile
  pub registered : String → String → Value
  pub lock_owner : String → String → Option String

pub record Endpoint : Type 0 where
  pub pid : Value
  pub identity : Value
  pub socket : String

-- A live endpoint, or the reason of the ValueError.
pub data Resolved : Type 0 where
  refused : String → Resolved
  live : Endpoint → Resolved

-- The reason of the first test that is true.
unfoldable pub first_reason : List (Bool × String) → Option String
first_reason [] = none
first_reason ((test, reason) ∷ rest) =
    let later = first_reason rest in if test then some reason else later

abbrev pub is_int : Value → Bool
is_int (int n) = true
is_int _ = false

-- `process_identity(pid) == v`
abbrev pub is_identity : Option String → Value → Bool
is_identity none v = is_null v
is_identity (some s) v = is_text v s

abbrev pub socket_error : String → Option FileInfo → Option String
socket_error what none = some (text_append what ": socket path does not exist")
socket_error what (some f) =
    if not f.is_socket
    then some (text_append what ": path is not a socket")
    else if not f.is_own
    then some (text_append what ": socket belongs to another user")
    else none

abbrev pub unless_error : Option String → Endpoint → Resolved
unless_error (some reason) e = refused reason
unless_error none e = live e

-- `_check_socket` at the end of `resolve_peer`
abbrev pub with_socket : Machine → String → Endpoint → Resolved
with_socket m what e = unless_error (socket_error what (m.lstat e.socket)) e

abbrev pub claude_endpoint : Fields → Endpoint
claude_endpoint d = record {
  pid = member (obj d) "pid";
  identity = member (obj d) "identity";
  socket = text_of (member (obj d) "socket");
}

unfoldable pub resolve_claude : Machine → Fields → Resolved
resolve_claude m d =
    if is_identity (m.identity (member (obj d) "pid")) (member (obj d) "identity")
    then with_socket m "claude peer" (claude_endpoint d)
    else refused "claude peer: process is not live or was replaced"

module _ (host : Host) (m : Machine) where
  open host use {resolve}

  -- `canonical_home(config.get("codex_home") or "")`
  abbrev pub home_of : Value → String
  home_of config = resolve (text_of (or_else (member config "codex_home") (str "")))

  -- `_owner_verified`
  unfoldable pub owner_verified : Fields → String → String → Bool
  owner_verified d root owner =
      let thread = text_of (member (obj d) "thread") in
      let home = text_of (member (obj d) "codex_home") in
      let entry = m.registered root thread in
      (is_text (member entry "thread") thread
        && (home_of entry == home
            && (is_text (member entry "owner_identity") owner
                && (is_int (member entry "owner_pid")
                    && is_identity (m.identity (member entry "owner_pid")) (str owner)))))
      || (elim (m.lock_owner home thread) [ none ↦ false | some i ↦ i == owner ])

  -- The tests of `resolve_peer` on the bridge of a Codex peer.
  abbrev pub codex_tests : Fields → String → Value → Value → List (Bool × String)
  codex_tests d root config runtime =
      let pid = member runtime "pid" in
      let identity = member runtime "identity" in
      let owner_pid = member config "owner_pid" in
      let owner = member config "owner_identity" in
      let socket = member config "socket" in
      let bound = member runtime "socket" in
      (
        not (is_text (member config "thread") (text_of (member (obj d) "thread"))),
        "codex peer: counterpart bridge serves a different thread",
      )
      ∷ (
        not (home_of config == text_of (member (obj d) "codex_home")),
        "codex peer: counterpart bridge uses a different Codex home",
      )
      ∷ (
        not (is_int pid && (is_str identity && is_identity (m.identity pid) identity)),
        "codex peer: counterpart listener is not live",
      )
      ∷ (not (m.is_own_uid pid), "codex peer: counterpart listener runs as another user")
      ∷ (
        not (is_int owner_pid && is_identity (m.identity owner_pid) owner),
        "codex peer: counterpart owner process is not live or was replaced",
      )
      ∷ (
        not (is_filled socket && (is_null bound || is_text bound (text_of socket))),
        "codex peer: counterpart socket path is inconsistent",
      )
      ∷ (
        not (is_str owner && owner_verified d root (text_of owner)),
        "codex peer: counterpart owner is not the live verified owner of that thread",
      )
      ∷ []

  abbrev pub codex_endpoint : Value → Value → Endpoint
  codex_endpoint config runtime = record {
    pid = member runtime "pid";
    identity = member runtime "identity";
    socket = text_of (member config "socket");
  }

  abbrev pub judge_codex : Value → Value → Option String → Resolved
  judge_codex config runtime (some reason) = refused reason
  judge_codex config runtime none = with_socket m "codex peer" (codex_endpoint config runtime)

  -- `_read_counterpart`, and what `resolve_peer` does with its result.
  unfoldable pub resolve_codex : Fields → String → StateFile → Resolved
  unfolding first_reason owner_verified
  resolve_codex d root missing = refused "codex peer: counterpart bridge state not found"
  resolve_codex d root foreign =
      refused "codex peer: counterpart bridge state belongs to another user"
  resolve_codex d root unreadable = refused "codex peer: counterpart bridge state unreadable"
  resolve_codex d root corrupt = refused "codex peer: counterpart bridge metadata corrupt or busy"
  resolve_codex d root (saved config runtime) =
      if not (is_obj config)
      then refused "codex peer: counterpart has no bridge configuration"
      else if not (is_obj runtime)
      then refused "codex peer: counterpart bridge is not running"
      else judge_codex config runtime (first_reason (codex_tests d root config runtime))

  abbrev no_root : String
  no_root = "codex peer: state_root must be a non-empty absolute path"

  -- The root that is given, or else that of the record.
  abbrev root_of : Option String → Value → Option String
  root_of (some s) record' = absolute_root host (str s)
  root_of none record' = absolute_root host (member record' "state_root")

  unfoldable pub resolve_at : Fields → Option String → Resolved
  unfolding resolve_codex
  resolve_at d none = refused no_root
  resolve_at d (some root) =
      resolve_codex d root (m.counterpart root (text_of (member (obj d) "thread")))

  unfoldable pub resolve_normal : Option String → Option Fields → Resolved
  unfolding resolve_at resolve_claude
  resolve_normal state_root none = refused "peer record is incomplete"
  resolve_normal state_root (some d) =
      if is_text (member (obj d) "kind") "claude"
      then resolve_claude m d
      else resolve_at d (root_of state_root (obj d))

  abbrev pub has_no_root : Option String → Value → Bool
  has_no_root state_root v =
      is_text (member v "kind") "codex"
      && (elim (root_of state_root v) [ none ↦ true | some root ↦ false ])

  -- `resolve_peer`
  unfoldable pub resolve_peer : Option String → Value → Resolved
  unfolding resolve_normal
  resolve_peer state_root v =
      if has_no_root state_root v
      then refused no_root
      else resolve_normal state_root (normalise host v)

-- An entry of the table of endpoints.
pub record Found : Type 0 where
  pub key : String
  pub peer : Value
  pub endpoint : Endpoint

-- The endpoints by process and the peers without one, or the two keys of the ValueError.
pub data Expected : Type 0 where
  clash : String → String → Expected
  expected : List Found → List (String × String) → Expected

abbrev pub same_pid : Value → Value → Bool
same_pid (int (pos a)) (int (pos b)) = nat_eq a b
same_pid (int (negsuc a)) (int (negsuc b)) = nat_eq a b
same_pid _ _ = false

abbrev pub has_pid : Value → Found → Bool
has_pid pid f = same_pid f.endpoint.pid pid

-- One peer is added, with what the rest of the loop does.
abbrev pub add_endpoint :
    String
    → Value
    → Resolved
    → List Found
    → List (String × String)
    → (List Found → List (String × String) → Expected)
    → Expected
add_endpoint key peer (refused reason) found failures next =
    next found (join_lists failures ((key, reason) ∷ []))
add_endpoint key peer (live e) found failures next = elim (find (has_pid e.pid) found) [
  | some earlier ↦ clash earlier.key key
  | none ↦ next (join_lists found (record { key = key; peer = peer; endpoint = e } ∷ [])) failures
]

module _ (host : Host) (m : Machine) (state_root : Option String) where
  -- The loop of `expected_endpoints`.
  unfoldable pub add_endpoints : Fields → List Found → List (String × String) → Expected
  unfolding resolve_peer
  add_endpoints end found failures = expected found failures
  add_endpoints (field key peer rest) found failures =
      add_endpoint key peer (resolve_peer host m state_root peer) found failures
        (add_endpoints rest)

  -- `expected_endpoints`
  unfoldable pub expected_endpoints : Value → Expected
  unfolding add_endpoints
  expected_endpoints config = add_endpoints (all_peers host config) [] []
