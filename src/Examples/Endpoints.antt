-- ===== src/Examples/Endpoints.antt =====
-- The endpoint of a Claude peer that lives.
use peer_chat.Base.{◌≡◌, refl, String, true, none, some, List, [], ◌∷◌, length, ℕ}
use peer_chat.Base.Json.{null}
use peer_chat.Peers.Resolve.{Machine, Found, clash, expected, missing, expected_endpoints}
use peer_chat.Peers.Live.{Listed, expected_endpoints-Listed}
use peer_chat.Examples.{host, config}

abbrev pub machine : Machine
machine = record {
  identity = λ pid. some "c";
  is_own_uid = λ pid. true;
  lstat = λ path. some (record { is_socket = true; is_own = true });
  counterpart = λ root thread. missing;
  registered = λ root thread. null;
  lock_owner = λ home thread. none;
}

abbrev found : List Found
found = elim (expected_endpoints host machine none config) [
  | clash a b ↦ []
  | expected fs reasons ↦ fs
]

found_one : length found ≡ 1
unfolding expected_endpoints peer_chat.Peers.all_peers peer_chat.Peers.table_of
    peer_chat.Base.Json.member peer_chat.Peers.collect peer_chat.Peers.normalise
    peer_chat.Peers.normalise_claude peer_chat.Base.Json.insert
found_one = refl

expected_endpoints-Listed_example : Listed host machine none found
unfolding expected_endpoints peer_chat.Peers.all_peers peer_chat.Peers.table_of
    peer_chat.Base.Json.member peer_chat.Peers.collect peer_chat.Peers.normalise
    peer_chat.Peers.normalise_claude peer_chat.Base.Json.insert
expected_endpoints-Listed_example = expected_endpoints-Listed host machine none config found [] refl
