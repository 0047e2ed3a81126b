-- ===== src/PeerAddr/Tests.antt =====
-- Some addresses.
use my_cache_go.Common.{◌≡◌, ◌↔◌, refl, [], ◌∷◌, ◌++◌, true, false, Key, key_dec, ℕ_discrete}
use my_cache_go.PeerAddr.{split, localhost, valid_peer_addr}
use my_cache_go.PeerAddr.Theorems.{IsPeerAddr, valid_peer_addr_lem}

abbrev local_port : Key
local_port = localhost ++ b':' ∷ b'8' ∷ []

accepts_local : valid_peer_addr local_port ≡ true
unfolding valid_peer_addr split key_dec ℕ_discrete
accepts_local = refl

-- `a:8` has a host that is not `localhost` and has no dots.
rejects_name : valid_peer_addr (b'a' ∷ b':' ∷ b'8' ∷ []) ≡ false
unfolding valid_peer_addr split key_dec ℕ_discrete
rejects_name = refl

valid_peer_addr_lem_example : (valid_peer_addr local_port ≡ true) ↔ IsPeerAddr local_port
valid_peer_addr_lem_example = valid_peer_addr_lem local_port
