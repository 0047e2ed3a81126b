-- ===== src/PeerAddr.antt =====
-- `ValidPeerAddr` of utils.go.
pub mod Theorems
mod Tests
use my_cache_go.Common.{
  ℕ, List, [], ◌∷◌, Bool, true, false, not, ◌&&◌, if◌then◌else◌, ◌==◌, length, Key, key_dec, ite,
}

-- A byte before the first of the parts.
abbrev pub grow : ℕ → List Key → List Key
grow c [] = (c ∷ []) ∷ []
grow c (part ∷ parts) = (c ∷ part) ∷ parts

-- `strings.Split` at a separator of one byte.
unfoldable pub split : ℕ → Key → List Key
split sep [] = [] ∷ []
split sep (c ∷ s) = let rest = split sep s in if c == sep then [] ∷ rest else grow c rest

abbrev pub localhost : Key
localhost = b'l' ∷ b'o' ∷ b'c' ∷ b'a' ∷ b'l' ∷ b'h' ∷ b'o' ∷ b's' ∷ b't' ∷ []

-- `t[0]`, of parts that are not empty.
abbrev pub first : List Key → Key
first [] = []
first (part ∷ parts) = part

unfoldable pub valid_peer_addr : Key → Bool
unfolding split
valid_peer_addr addr =
    let t1 = split b':' addr in
    let t2 = split b'.' (first t1) in
    if not (length t1 == 2)
    then false
    else if not (ite (key_dec (first t1) localhost) true false) && not (length t2 == 4)
    then false
    else true
