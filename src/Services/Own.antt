-- ===== src/Services/Own.antt =====
-- The address that a node publishes and the address by which its picker knows it.
use my_cache_go.Common.{
  ℕ, ◌≡◌, ◌≢◌, refl, ap, ◌∙◌, [], ◌∷◌, ◌++◌, none, some, Bool, true, false, if_pos, if_neg, length,
  length-append, Key, key_dec, arith,
}
use my_cache_go.Common.Dict.{find, find-insert}
use my_cache_go.HashRing.{Config}
use my_cache_go.Peers.{ClientPicker, put, handle_event, set, client_of}
use my_cache_go.Services.{full_addr}

full_addr-ne : (h : ℕ) (host rest : Key) → full_addr (h ∷ host) b':' rest ≢ b':' ∷ rest
unfolding full_addr
full_addr-ne h host rest e =
    let n = ap length e in absurd (omega (arith, n, length-append host (b':' ∷ rest)))

client_of_self :
    (p : ClientPicker) (addr : Key) (b : ℕ) (rest : Key)
    → addr ≡ b ∷ rest
    → find key_dec addr p.clients ≡ some addr
    → addr ≢ p.self_addr
    → client_of p addr ≡ some (addr, false)
unfolding client_of
client_of_self p [] b rest e f ne = absurd (ground (arith, e))
client_of_self p (d ∷ addr) b rest e f ne =
    rw (f, client_of)
      (ap (λ s. some (d ∷ addr, s)) (if_neg (key_dec (d ∷ addr) p.self_addr) ne true false))

module _ (hash : Key → ℕ) (c : Config) (reachable : Key → Bool) where
  -- A picker whose own address starts with a colon takes the address that `Register` publishes for its
  -- own node for another node, where the local host is not empty, the address can be reached and is not
  -- known yet: for a key that the ring gives that address it returns the client, and does not say that
  -- it is the node itself.
  pub handle_event-own :
      (p : ClientPicker) (h : ℕ) (host rest : Key)
      → p.self_addr ≡ b':' ∷ rest
      → reachable (full_addr (h ∷ host) b':' rest) ≡ true
      → find key_dec (full_addr (h ∷ host) b':' rest) p.clients ≡ none
      → client_of
          (handle_event hash c reachable p (put (full_addr (h ∷ host) b':' rest)))
          (full_addr (h ∷ host) b':' rest)
        ≡ some (full_addr (h ∷ host) b':' rest, false)
  handle_event-own p h host rest own reached unknown =
      ap (λ q. client_of q addr) taken
      ∙ client_of_self (set hash c reachable p addr) addr h (host ++ b':' ∷ rest)
          (unfold full_addr in refl) known (λ e. other (e ∙ kept))
    where
      addr : Key
      addr = full_addr (h ∷ host) b':' rest

      other : addr ≢ p.self_addr
      other e = full_addr-ne h host rest (e ∙ own)

      kept : (set hash c reachable p addr).self_addr ≡ p.self_addr
      kept = unfold set in rw reached refl

      known : find key_dec addr (set hash c reachable p addr).clients ≡ some addr
      known =
          unfold set in
          rw reached
            (find-insert key_dec addr addr addr p.clients ∙ if_pos (key_dec addr addr) refl _ _)

      taken : handle_event hash c reachable p (put addr) ≡ set hash c reachable p addr
      taken = unfold handle_event in (if_neg (key_dec addr p.self_addr) other _ _ ∙ rw unknown refl)
