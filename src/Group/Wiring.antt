-- ===== src/Group/Wiring.antt =====
-- The options of `NewGroup` and `RegisterPeers` of group.go; a picker is a value of the type `P`, and
-- `none` is nil.
use my_cache_go.Common.{
  ℕ, ◌≡◌, refl, ap, sym, ◌∙◌, List, [], ◌∷◌, Option, none, some, All, Key, arith,
}
use my_cache_go.Common.Int64.{Int64}
use my_cache_go.Cache.Options.{CacheOptions, default_cache_options, new_store}

pub data GroupOption (P : Type 0) : Type 0 where
  with_expiration : Int64 → GroupOption P
  with_peers : Option P → GroupOption P
  with_cache_options : CacheOptions → GroupOption P

-- What the options of a group set: the expiration, the picker, and the options of its cache.
pub record Wiring (P : Type 0) : Type 0 where
  pub expiration : Int64
  pub peers : Option P
  pub cache_options : CacheOptions

module _ {P : Type 0} where
  unfoldable pub apply : Wiring P → GroupOption P → Wiring P
  apply w (with_expiration d) = record w { expiration = d }
  apply w (with_peers peers) = record w { peers = peers }
  apply w (with_cache_options opts) = record w { cache_options = opts }

  unfoldable pub apply_all : Wiring P → List (GroupOption P) → Wiring P
  apply_all w [] = w
  apply_all w (opt ∷ opts) = apply_all (apply w opt) opts

  -- What `NewGroup` makes of its arguments before it takes the mutex.
  unfoldable pub wire : Int64 → List (GroupOption P) → Wiring P
  wire cache_bytes opts =
      apply_all
        (record {
          expiration = 0;
          peers = none;
          cache_options = record default_cache_options { max_bytes = cache_bytes };
        })
        opts

  -- `RegisterPeers`; `none` is the panic.
  unfoldable pub register_peers : Wiring P → Option P → Option (Wiring P)
  register_peers w peers = elim w.peers [ none ↦ some (record w { peers = peers }) | some _ ↦ none ]

  -- An option that leaves the cache alone.
  abbrev pub KeepsCache : GroupOption P → Type 0
  KeepsCache (with_expiration d) = Unit
  KeepsCache (with_peers peers) = Unit
  KeepsCache (with_cache_options opts) = ⊥

  -- Such options leave the options of the cache as they are.
  apply_all-cache_options :
      (opts : List (GroupOption P)) (w : Wiring P)
      → All KeepsCache opts
      → (apply_all w opts).cache_options ≡ w.cache_options
  unfolding apply_all apply
  apply_all-cache_options [] w h = refl
  apply_all-cache_options (with_expiration d ∷ opts) w h =
      apply_all-cache_options opts (record w { expiration = d }) h.1
  apply_all-cache_options (with_peers peers ∷ opts) w h =
      apply_all-cache_options opts (record w { peers = peers }) h.1
  apply_all-cache_options (with_cache_options o ∷ opts) w h = absurd h.0

  -- Without options for the cache, the store of a group does not depend on the number of bytes that
  -- `NewGroup` gets: it is the one that the default options make for any other number.
  pub new_store-wire :
      (order : List (Key × ℕ) → List (Key × ℕ)) (cache_bytes other : Int64)
      (opts : List (GroupOption P))
      → All KeepsCache opts
      → new_store order (wire cache_bytes opts).cache_options
        ≡ new_store order (wire other opts).cache_options
  unfolding wire
  new_store-wire order cache_bytes other opts h =
      ap (new_store order) (apply_all-cache_options opts _ h)
      ∙ ap (new_store order) (sym (apply_all-cache_options opts _ h))

  -- Once a picker was registered, another `RegisterPeers` panics.
  pub register_peers_twice :
      (w w' : Wiring P) (p : P) (q : Option P)
      → register_peers w (some p) ≡ some w'
      → register_peers w' q ≡ none
  unfolding register_peers
  register_peers_twice w w' p q e = ground (arith, e)
