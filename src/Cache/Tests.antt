-- ===== src/Cache/Tests.antt =====
-- A run of a cache over store/lru.
use my_cache_go.Common.{key_dec, ℕ_discrete, ◌≡◌, refl, [], ◌∷◌, true, Key}
use my_cache_go.Common.Dict as Dict
use my_cache_go.ByteView as ByteView
use my_cache_go.ByteView.{ByteView, no_view}
use my_cache_go.Lru as Lru
use my_cache_go.Cache.Options.{CacheOptions, default_cache_options, lru, new_store}
use my_cache_go.Cache.{Cache, new_cache, add, get, ensure_initialized, count_read}

abbrev key_a : Key
key_a = b'a' ∷ []

abbrev view : ByteView
view = record { b = b'x' ∷ [] }

-- A cache over store/lru, by its options.
abbrev lru_options : CacheOptions
lru_options = record default_cache_options { cache_type = lru; max_bytes = 100 }

abbrev lru_cache : Cache (new_store (λ m. m) lru_options)
lru_cache = add new_cache key_a view 5

lru_read : (get lru_cache key_a 6 7).1 ≡ (view, true)
unfolding get add ensure_initialized count_read Lru.new Lru.set_with_expiration Lru.store Lru.push
    Lru.evict Lru.evict_expired Lru.evict_oldest Lru.get Lru.get_read Lru.get_touch ByteView.len
    Dict.find Dict.insert Dict.delete Lru.Elements.elem_of Lru.Elements.to_front Lru.Elements.remove
    key_dec ℕ_discrete
lru_read = refl
