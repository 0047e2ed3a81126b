-- ===== src/Lru/Fits.antt =====
-- `Get` of store/lru after `SetWithExpiration` and the evictions that it brings about.
use my_cache_go.Common.{
  ℕ, ◌+◌, ◌^◌, ◌<◌, ◌≤◌, ◌≡◌, refl, ◌∙◌, ap, List, Option, none, some, true, false, Option-cases,
  inl, inr, if◌then◌else◌, length, Key, key_dec, arith,
}
use my_cache_go.Common.Int64.{Int64, lt64}
use my_cache_go.Common.Dict.{find, find-delete, find-insert}
use my_cache_go.Lru.{
  Lru, get, has_expired, evict, store, push, with_expiration, set_with_expiration,
}
use my_cache_go.Lru.Inv.{IsLru}
use my_cache_go.Lru.Keeps.{push-IsLru}
use my_cache_go.Lru.Reads.{get-store}
use my_cache_go.Lru.Leads.{Lists, Leads, evict-Leads, get-Leads}

module _ {ℓ} {V : Type ℓ} (len : V → ℕ) (l : Lru V) (v : IsLru len l) (k : Key) (x : V)
    (exp : Int64) (now later t : ℕ) (order : List (Key × ℕ) → List (Key × ℕ)) where
  abbrev deadline_of : Option ℕ
  deadline_of = if lt64 0 exp then some (now + exp) else none

  abbrev pushed : Lru V
  pushed = push len (with_expiration len l k exp now) k x

  pushed-Leads :
      find key_dec k l.element_map ≡ none
      → Leads len (record { id = l.next_id; key = k; value = x }) deadline_of pushed
  unfolding push
  pushed-Leads h = record {
    valid = push-IsLru len l v k exp now x h;
    rest = l.lru_list;
    starts = refl;
    expires = ground (
      arith,
      find-insert key_dec k k (now + exp) l.expiration_map,
      find-delete key_dec k k l.expiration_map,
    );
  }

  unexpired : (s : ℕ) → (lt64 0 exp ≡ true → s ≤ now + exp) → has_expired deadline_of s ≡ false
  unexpired s h = ground (arith, h)

  added :
      find key_dec k l.element_map ≡ none
      → (store len l k x exp now later order).0
        ≡ (evict len pushed later (order pushed.expiration_map)).0
  added h = unfold store in rw (h, store)

  -- The expiration map that `evict` meets.
  abbrev pub written : List (Key × ℕ)
  written = (with_expiration len l k exp now).expiration_map

  -- In a valid cache with a limit below 2 ^ 63, a value that is not nil and fits the limit with its key is
  -- read back after `SetWithExpiration` until its time has passed, whatever was in the cache and
  -- however it iterates over the pairs of the expiration map, if the time had not passed when it
  -- evicted.
  pub get-set_fit :
      l.max_bytes < 2 ^ 63
      → length k + len x ≤ l.max_bytes
      → Lists written (order written)
      → (lt64 0 exp ≡ true → later ≤ now + exp)
      → (lt64 0 exp ≡ true → t < now + exp)
      → (get (set_with_expiration len l k (some x) exp now later order).0 k t).1 ≡ some x
  unfolding set_with_expiration
  get-set_fit bound fits listed early live = elim (Option-cases (find key_dec k l.element_map)) [
    | inr (i, h) ↦ get-store len l v k x exp now later t order i h live
    | inl h ↦
        ap (λ r. (get r k t).1) (added h)
        ∙ get-Leads len (record { id = l.next_id; key = k; value = x }) deadline_of
            (evict len pushed later (order pushed.expiration_map)).0 t
            (evict-Leads len (record { id = l.next_id; key = k; value = x }) deadline_of pushed
              later (order pushed.expiration_map) (unfold push in listed) (unexpired later early)
              (unfold push in fits) (unfold push in bound) (pushed-Leads h))
            (unexpired t (λ e. omega (arith, live e)))
  ]
