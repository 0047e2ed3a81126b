-- ===== src/Registry/Lookup.antt =====
-- What `GetGroup` finds.
use my_cache_go.Common.{
  ℕ, suc, ◌<◌, ◌≡◌, refl, ap, sym, subst, ◌∙◌, List, [], ◌∷◌, none, some, true, false, Bool-cases,
  inl, inr, ite, if_pos, Key, key_dec, arith,
}
use my_cache_go.Common.Int64.{Int64}
use my_cache_go.Common.Dict
use my_cache_go.Common.Dict.{find, find-delete, find-insert}
use my_cache_go.Cache.{StoreOps}
use my_cache_go.Group as Group
use my_cache_go.Group.{Group}
use my_cache_go.Registry.{
  Registry, Outcome, returned, panicked, blocked, put_at, new_value, new_group, get_group,
  close_group,
}

-- A call of `NewGroup` or of `Close`.
pub data Op : Type 0 where
  do_new : Key → Int64 → Op
  do_close : ℕ → Op

module _ {ops : StoreOps} where
  -- The mutex is free, and a name is bound to an open group of that name.
  pub record IsRegistry (r : Registry ops) : Type 0 where
    pub free : r.locked ≡ false
    pub bound :
        (name : Key) (i : ℕ)
        → find key_dec name r.groups ≡ some i
        → (i < r.next) × ((r.heap i).name ≡ name) × ((r.heap i).closed ≡ false)

  -- The registry after a call, and as it was if the call does not return.
  abbrev pub after : {A : Type 0} → Registry ops → Outcome (Registry ops) A → Registry ops
  after r (returned r' a) = r'
  after r panicked = r
  after r (blocked r') = r'

  unfoldable pub run : Registry ops → List Op → Registry ops
  run r [] = r
  run r (do_new name expiration ∷ calls) = run (after r (new_group r name false expiration)) calls
  run r (do_close i ∷ calls) = run (after r (close_group r i)) calls

  new_state : Registry ops → Key → Int64 → Registry ops
  new_state r name expiration = record r {
    groups = Dict.insert key_dec name r.next r.groups;
    heap = put_at r.heap r.next (new_value name expiration);
    next = suc r.next;
    locked = false;
  }

  new_group-eq :
      (r : Registry ops) (name : Key) (expiration : Int64)
      → r.locked ≡ false
      → new_group r name false expiration ≡ returned (new_state r name expiration) r.next
  unfolding new_group new_state
  new_group-eq r name expiration free = ground (arith, free)

  new_state-IsRegistry :
      (r : Registry ops) (name : Key) (expiration : Int64)
      → IsRegistry r
      → IsRegistry (new_state r name expiration)
  unfolding new_state
  new_state-IsRegistry r name expiration v = record {
    free = refl;
    bound = λ n i h. ground (arith, h, v.bound n i, find-insert key_dec name n r.next r.groups);
  }

  close_state : Registry ops → ℕ → Registry ops
  close_state r i = record r {
    groups = Dict.delete key_dec (r.heap i).name r.groups;
    heap = put_at r.heap i (Group.close (r.heap i));
    locked = false;
  }

  close_group-eq :
      (r : Registry ops) (i : ℕ)
      → r.locked ≡ false
      → (r.heap i).closed ≡ false
      → close_group r i ≡ returned (close_state r i) tt
  unfolding close_group close_state
  close_group-eq r i free live = ground (arith, free, live)

  close_state-IsRegistry : (r : Registry ops) (i : ℕ) → IsRegistry r → IsRegistry (close_state r i)
  unfolding close_state
  close_state-IsRegistry r i v = record {
    free = refl;
    bound = λ n j h. ground (arith, h, v.bound n j, find-delete key_dec (r.heap i).name n r.groups);
  }

  close_group-IsRegistry :
      (r : Registry ops) (i : ℕ) → IsRegistry r → IsRegistry (after r (close_group r i))
  close_group-IsRegistry r i v = elim (Bool-cases (r.heap i).closed) [
    | inl e ↦ subst (λ o. IsRegistry (after r o)) (sym (skip e)) v
    | inr e ↦
        subst (λ o. IsRegistry (after r o)) (sym (close_group-eq r i v.free e))
          (close_state-IsRegistry r i v)
  ]
    where
      skip : (r.heap i).closed ≡ true → close_group r i ≡ returned r tt
      skip e = unfold close_group in ground (arith, e)

  -- Whatever groups are made and closed, the mutex is free after each call, and a name is bound to an
  -- open group of that name alone.
  pub run-IsRegistry :
      (calls : List Op) (r : Registry ops) → IsRegistry r → IsRegistry (run r calls)
  unfolding run
  run-IsRegistry [] r v = v
  run-IsRegistry (do_new name e ∷ calls) r v = run-IsRegistry calls _ (
      subst (λ o. IsRegistry (after r o)) (sym (new_group-eq r name e v.free))
        (new_state-IsRegistry r name e v))
  run-IsRegistry (do_close i ∷ calls) r v = run-IsRegistry calls _ (close_group-IsRegistry r i v)

  free_again : (r : Registry ops) → r.locked ≡ false → record r { locked = false } ≡ r
  free_again r h = λ t. record r { locked = sym h t }

  -- `GetGroup` of a registry whose mutex is free returns what the map has.
  pub get_group-eq :
      (r : Registry ops) (name : Key)
      → r.locked ≡ false
      → get_group r name ≡ returned r (find key_dec name r.groups)
  get_group-eq r name free =
      plain ∙ ap (λ s. returned s (find key_dec name r.groups)) (free_again r free)
    where
      plain : get_group r name ≡ returned (record r { locked = false }) (find key_dec name r.groups)
      plain = unfold get_group in ground (arith, free)

  -- After `NewGroup` its name is found with the new group, and every other name as before.
  pub get_group-new_group :
      (r : Registry ops) (name other : Key) (expiration : Int64)
      → r.locked ≡ false
      → get_group (after r (new_group r name false expiration)) other
        ≡ returned
            (after r (new_group r name false expiration))
            (ite (key_dec name other) (some r.next) (find key_dec other r.groups))
  get_group-new_group r name other expiration free =
      subst
        (λ o.
          get_group (after r o) other
          ≡ returned (after r o)
              (ite (key_dec name other) (some r.next) (find key_dec other r.groups)))
        (sym (new_group-eq r name expiration free))
        (get_group-eq (new_state r name expiration) other (unfold new_state in refl)
          ∙ ap (returned (new_state r name expiration))
              (unfold new_state in find-insert key_dec name other r.next r.groups))

  -- `Close` of an open group leaves its name bound to nothing, also where `NewGroup` has bound it to
  -- another group since.
  pub get_group-close_group :
      (r : Registry ops) (i : ℕ)
      → r.locked ≡ false
      → (r.heap i).closed ≡ false
      → get_group (after r (close_group r i)) (r.heap i).name
        ≡ returned (after r (close_group r i)) none
  get_group-close_group r i free live =
      subst (λ o. get_group (after r o) (r.heap i).name ≡ returned (after r o) none)
        (sym (close_group-eq r i free live))
        (get_group-eq (close_state r i) (r.heap i).name (unfold close_state in refl)
          ∙ ap (returned (close_state r i)) (
              unfold close_state in
              (find-delete key_dec (r.heap i).name (r.heap i).name r.groups
                ∙ if_pos (key_dec (r.heap i).name (r.heap i).name) refl _ _)))
