-- ===== src/Registry/Tests.antt =====
-- Runs of a registry over a small store of store/lru2.
use my_cache_go.Common.{
  ◌≡◌, refl, [], ◌∷◌, none, some, true, false, Key, key_dec, ℕ_discrete, arith,
}
use my_cache_go.Common.Dict.{find, insert, delete}
use my_cache_go.Cache.{StoreOps}
use my_cache_go.Cache.Backed.{lru2_ops}
use my_cache_go.Group as Group
use my_cache_go.Registry.{
  Registry, returned, panicked, blocked, put_at, new_value, new_group, get_group, close_group,
  destroy_group, list_groups, destroy_all_groups, destroy_each,
}
use my_cache_go.Registry.Deadlock.{Stuck, waiting_state, destroy_group-Stuck}
use my_cache_go.Registry.Lookup.{
  IsRegistry, after, do_new, do_close, run, run-IsRegistry, get_group-close_group,
}

abbrev ops : StoreOps
ops = lru2_ops 4 2 2

abbrev empty : Registry ops
empty = record { groups = []; heap = λ i. new_value [] 0; next = 0; locked = false }

empty-IsRegistry : IsRegistry empty
unfolding find
empty-IsRegistry = record { free = refl; bound = λ name i h. absurd (ground (arith, h)) }

abbrev name : Key
name = b'g' ∷ []

abbrev one : Registry ops
one = record {
  groups = (name, 0) ∷ [];
  heap = put_at (λ i. new_value [] 0) 0 (new_value name 100);
  next = 1;
  locked = false;
}

made : new_group empty name false 100 ≡ returned one 0
unfolding new_group insert delete
made = refl

panics : new_group empty name true 100 ≡ panicked
unfolding new_group
panics = refl

-- Twice the same name, then `Close` of the first group.
run-IsRegistry_example : IsRegistry (run empty (do_new name 100 ∷ do_new name 0 ∷ do_close 0 ∷ []))
run-IsRegistry_example =
    run-IsRegistry (do_new name 100 ∷ do_new name 0 ∷ do_close 0 ∷ []) empty empty-IsRegistry

replaced_then_closed :
    get_group (run empty (do_new name 100 ∷ do_new name 0 ∷ do_close 0 ∷ [])) name
    ≡ returned (run empty (do_new name 100 ∷ do_new name 0 ∷ do_close 0 ∷ [])) none
unfolding run new_group close_group get_group insert delete find key_dec ℕ_discrete Group.close
replaced_then_closed = refl

get_group-close_group_example :
    get_group (after one (close_group one 0)) name ≡ returned (after one (close_group one 0)) none
unfolding ℕ_discrete
get_group-close_group_example = get_group-close_group one 0 refl refl

found : find key_dec name one.groups ≡ some 0
unfolding find key_dec ℕ_discrete
found = refl

destroy_group-Stuck_example :
    (destroy_group one name ≡ blocked (waiting_state one 0)) × Stuck (waiting_state one 0)
unfolding ℕ_discrete
destroy_group-Stuck_example = destroy_group-Stuck one name 0 refl found refl

-- `DestroyAllGroups` waits for itself at the first group.
all_waits : destroy_all_groups one (λ gs. gs) ≡ blocked (waiting_state one 0)
unfolding destroy_all_groups destroy_each close_group Group.close ℕ_discrete
all_waits = refl

listed : list_groups one ≡ returned one (name ∷ [])
unfolding list_groups
listed = refl
