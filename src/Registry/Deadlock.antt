-- ===== src/Registry/Deadlock.antt =====
-- `DestroyGroup` of group.go and the mutex that it holds while it calls `Close`.
use my_cache_go.Common.{ℕ, ◌≡◌, List, refl, some, true, false, Key, key_dec, arith}
use my_cache_go.Common.Int64.{Int64}
use my_cache_go.Common.Dict.{find}
use my_cache_go.Cache.{StoreOps}
use my_cache_go.Group as Group
use my_cache_go.Group.{Group}
use my_cache_go.Registry.{
  Registry, blocked, put_at, new_group, get_group, list_groups, close_group, destroy_group,
  destroy_all_groups,
}

module _ {ops : StoreOps} where
  -- Every call that takes the mutex waits: `GetGroup`, `ListGroups`, `NewGroup`, `DestroyGroup`,
  -- `DestroyAllGroups`, and `Close` of a group that is open, once it has closed its cache.
  pub record Stuck (r : Registry ops) : Type 0 where
    pub get_waits : (name : Key) → get_group r name ≡ blocked r
    pub list_waits : list_groups r ≡ blocked r
    pub new_waits :
        (name : Key) (expiration : Int64) → new_group r name false expiration ≡ blocked r
    pub destroy_waits : (name : Key) → destroy_group r name ≡ blocked r
    pub destroy_all_waits :
        (order : List (Key × ℕ) → List (Key × ℕ)) → destroy_all_groups r order ≡ blocked r
    pub close_waits :
        (i : ℕ)
        → (r.heap i).closed ≡ false
        → close_group r i ≡ blocked (record r { heap = put_at r.heap i (Group.close (r.heap i)) })

  held-Stuck : (r : Registry ops) → r.locked ≡ true → Stuck r
  held-Stuck r h = record {
    get_waits = λ name. unfold get_group in ground (arith, h);
    list_waits = unfold list_groups in ground (arith, h);
    new_waits = λ name e. unfold new_group in ground (arith, h);
    destroy_waits = λ name. unfold destroy_group in ground (arith, h);
    destroy_all_waits = λ order. unfold destroy_all_groups in ground (arith, h);
    close_waits = λ i live. unfold close_group in ground (arith, h, live);
  }

  -- The state in which `DestroyGroup` waits for itself.
  abbrev pub waiting_state : Registry ops → ℕ → Registry ops
  waiting_state r i = record r { locked = true; heap = put_at r.heap i (Group.close (r.heap i)) }

  -- `DestroyGroup` of a group that is not closed never returns, and leaves the mutex held, so that
  -- every later call of `GetGroup`, `ListGroups`, `NewGroup`, `DestroyGroup` or `DestroyAllGroups`, and
  -- of `Close` on any other open group, waits too.
  pub destroy_group-Stuck :
      (r : Registry ops) (name : Key) (i : ℕ)
      → r.locked ≡ false
      → find key_dec name r.groups ≡ some i
      → (r.heap i).closed ≡ false
      → (destroy_group r name ≡ blocked (waiting_state r i)) × Stuck (waiting_state r i)
  destroy_group-Stuck r name i free bound live = (waits, held-Stuck (waiting_state r i) refl)
    where
      waits : destroy_group r name ≡ blocked (waiting_state r i)
      waits = unfold destroy_group close_group in ground (arith, free, bound, live)
