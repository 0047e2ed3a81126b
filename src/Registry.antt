-- ===== src/Registry.antt =====
-- The map of groups of group.go with its mutex: `NewGroup`, `GetGroup`, `ListGroups`, `Close`,
-- `DestroyGroup` and `DestroyAllGroups`. A `*Group` is a number, and `heap` is what it points to.
pub mod Deadlock
pub mod Lookup
mod Tests
use my_cache_go.Common.{
  ℕ, suc, List, [], ◌∷◌, Option, none, some, Bool, true, false, if◌then◌else◌, ite, ℕ_discrete, map,
  Key, key_dec,
}
use my_cache_go.Common.Int64.{Int64}
use my_cache_go.Common.Dict
use my_cache_go.Cache.{StoreOps, new_cache}
use my_cache_go.Group as Group
use my_cache_go.Group.{Group, no_stats}

pub record Registry (ops : StoreOps) : Type 0 where
  pub groups : List (Key × ℕ)
  pub heap : ℕ → Group ops
  pub next : ℕ
  pub locked : Bool  -- `groupsMu` is held

-- What becomes of a call: it returns, it panics, or it waits for the mutex that it holds itself, or
-- that a call holds that waits so.
pub data Outcome (S : Type 0) (A : Type 0) : Type 0 where
  returned : S → A → Outcome S A
  panicked : Outcome S A
  blocked : S → Outcome S A

abbrev pub put_at : {A : Type 0} → (ℕ → A) → ℕ → A → ℕ → A
put_at f i a j = ite (ℕ_discrete i j) a (f j)

module _ {ops : StoreOps} where
  -- `groupsMu.Lock()`, or `RLock()`, before the rest of a call.
  abbrev pub lock :
      {A : Type 0}
      → Registry ops
      → (Registry ops → Outcome (Registry ops) A)
      → Outcome (Registry ops) A
  lock r rest = if r.locked then blocked r else rest (record r { locked = true })

  abbrev pub unlock : Registry ops → Registry ops
  unlock r = record r { locked = false }

  abbrev pub then_do :
      {A B : Type 0}
      → Outcome (Registry ops) A
      → (Registry ops → Outcome (Registry ops) B)
      → Outcome (Registry ops) B
  then_do (returned r a) rest = rest r
  then_do panicked rest = panicked
  then_do (blocked r) rest = blocked r

  abbrev pub new_value : Key → Int64 → Group ops
  new_value name expiration = record {
    name = name;
    local_cache = new_cache;
    expiration = expiration;
    closed = false;
    stats = no_stats;
  }

  -- `NewGroup`, with the expiration that its options set. Another group of the name is replaced.
  unfoldable pub new_group : Registry ops → Key → Bool → Int64 → Outcome (Registry ops) ℕ
  new_group r name nil_source expiration =
      if nil_source
      then panicked
      else lock r (λ l.
        returned
          (unlock (record l {
            groups = Dict.insert key_dec name l.next l.groups;
            heap = put_at l.heap l.next (new_value name expiration);
            next = suc l.next;
          }))
          l.next)

  unfoldable pub get_group : Registry ops → Key → Outcome (Registry ops) (Option ℕ)
  get_group r name = lock r (λ l. returned (unlock l) (Dict.find key_dec name l.groups))

  -- The names, in the order of the iteration.
  unfoldable pub list_groups : Registry ops → Outcome (Registry ops) (List Key)
  list_groups r = lock r (λ l. returned (unlock l) (map (λ p. p.0) l.groups))

  -- `Close` of a group: its own part, then the mutex.
  unfoldable pub close_group : Registry ops → ℕ → Outcome (Registry ops) Unit
  close_group r i =
      let r' =
        let t : Registry ops = record r { heap = put_at r.heap i (Group.close (r.heap i)) } in t in
      if (r.heap i).closed
      then returned r tt
      else lock r' (λ l.
        returned (unlock (record l { groups = Dict.delete key_dec (r.heap i).name l.groups })) tt)

  unfoldable pub destroy_group : Registry ops → Key → Outcome (Registry ops) Bool
  destroy_group r name = lock r (λ l. elim (Dict.find key_dec name l.groups) [
    | none ↦ returned (unlock l) false
    | some i ↦
        then_do (close_group l i)
          (λ l'. returned (unlock (record l' { groups = Dict.delete key_dec name l'.groups })) true)
  ])

  -- The loop of `DestroyAllGroups` over the map in the order of the iteration.
  unfoldable pub destroy_each : Registry ops → List (Key × ℕ) → Outcome (Registry ops) Unit
  destroy_each l [] = returned (unlock l) tt
  destroy_each l ((name, i) ∷ rest) =
      then_do (close_group l i)
        (λ l'. destroy_each (record l' { groups = Dict.delete key_dec name l'.groups }) rest)

  unfoldable pub destroy_all_groups :
      Registry ops → (List (Key × ℕ) → List (Key × ℕ)) → Outcome (Registry ops) Unit
  unfolding destroy_each
  destroy_all_groups r order = lock r (λ l. destroy_each l (order l.groups))
