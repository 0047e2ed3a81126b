-- ===== src/Peers/Discovery/Owned.antt =====
-- What a picker has opened and gives back: the connections of the clients in its table.
pub mod Closing
pub mod Steps
use my_cache_go.Common.{
  ℕ, suc, ◌≤◌, ◌≡◌, ◌≢◌, refl, ap, subst, sym, ◌∙◌, List, [], ◌∷◌, Option, none, some, Bool, true,
  false, not, ◌&&◌, ◌||◌, ◌==◌, Bool-cases, inl, inr, if◌then◌else◌, ite, if_pos, if_neg, Key,
  key_dec, arith, ℕ_discrete,
}
use my_cache_go.Common.Dict as Dict
use my_cache_go.Common.Dict.{find, insert, find-delete, find-insert}
use my_cache_go.Client.Dial.{Process, Client, set_conn}

-- A client of the table has this connection.
unfoldable pub held : ℕ → List (Key × Client) → Bool
held i [] = false
held i ((addr, x) ∷ m) = (x.conn == i) || held i m

-- No address stands twice in the table.
abbrev pub Keyed : List (Key × Client) → Type 0
Keyed [] = Unit
Keyed ((addr, x) ∷ m) = (find key_dec addr m ≡ none) × Keyed m

-- The connections of the clients are there, and no two clients share one.
abbrev pub Live : (ℕ → Bool) → List (Key × Client) → Type 0
Live f [] = Unit
Live f ((addr, x) ∷ m) = (f x.conn ≡ true) × (held x.conn m ≡ false) × Live f m

pub find-held :
    (k : Key) (x : Client) (m : List (Key × Client))
    → find key_dec k m ≡ some x
    → held x.conn m ≡ true
unfolding find held
find-held k x [] e = absurd (ground (arith, e))
find-held k x ((j, y) ∷ m) e = ground (arith, e, find-held k x m)

pub Live-held :
    (f : ℕ → Bool) (i : ℕ) (m : List (Key × Client)) → Live f m → held i m ≡ true → f i ≡ true
unfolding held
Live-held f i [] l h = absurd (ground (arith, h))
Live-held f i ((j, y) ∷ m) l h = ground (arith, l, h, Live-held f i m)

pub delete-none :
    (k : Key) (m : List (Key × Client)) → find key_dec k m ≡ none → Dict.delete key_dec k m ≡ m
unfolding find Dict.delete
delete-none k [] e = refl
delete-none k ((j, y) ∷ m) e = ground (arith, e, delete-none k m)

pub held-delete_absent :
    (i : ℕ) (k : Key) (m : List (Key × Client))
    → find key_dec k m ≡ none
    → held i (Dict.delete key_dec k m) ≡ held i m
held-delete_absent i k m e = ap (held i) (delete-none k m e)

pub Keyed-delete : (k : Key) (m : List (Key × Client)) → Keyed m → Keyed (Dict.delete key_dec k m)
unfolding Dict.delete
Keyed-delete k [] d = tt
Keyed-delete k ((j, y) ∷ m) d = choose (key_dec j k) (Keyed-delete k m d.1)
  where
    choose :
        (q : Dec (j ≡ k))
        → Keyed (Dict.delete key_dec k m)
        → Keyed (elim q as (λ x. List (Key × Client)) [
          | yes _ ↦ Dict.delete key_dec k m
          | no _ ↦ (j, y) ∷ Dict.delete key_dec k m
        ])
    choose (yes _) r = r
    choose (no _) r = (ground (arith, d, find-delete key_dec k j m), r)

pub held-delete :
    (f : ℕ → Bool) (i : ℕ) (k : Key) (x : Client) (m : List (Key × Client))
    → Keyed m
    → Live f m
    → find key_dec k m ≡ some x
    → held i (Dict.delete key_dec k m) ≡ (held i m && not (x.conn == i))
unfolding held find Dict.delete
held-delete f i k x [] d l e = absurd (ground (arith, e))
held-delete f i k x ((j, y) ∷ m) d l e = elim (key_dec j k) [
  | yes q ↦
      ground
        (arith, q, e, d, l, held-delete_absent i k m (ap (λ a. find key_dec a m) (sym q) ∙ d.0))
  | no q ↦ ground (arith, q, e, l, held-delete f i k x m d.1 (l.2), find-held k x m)
]

pub Live-off :
    (f : ℕ → Bool) (i : ℕ) (m : List (Key × Client))
    → Live f m
    → held i m ≡ false
    → Live (λ j. ite (ℕ_discrete i j) false (f j)) m
unfolding held
Live-off f i [] l h = tt
Live-off f i ((j, y) ∷ m) l h = (ground (arith, l, h), l.1, Live-off f i m l.2 (ground (arith, h)))

pub Live-on :
    (f : ℕ → Bool) (i : ℕ) (m : List (Key × Client))
    → Live f m
    → Live (λ j. ite (ℕ_discrete i j) true (f j)) m
Live-on f i [] l = tt
Live-on f i ((j, y) ∷ m) l = (ground (arith, l), l.1, Live-on f i m l.2)

-- The connection of a client that a lookup found.
abbrev or_conn : Option Client → ℕ
or_conn none = 0
or_conn (some x) = x.conn

pub Live-delete :
    (f : ℕ → Bool) (k : Key) (x : Client) (m : List (Key × Client))
    → Keyed m
    → Live f m
    → find key_dec k m ≡ some x
    → Live (λ j. ite (ℕ_discrete x.conn j) false (f j)) (Dict.delete key_dec k m)
unfolding held find Dict.delete
Live-delete f k x [] d l e = tt
Live-delete f k x ((j, y) ∷ m) d l e = choose (key_dec j k) e (Live-delete f k x m d.1 l.2)
  where
    choose :
        (q : Dec (j ≡ k))
        → ite q (some y) (find key_dec k m) ≡ some x
        → (find key_dec k m ≡ some x
            → Live (λ j. ite (ℕ_discrete x.conn j) false (f j)) (Dict.delete key_dec k m))
        → Live
            (λ j. ite (ℕ_discrete x.conn j) false (f j))
            (elim q as (λ x. List (Key × Client)) [
              | yes _ ↦ Dict.delete key_dec k m
              | no _ ↦ (j, y) ∷ Dict.delete key_dec k m
            ])
    choose (yes q) h r =
        subst (Live (λ j. ite (ℕ_discrete x.conn j) false (f j)))
          (sym (delete-none k m (ap (λ a. find key_dec a m) (sym q) ∙ d.0)))
          (Live-off f x.conn m l.2 (subst (λ o. held (or_conn o) m ≡ false) h l.1))
    choose (no q) h r = (
      ground (arith, l, find-held k x m h),
      held-delete f y.conn k x m d.1 l.2 h ∙ ground (arith, l),
      r h,
    )

-- The process still has what it had, `base`, and beyond that the connections of this table and one
-- client of etcd.
pub record Owns (base w : Process) (m : List (Key × Client)) : Type 0 where
  pub fresh : (i : ℕ) → w.next_conn ≤ i → w.connected i ≡ false
  pub rest : (i : ℕ) → base.connected i ≡ (not (held i m) && w.connected i)
  pub keyed : Keyed m
  pub live : Live w.connected m
  pub etcd : w.etcd_clients ≡ suc base.etcd_clients
  pub balancing : w.balancers ≡ base.balancers
