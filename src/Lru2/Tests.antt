-- ===== src/Lru2/Tests.antt =====
-- Runs of the store of store/lru2 on small inputs.
use my_cache_go.Common.{ℕ, ◌+◌, ◌≡◌, List, [], ◌∷◌, some, Bool, true, Key, arith}
use my_cache_go.Lru2.Bucket.{Bucket, Entry, create_cache, put, walk}
use my_cache_go.Lru2.Bucket.Inv.{Holds}
use my_cache_go.Lru2.Bucket.Spec
use my_cache_go.Lru2.Bucket.Theorems.{
  create_cache-Holds, put_refines, walk_refines, Op, do_put, do_get, do_del, run, run_spec,
  run_refines,
}

abbrev pub key_a : Key
key_a = b'a' ∷ []

abbrev pub key_b : Key
key_b = b'b' ∷ []

abbrev pub empty : Bucket ℕ
empty = create_cache 2

pub empty-Holds : Holds 2 empty []
empty-Holds = create_cache-Holds ℕ 2 (omega arith) (omega arith)

abbrev pub one : Bucket ℕ
one = (put empty key_a (some 1) 100 true).0

abbrev pub one_list : List (Entry ℕ)
one_list = record { key = key_a; value = some 1; deadline = 100 } ∷ []

pub one-Holds : Holds 2 one one_list
unfolding Spec.put Spec.find_entry
one-Holds = (put_refines empty-Holds key_a (some 1) 100 true).0

abbrev sum : ℕ → Entry ℕ → ℕ × Bool
sum n e = (n + e.deadline, true)

walk_refines_example : walk sum one 0 ≡ Spec.walk sum one_list 0
walk_refines_example = walk_refines one-Holds sum 0

abbrev calls : List (Op ℕ)
calls =
    do_put key_a (some 1) 100 true
    ∷ do_put key_b (some 2) 200 true
    ∷ do_get key_a
    ∷ do_put (b'c' ∷ []) (some 3) 300 true
    ∷ do_del key_a
    ∷ do_get key_b
    ∷ []

run_refines_example : run empty calls ≡ run_spec 2 [] calls
run_refines_example = run_refines calls empty-Holds
