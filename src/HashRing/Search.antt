-- ===== src/HashRing/Search.antt =====
-- `sort.Search` of the standard library, as `HashRing.Get` of consistenthash/ring.go calls it.
use my_cache_go.Common.{ℕ, zero, suc, ◌+◌, ◌/◌, List, if◌then◌else◌, ltb, leb, length, get_or}

-- `for i < j { h := (i+j) >> 1; if keys[h] < hash { i = h+1 } else { j = h } }`. The distance of
-- the bounds is fuel enough.
unfoldable pub search_between : ℕ → List ℕ → ℕ → ℕ → ℕ → ℕ
search_between zero keys hash i j = i
search_between (suc fuel) keys hash i j =
    let h = (i + j) / 2 in
    let right = search_between fuel keys hash (h + 1) j in
    let left = search_between fuel keys hash i h in
    if ltb i j then (if leb hash (get_or keys h 0) then left else right) else i

unfoldable pub search : List ℕ → ℕ → ℕ
unfolding search_between
search keys hash = search_between (length keys) keys hash 0 (length keys)
