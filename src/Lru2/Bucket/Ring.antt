-- ===== src/Lru2/Bucket/Ring.antt =====
-- The array of links, and `adjust` of store/lru2/bucket.go.
use my_cache_go.Common.{ℕ, List, get_or, set, if◌then◌else◌, ◌==◌}

-- `prev` (0) and `next` (1) of store/lru2/utils.go, where `head` is `next` and `tail` is `prev`.
pub data Side : Type 0 where
  prev next : Side

-- `1 - target`.
abbrev pub opposite : Side → Side
opposite prev = next
opposite next = prev

-- `[2]uint16`.
pub record Link : Type 0 where
  pub at_prev : ℕ
  pub at_next : ℕ

abbrev pub zero_link : Link
zero_link = record { at_prev = 0; at_next = 0 }

abbrev pub side : Link → Side → ℕ
side l prev = l.at_prev
side l next = l.at_next

abbrev pub with_side : Link → Side → ℕ → Link
with_side l prev n = record l { at_prev = n }
with_side l next n = record l { at_next = n }

-- `links[i][s]`.
unfoldable pub read : List Link → ℕ → Side → ℕ
read links i s = side (get_or links i zero_link) s

-- `links[i][s] = n`.
unfoldable pub write : List Link → ℕ → Side → ℕ → List Link
write links i s n = set links i (with_side (get_or links i zero_link) s n)

-- Step 1 of `adjust`: the neighbours of the node skip it.
unfoldable pub unlink : List Link → ℕ → List Link
unlink links node =
    let curr_prev = read links node prev in
    let curr_next = read links node next in
    write (write links curr_prev next curr_next) curr_next prev curr_prev

-- Step 2 of `adjust`: the node goes between the sentinel and its neighbour on the target side.
unfoldable pub link_end : List Link → ℕ → Side → List Link
link_end links node target =
    let target_head = read links 0 target in
    let l1 = write links node (opposite target) 0 in
    let l2 = write l1 node target target_head in
    let l3 = write l2 target_head (opposite target) node in write l3 0 target node

unfoldable pub adjust : List Link → ℕ → Side → List Link
adjust links node target =
    if read links node (opposite target) == 0
    then links
    else link_end (unlink links node) node target
