-- ===== src/BTree.antt =====
-- The keys of a node of a B-tree: HW2/code/bTree.c.  An int is the number 2 ^ 31 above it.
pub mod Keys
pub mod Search
use os_labratory_spring.Prelude.{
  ℕ, zero, suc, ◌+◌, ◌-◌, ◌/◌, Bool, true, false, none, some, List, [], ◌∷◌, length, ltb, ◌==◌,
  if◌then◌else◌, get_elem?, Result, ok, panic, hang, ◌>>=◌,
}

-- The loop of `searchKey`; `low` is `lo + 1`.  A read behind the keys is a fault.
unfoldable pub search_loop : ℕ → List ℕ → ℕ → ℕ → ℕ → Result ℕ
search_loop zero a key low hi = hang
search_loop (suc rounds) a key low hi =
    let mid = (low + hi - 1) / 2 in
    let go : ℕ → Result ℕ = λ x.
      let right = ltb x key in
      let rest =
        search_loop rounds a key (if right then mid + 1 else low) (if right then hi else mid) in
      if x == key then ok mid else rest in
    let read : Result ℕ = elim (get_elem? a mid) [ none ↦ panic | some x ↦ go x ] in
    if ltb low hi then read else ok hi

-- `searchKey`
unfoldable pub search_key : ℕ → List ℕ → ℕ → Result ℕ
unfolding search_loop
search_key n a key = search_loop (n + 1) a key 0 n

-- `struct btNode`, with as many keys as `numKeys` tells; a leaf has no kids.
mutual
  pub data Tree : Type 0 where
    leaf : List ℕ → Tree
    node : List ℕ → Kids → Tree

  pub data Kids : Type 0 where
    no_kids : Kids
    kid : Tree → Kids → Kids

-- `pos < b->numKeys && b->keys[pos] == key`
abbrev pub is_at : List ℕ → ℕ → ℕ → Bool
is_at [] key pos = false
is_at (k ∷ ks) key zero = k == key
is_at (k ∷ ks) key (suc pos) = is_at ks key pos

-- The search among the keys of a node, and whether the key is there.
unfoldable pub find_key : List ℕ → ℕ → Result (Bool × ℕ)
unfolding search_key
find_key keys key = search_key (length keys) keys key >>= λ pos. ok (is_at keys key pos, pos)

-- `btSearch`, but for what it writes to its own parameters `ep` and `ofsp`.  A pointer behind the
-- kids is a fault.
unfoldable mutual
  unfolding find_key

  pub bt_search : Tree → ℕ → Result Bool
  bt_search (leaf keys) key =
      if length keys == 0 then ok false else (find_key keys key >>= λ x. ok x.0)
  bt_search (node keys kids) key =
      let below : ℕ → Result Bool = λ pos. search_kid kids pos key in
      if length keys == 0
      then ok false
      else (find_key keys key >>= λ x. if x.0 then ok true else below x.1)

  pub search_kid : Kids → ℕ → ℕ → Result Bool
  search_kid no_kids pos key = panic
  search_kid (kid t ts) zero key = bt_search t key
  search_kid (kid t ts) (suc pos) key = search_kid ts pos key
