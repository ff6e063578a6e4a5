-- ===== src/Tests/BTreeRuns.antt =====
-- A B-tree of two leaves.
use os_labratory_spring.Prelude.{◌≡◌, refl, true, false, [], ◌∷◌, ok, arith}
use os_labratory_spring.BTree.{Tree, leaf, node, no_kids, kid, bt_search}
use os_labratory_spring.BTree.Search.{contains, Within, bt_search-contains}

abbrev two_leaves : Tree
two_leaves = node (5 ∷ []) (kid (leaf (2 ∷ 3 ∷ [])) (kid (leaf (7 ∷ 9 ∷ [])) no_kids))

two_leaves-Within : Within 0 10 two_leaves
unfolding Within
two_leaves-Within = (
  omega arith,
  (omega arith, omega arith, omega arith),
  (
    (omega arith, omega arith, (omega arith, omega arith, omega arith)),
    (omega arith, omega arith, (omega arith, omega arith, omega arith)),
  ),
)

bt_search-contains_example : bt_search two_leaves 7 ≡ ok (contains 7 two_leaves)
bt_search-contains_example = bt_search-contains 0 10 7 two_leaves two_leaves-Within

found : bt_search two_leaves 7 ≡ ok true
unfolding bt_search
found = refl

missed : bt_search two_leaves 8 ≡ ok false
unfolding bt_search
missed = refl
