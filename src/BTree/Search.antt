-- ===== src/BTree/Search.antt =====
-- What `btSearch` finds in a B-tree.
use os_labratory_spring.Prelude.{
  ℕ, zero, suc, ◌+◌, ◌≤◌, ◌<◌, ◌≡◌, refl, sym, ap, ◌∙◌, ◌⊎◌, inl, inr, Bool, true, false, List, [],
  ◌∷◌, ◌==◌, if◌then◌else◌, get_or, length, Result, ok, ◌>>=◌, arith, Bool-cases, ne→false,
}
use os_labratory_spring.BTree.{
  Tree, leaf, node, Kids, no_kids, kid, is_at, find_key, bt_search, search_kid,
}
use os_labratory_spring.BTree.Keys.{IsSorted, IsPlace, search_key-IsPlace}

-- Whether a key is in a list or anywhere in a tree.
abbrev pub mem : ℕ → List ℕ → Bool
mem key [] = false
mem key (k ∷ ks) = if k == key then true else mem key ks

unfoldable mutual
  pub contains : ℕ → Tree → Bool
  contains key (leaf keys) = mem key keys
  contains key (node keys kids) = if mem key keys then true else contains_kid key kids

  pub contains_kid : ℕ → Kids → Bool
  contains_kid key no_kids = false
  contains_kid key (kid t ts) = if contains key t then true else contains_kid key ts

-- Keys from `low` on and before `high`, in order, with no two the same.
abbrev pub KeysWithin : ℕ → ℕ → List ℕ → Type 0
KeysWithin low high [] = low ≤ high
KeysWithin low high (k ∷ ks) = (low ≤ k) × (k < high) × KeysWithin (k + 1) high ks

-- A search tree: each kid has the keys between two keys of its node, and a node has a key.
unfoldable mutual
  pub Within : ℕ → ℕ → Tree → Type 0
  Within low high (leaf keys) = KeysWithin low high keys
  Within low high (node keys kids) =
      (0 < length keys) × KeysWithin low high keys × KidsWithin low high keys kids

  pub KidsWithin : ℕ → ℕ → List ℕ → Kids → Type 0
  KidsWithin low high [] no_kids = ⊥
  KidsWithin low high [] (kid t no_kids) = Within low high t
  KidsWithin low high [] (kid t (kid u ts)) = ⊥
  KidsWithin low high (k ∷ ks) no_kids = ⊥
  KidsWithin low high (k ∷ ks) (kid t ts) = Within low k t × KidsWithin (k + 1) high ks ts

get_or-KeysWithin :
    (low high : ℕ) (keys : List ℕ) (j : ℕ)
    → KeysWithin low high keys
    → j < length keys
    → low ≤ get_or keys j 0
get_or-KeysWithin low high [] j w h = absurd (omega arith)
get_or-KeysWithin low high (k ∷ ks) zero w h = w.0
get_or-KeysWithin low high (k ∷ ks) (suc j) w h =
    let x = get_or-KeysWithin (k + 1) high ks j w.2 (omega arith) in let y = w.0 in omega arith

KeysWithin-order :
    (low high : ℕ) (keys : List ℕ) (i j : ℕ)
    → KeysWithin low high keys
    → i < j
    → j < length keys
    → get_or keys i 0 < get_or keys j 0
KeysWithin-order low high [] i j w h b = absurd (omega arith)
KeysWithin-order low high (k ∷ ks) i zero w h b = absurd (omega arith)
KeysWithin-order low high (k ∷ ks) zero (suc j) w h b =
    let x = get_or-KeysWithin (k + 1) high ks j w.2 (omega arith) in omega arith
KeysWithin-order low high (k ∷ ks) (suc i) (suc j) w h b =
    KeysWithin-order (k + 1) high ks i j w.2 (omega arith) (omega arith)

KeysWithin-IsSorted :
    (low high : ℕ) (keys : List ℕ) → KeysWithin low high keys → IsSorted (length keys) keys
KeysWithin-IsSorted low high keys w = record {
  fits = omega arith;
  order = λ i j h b. KeysWithin-order low high keys i j w h b;
}

-- Where a key could stand: behind the less ones, in front of the others.
abbrev PlaceIn : ℕ → List ℕ → ℕ → Type 0
PlaceIn key [] zero = Unit
PlaceIn key [] (suc pos) = ⊥
PlaceIn key (k ∷ ks) zero = key ≤ k
PlaceIn key (k ∷ ks) (suc pos) = (k < key) × PlaceIn key ks pos

IsPlace-PlaceIn :
    (keys : List ℕ) (key pos : ℕ) → IsPlace (length keys) keys key pos → PlaceIn key keys pos
IsPlace-PlaceIn [] key zero h = tt
IsPlace-PlaceIn [] key (suc pos) h = absurd (let b = h.bound in omega arith)
IsPlace-PlaceIn (k ∷ ks) key zero h = h.above 0 (omega arith) (omega arith)
IsPlace-PlaceIn (k ∷ ks) key (suc pos) h = (
  h.below 0 (omega arith),
  IsPlace-PlaceIn ks key pos (record {
    bound = let b = h.bound in omega arith;
    below = λ j l. h.below (suc j) (omega arith);
    above = λ j l b. h.above (suc j) (omega arith) (omega arith);
  }),
)

abbrev Outside : ℕ → ℕ → ℕ → Type 0
Outside low high key = (key < low) ⊎ (high ≤ key)

later-Outside :
    (low high key k : ℕ) → low ≤ k → k < high → Outside low high key → Outside (k + 1) high key
later-Outside low high key k a b (inl h) = inl (omega arith)
later-Outside low high key k a b (inr h) = inr h

before-Outside :
    (low high key k : ℕ) → low ≤ k → k < high → Outside low high key → Outside low k key
before-Outside low high key k a b (inl h) = inl h
before-Outside low high key k a b (inr h) = inr (omega arith)

key_differs : (low high key k : ℕ) → low ≤ k → k < high → Outside low high key → (k == key) ≡ false
key_differs low high key k a b (inl h) = ne→false k key (λ e. omega arith)
key_differs low high key k a b (inr h) = ne→false k key (λ e. omega arith)

-- A key outside of the bounds is not there.
mem-Outside :
    (low high key : ℕ) (keys : List ℕ)
    → KeysWithin low high keys
    → Outside low high key
    → mem key keys ≡ false
mem-Outside low high key [] w o = refl
mem-Outside low high key (k ∷ ks) w o =
    rw (key_differs low high key k w.0 w.1 o)
      (mem-Outside (k + 1) high key ks w.2 (later-Outside low high key k w.0 w.1 o))

mutual
  unfolding contains Within

  contains-Outside :
      (low high key : ℕ) (t : Tree)
      → Within low high t
      → Outside low high key
      → contains key t ≡ false
  contains-Outside low high key (leaf keys) w o = mem-Outside low high key keys w o
  contains-Outside low high key (node keys kids) w o =
      rw (mem-Outside low high key keys w.1 o)
        (contains_kid-Outside low high key keys kids w.1 w.2 o)

  contains_kid-Outside :
      (low high key : ℕ) (keys : List ℕ) (kids : Kids)
      → KeysWithin low high keys
      → KidsWithin low high keys kids
      → Outside low high key
      → contains_kid key kids ≡ false
  contains_kid-Outside low high key [] no_kids w h o = refl
  contains_kid-Outside low high key [] (kid t no_kids) w h o =
      rw (contains-Outside low high key t h o) refl
  contains_kid-Outside low high key [] (kid t (kid u ts)) w h o = absurd h
  contains_kid-Outside low high key (k ∷ ks) no_kids w h o = refl
  contains_kid-Outside low high key (k ∷ ks) (kid t ts) w h o =
      rw (contains-Outside low k key t h.0 (before-Outside low high key k w.0 w.1 o)) (
        contains_kid-Outside (k + 1) high key ks ts w.2 h.1
          (later-Outside low high key k w.0 w.1 o))

is_at-mem :
    (low high key : ℕ) (keys : List ℕ) (pos : ℕ)
    → KeysWithin low high keys
    → PlaceIn key keys pos
    → is_at keys key pos ≡ mem key keys
is_at-mem low high key [] pos w p = refl
is_at-mem low high key (k ∷ ks) zero w p = elim (Bool-cases (k == key)) [
  | inl e ↦ rw e refl
  | inr e ↦ rw e (sym (mem-Outside (k + 1) high key ks w.2 (inl (ground (arith, e, p)))))
]
is_at-mem low high key (k ∷ ks) (suc pos) w p =
    rw (ne→false k key (λ e. let l = p.0 in omega arith))
      (is_at-mem (k + 1) high key ks pos w.2 p.1)

find_key-mem :
    (low high key : ℕ) (keys : List ℕ)
    → KeysWithin low high keys
    → (pos : ℕ) × (find_key keys key ≡ ok (mem key keys, pos)) × PlaceIn key keys pos
unfolding find_key
find_key-mem low high key keys w =
    let x = search_key-IsPlace (length keys) keys key (KeysWithin-IsSorted low high keys w) in
    let p = IsPlace-PlaceIn keys key x.0 x.2 in
    (
      x.0,
      ap (λ (r : Result ℕ). r >>= λ pos. ok (is_at keys key pos, pos)) x.1
          ∙ ap (λ (b : Bool). ok (b, x.0)) (is_at-mem low high key keys x.0 w p),
      p,
    )

some_keys : (keys : List ℕ) → 0 < length keys → (length keys == 0) ≡ false
some_keys keys h = ne→false (length keys) 0 (λ e. omega arith)

leaf_search :
    (low high key : ℕ) (keys : List ℕ)
    → KeysWithin low high keys
    → bt_search (leaf keys) key ≡ ok (mem key keys)
unfolding bt_search
leaf_search low high key [] w = refl
leaf_search low high key (k ∷ ks) w =
    let x = find_key-mem low high key (k ∷ ks) w in
    rw (bt_search, some_keys (k ∷ ks) (omega arith))
      (ap (λ (r : Result (Bool × ℕ)). r >>= λ x. ok x.0) x.1)

node_search :
    (low high key : ℕ) (keys : List ℕ) (kids : Kids)
    → 0 < length keys
    → KeysWithin low high keys
    → ((pos : ℕ)
        → PlaceIn key keys pos
        → mem key keys ≡ false
        → search_kid kids pos key ≡ ok (contains_kid key kids))
    → bt_search (node keys kids) key ≡ ok (contains key (node keys kids))
unfolding bt_search contains
node_search low high key keys kids h w below =
    let x = find_key-mem low high key keys w in
    let found : bt_search (node keys kids) key
        ≡ (if mem key keys then ok true else search_kid kids x.0 key) =
      rw (bt_search, some_keys keys h)
        (ap (λ (r : Result (Bool × ℕ)). r >>= λ x. if x.0 then ok true else search_kid kids x.1 key)
          x.1) in
    elim (Bool-cases (mem key keys)) [
      | inl e ↦ found ∙ (rw (contains, e) refl)
      | inr e ↦ found ∙ (rw (contains, e) (below x.0 x.2 e))
    ]

if_false : (b : Bool) → (if b then true else false) ≡ b
if_false true = refl
if_false false = refl

both_false : (b c : Bool) → (if b then true else c) ≡ false → (b ≡ false) × (c ≡ false)
both_false true c h = absurd cc
both_false false c h = (refl, h)

mutual
  unfolding bt_search contains Within

  search-contains :
      (low high key : ℕ) (t : Tree) → Within low high t → bt_search t key ≡ ok (contains key t)
  search-contains low high key (leaf keys) w = leaf_search low high key keys w
  search-contains low high key (node keys kids) w =
      node_search low high key keys kids w.0 w.1
        (λ pos p m. search_kid-contains low high key keys kids pos w.1 w.2 p m)

  search_kid-contains :
      (low high key : ℕ) (keys : List ℕ) (kids : Kids) (pos : ℕ)
      → KeysWithin low high keys
      → KidsWithin low high keys kids
      → PlaceIn key keys pos
      → mem key keys ≡ false
      → search_kid kids pos key ≡ ok (contains_kid key kids)
  search_kid-contains low high key [] no_kids pos w h p m = absurd h
  search_kid-contains low high key [] (kid t no_kids) zero w h p m =
      search-contains low high key t h ∙ ap ok (sym (if_false (contains key t)))
  search_kid-contains low high key [] (kid t no_kids) (suc pos) w h p m = absurd p
  search_kid-contains low high key [] (kid t (kid u ts)) pos w h p m = absurd h
  search_kid-contains low high key (k ∷ ks) no_kids pos w h p m = absurd h
  search_kid-contains low high key (k ∷ ks) (kid t ts) zero w h p m =
      let rest = contains_kid-Outside (k + 1) high key ks ts w.2 h.1 (inl (omega (arith, p))) in
      search-contains low k key t h.0
      ∙ ap ok (
          sym (if_false (contains key t)) ∙ ap (λ b. if contains key t then true else b) (sym rest))
  search_kid-contains low high key (k ∷ ks) (kid t ts) (suc pos) w h p m =
      let out = contains-Outside low k key t h.0 (inr (let l = p.0 in omega arith)) in
      search_kid-contains (k + 1) high key ks ts pos w.2 h.1 p.1
        ((both_false (k == key) (mem key ks) m).1)
      ∙ ap ok (ap (λ b. if b then true else contains_kid key ts) (sym out))

-- In a search tree, whose keys are in order between those of its nodes and whose nodes have a key,
-- `btSearch` ends without a fault and tells whether the key is anywhere in the tree.
pub bt_search-contains :
    (low high key : ℕ) (t : Tree) → Within low high t → bt_search t key ≡ ok (contains key t)
bt_search-contains low high key t w = search-contains low high key t w
