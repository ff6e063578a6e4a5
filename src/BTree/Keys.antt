-- ===== src/BTree/Keys.antt =====
-- What the search among the keys of a node finds.
use os_labratory_spring.Prelude.{
  ℕ, zero, suc, ◌+◌, ◌-◌, ◌/◌, ◌≤◌, ◌<◌, ◌≡◌, refl, subst, ◌∙◌, inl, inr, some, List, [], ◌∷◌, ltb,
  ◌==◌, if◌then◌else◌, get_elem?, get_or, length, Result, ok, arith, Bool-cases, lt→ltb, ltb→lt,
}
use os_labratory_spring.BTree.{search_loop, search_key}

-- The first `n` keys are in order, and no two are the same.
pub record IsSorted (n : ℕ) (a : List ℕ) : Type 0 where
  pub fits : n ≤ length a
  pub order : (i j : ℕ) → i < j → j < n → get_or a i 0 < get_or a j 0

-- `i` is the least index at which the key could stand.
pub record IsPlace (n : ℕ) (a : List ℕ) (key i : ℕ) : Type 0 where
  pub bound : i ≤ n
  pub below : (j : ℕ) → j < i → get_or a j 0 < key
  pub above : (j : ℕ) → i ≤ j → j < n → key ≤ get_or a j 0

get_elem?-get_or : (a : List ℕ) (i : ℕ) → i < length a → get_elem? a i ≡ some (get_or a i 0)
get_elem?-get_or [] i h = absurd (omega arith)
get_elem?-get_or (x ∷ xs) zero h = refl
get_elem?-get_or (x ∷ xs) (suc i) h = get_elem?-get_or xs i (omega arith)

middle : (low hi : ℕ) → low < hi → (low ≤ (low + hi - 1) / 2) × ((low + hi - 1) / 2 < hi)
middle low hi h = (omega arith, omega arith)

-- One round of the loop, at the key that it reads.
abbrev round : ℕ → List ℕ → ℕ → ℕ → ℕ → ℕ → Result ℕ
round rounds a key low hi x =
    let mid = (low + hi - 1) / 2 in
    let right = ltb x key in
    if x == key
    then ok mid
    else search_loop rounds a key (if right then mid + 1 else low) (if right then hi else mid)

search_loop-round :
    (rounds : ℕ) (a : List ℕ) (key low hi : ℕ)
    → low < hi
    → hi ≤ length a
    → search_loop (suc rounds) a key low hi
      ≡ round rounds a key low hi (get_or a ((low + hi - 1) / 2) 0)
unfolding search_loop
search_loop-round rounds a key low hi h b =
    let on = lt→ltb low hi h in
    let m = middle low hi h in
    let read = get_elem?-get_or a ((low + hi - 1) / 2) (let x = m.1 in omega arith) in
    rw (search_loop, on, read) refl

-- The keys on the two sides of a key of the node.
below_mid :
    (n : ℕ) (a : List ℕ) (key mid : ℕ)
    → IsSorted n a
    → mid < n
    → get_or a mid 0 < key
    → (j : ℕ) → j < mid + 1
    → get_or a j 0 < key
below_mid n a key mid s m h j b = elim (Bool-cases (j == mid)) [
  | inl e ↦ let same : mid ≡ j = ground (arith, e) in subst (λ i. get_or a i 0 < key) same h
  | inr e ↦ let x = s.order j mid (ground (arith, b, e)) m in omega arith
]

above_mid :
    (n : ℕ) (a : List ℕ) (key mid : ℕ)
    → IsSorted n a
    → key ≤ get_or a mid 0
    → (j : ℕ) → mid ≤ j
    → j < n
    → key ≤ get_or a j 0
above_mid n a key mid s h j b l = elim (Bool-cases (j == mid)) [
  | inl e ↦ let same : mid ≡ j = ground (arith, e) in subst (λ i. key ≤ get_or a i 0) same h
  | inr e ↦ let x = s.order mid j (ground (arith, b, e)) l in omega arith
]

found-IsPlace :
    (n : ℕ) (a : List ℕ) (key mid : ℕ)
    → IsSorted n a
    → mid < n
    → get_or a mid 0 ≡ key
    → IsPlace n a key mid
found-IsPlace n a key mid s m e = record {
  bound = omega arith;
  below = λ j b. let x = s.order j mid b m in omega arith;
  above = above_mid n a key mid s (omega arith);
}

-- The loop ends at the place of the key when the keys before `low` are less and those from `hi` on
-- are not.
search_loop-IsPlace :
    (rounds n : ℕ) (a : List ℕ) (key low hi : ℕ)
    → IsSorted n a
    → hi ≤ n
    → low ≤ hi
    → hi < low + rounds
    → ((j : ℕ) → j < low → get_or a j 0 < key)
    → ((j : ℕ) → hi ≤ j → j < n → key ≤ get_or a j 0)
    → (i : ℕ) × (search_loop rounds a key low hi ≡ ok i) × IsPlace n a key i
unfolding search_loop
search_loop-IsPlace zero n a key low hi s b c f below above = absurd (omega arith)
search_loop-IsPlace (suc rounds) n a key low hi s b c f below above =
    elim (Bool-cases (ltb low hi)) [
      | inr off ↦
          let done : search_loop (suc rounds) a key low hi ≡ ok hi = rw (search_loop, off) refl in
          let same : low ≡ hi = ground (arith, off, c) in
          (hi, done, record { bound = b; below = λ j l. below j (omega arith); above = above })
      | inl on ↦
          let h = ltb→lt low hi on in
          let mid = (low + hi - 1) / 2 in
          let m = middle low hi h in
          let fits = s.fits in
          let first = search_loop-round rounds a key low hi h (omega arith) in
          elim (Bool-cases (get_or a mid 0 == key)) [
            | inl e ↦
                let same : get_or a mid 0 ≡ key = ground (arith, e) in
                (
                  mid,
                  first ∙ (rw e refl),
                  found-IsPlace n a key mid s (let x = m.1 in omega arith) same,
                )
            | inr e ↦ elim (Bool-cases (ltb (get_or a mid 0) key)) [
              | inl l ↦
                  let low_side = ltb→lt (get_or a mid 0) key l in
                  let r =
                    search_loop-IsPlace rounds n a key (mid + 1) hi s b (let x = m.1 in omega arith)
                      (let x = m.0 in omega arith)
                      (below_mid n a key mid s (let x = m.1 in omega arith) low_side) above in
                  (r.0, first ∙ (rw (e, l) r.1), r.2)
              | inr l ↦
                  let high_side : key ≤ get_or a mid 0 = ground (arith, l) in
                  let r =
                    search_loop-IsPlace rounds n a key low mid s (let x = m.1 in omega arith) m.0
                      (let x = m.1 in omega arith) below (above_mid n a key mid s high_side) in
                  (r.0, first ∙ (rw (e, l) r.1), r.2)
            ]
          ]
    ]

-- For a node whose first `n` keys are in order with no two the same, `searchKey` ends and gives the
-- least index whose key is not less than the one searched for, or `n` if there is none.
pub search_key-IsPlace :
    (n : ℕ) (a : List ℕ) (key : ℕ)
    → IsSorted n a
    → (i : ℕ) × (search_key n a key ≡ ok i) × IsPlace n a key i
unfolding search_key
search_key-IsPlace n a key s =
    search_loop-IsPlace (n + 1) n a key 0 n s (omega arith) (omega arith) (omega arith)
      (λ j h. absurd (omega arith)) (λ j h l. absurd (omega arith))
