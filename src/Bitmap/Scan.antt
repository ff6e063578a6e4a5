-- ===== src/Bitmap/Scan.antt =====
-- What `bitmap_contains`, `bitmap_scan` and `bitmap_scan_and_flip` find.
use os_labratory_spring.Prelude.{
  ℕ, zero, suc, ◌+◌, ◌-◌, ◌≤◌, ◌<◌, ◌≡◌, refl, ◌⊎◌, inl, inr, Bool, true, false, not, length, leb,
  same, ok, arith, none, some, Bool-cases, ℕ_discrete,
}
use os_labratory_spring.Bitmap.{
  Bitmap, bit, bitmap_test, contains_from, bitmap_contains, scan_from, bitmap_scan, scan_and_flip,
  flip_found, bitmap_all,
}
use os_labratory_spring.Bitmap.Loops.{Group, Assigned, set_multiple-Assigned}

-- Some of the `cnt` bits from `start` on is `value`.
abbrev pub Hit : Bitmap → ℕ → ℕ → Bool → Type 0
Hit b start cnt value = (j : ℕ) × (start ≤ j) × (j < start + cnt) × (bit b j ≡ value)

same-cases : (s t : Bool) → ((same s t ≡ true) × (s ≡ t)) ⊎ ((same s t ≡ false) × (s ≡ not t))
same-cases s t = ground arith

contains_from-cases :
    (b : Bitmap) (start n : ℕ) (value : Bool)
    → start + n ≤ length b
    → ((contains_from b start n value ≡ ok true) × Hit b start n value)
      ⊎ ((contains_from b start n value ≡ ok false) × Group b start n (not value))
unfolding contains_from bitmap_test
contains_from-cases b start zero value h = inr (refl, λ j p q. absurd (omega arith))
contains_from-cases b start (suc n) value h = elim (same-cases (bit b start) value) [
  | inl (t, e) ↦ inl (ground arith, (start, omega arith, omega arith, e))
  | inr (t, e) ↦ elim (contains_from-cases b (start + 1) n value (omega arith)) [
    | inl (run, (j, p, q, v)) ↦ inl (ground arith, (j, omega arith, omega arith, v))
    | inr (run, g) ↦ inr (
      ground arith,
      λ j p q. elim (ℕ_discrete j start) [
        | yes k ↦ rw k e
        | no k ↦ g j (omega arith) (omega arith)
      ],
    )
  ]
]

-- Within the map `bitmap_contains` does not panic: it answers true with a bit of that value in the
-- group, and false where every bit of the group has the other.
pub contains-cases :
    (b : Bitmap) (start cnt : ℕ) (value : Bool)
    → start + cnt ≤ length b
    → ((bitmap_contains b start cnt value ≡ ok true) × Hit b start cnt value)
      ⊎ ((bitmap_contains b start cnt value ≡ ok false) × Group b start cnt (not value))
unfolding bitmap_contains
contains-cases b start cnt value h = elim (contains_from-cases b start cnt value h) [
  | inl (run, hit) ↦ inl (ground arith, hit)
  | inr (run, g) ↦ inr (ground arith, g)
]

not-Group :
    (b : Bitmap) (start cnt : ℕ) (value : Bool)
    → Hit b start cnt (not value)
    → ¬ Group b start cnt value
not-Group b start cnt true (j, p, q, e) g = cc (g j p q)
not-Group b start cnt false (j, p, q, e) g = cc (g j p q)

-- The first group of `cnt` bits at `value` from `start` on is the one at `i`.
pub record First (b : Bitmap) (start cnt : ℕ) (value : Bool) (i : ℕ) : Type 0 where
  pub after : start ≤ i
  pub fits : i + cnt ≤ length b
  pub group : Group b i cnt value
  pub least : (k : ℕ) → start ≤ k → k < i → ¬ Group b k cnt value

-- There is no group of `cnt` bits at `value` from `start` on.
abbrev pub NoGroup : Bitmap → ℕ → ℕ → Bool → Type 0
NoGroup b start cnt value = (k : ℕ) → start ≤ k → k + cnt ≤ length b → ¬ Group b k cnt value

First-suc :
    {b : Bitmap} {start cnt i : ℕ} {value : Bool}
    → ¬ Group b start cnt value
    → First b (start + 1) cnt value i
    → First b start cnt value i
First-suc {b} {start} {cnt} {i} {value} none_here f = record {
  after = omega arith;
  fits = f.fits;
  group = f.group;
  least = λ k p q. elim (ℕ_discrete k start) [
    | yes e ↦ rw e none_here
    | no ne ↦ f.least k (omega arith) q
  ];
}

not-not : (v : Bool) → not (not v) ≡ v
not-not true = refl
not-not false = refl

scan_from-cases :
    (b : Bitmap) (start n cnt : ℕ) (value : Bool)
    → n ≡ length b + 1 - cnt - start
    → cnt ≤ length b
    → ((i : ℕ) × (scan_from b start n cnt value ≡ ok (some i)) × First b start cnt value i)
      ⊎ ((scan_from b start n cnt value ≡ ok none) × NoGroup b start cnt value)
unfolding scan_from
scan_from-cases b start zero cnt value e h = inr (refl, λ k p q. absurd (omega arith))
scan_from-cases b start (suc n) cnt value e h =
    elim (contains-cases b start cnt (not value) (omega arith)) [
      | inr (run, g) ↦ inl (
        start,
        ground arith,
        record {
          after = omega arith;
          fits = omega arith;
          group = rw not-not at g;
          least = λ k p q. absurd (omega arith);
        },
      )
      | inl (run, hit) ↦ elim (scan_from-cases b (start + 1) n cnt value (omega arith) h) [
        | inl (i, found, f) ↦ inl (i, ground arith, First-suc (not-Group b start cnt value hit) f)
        | inr (lost, ng) ↦ inr (
          ground arith,
          λ k p q. elim (ℕ_discrete k start) [
            | yes e' ↦ rw e' (not-Group b start cnt value hit)
            | no ne ↦ ng k (omega arith) q
          ],
        )
      ]
    ]

-- From a start within the map `bitmap_scan` does not panic: it answers the first group, or
-- BITMAP_ERROR where there is none.
pub scan-cases :
    (b : Bitmap) (start cnt : ℕ) (value : Bool)
    → start ≤ length b
    → ((i : ℕ) × (bitmap_scan b start cnt value ≡ ok (some i)) × First b start cnt value i)
      ⊎ ((bitmap_scan b start cnt value ≡ ok none) × NoGroup b start cnt value)
unfolding bitmap_scan
scan-cases b start cnt value h = elim (Bool-cases (leb cnt (length b))) [
  | inl small ↦
      elim (scan_from-cases b start (length b - cnt + 1 - start) cnt value (ground arith)
        (ground arith)) [
          | inl (i, run, f) ↦ inl (i, ground arith, f)
          | inr (run, ng) ↦ inr (ground arith, ng)
        ]
  | inr large ↦ inr (ground arith, λ k p q. absurd (ground arith))
]

-- From a start within the map `bitmap_scan_and_flip` does not panic.  It flips the first group of
-- `cnt` bits at `value`, and no other bit; where there is no group it reports BITMAP_ERROR and
-- leaves the map alone.
pub scan_and_flip-cases :
    (b : Bitmap) (start cnt : ℕ) (value : Bool)
    → start ≤ length b
    → ((i : ℕ) × (b' : Bitmap) × (scan_and_flip b start cnt value ≡ ok (some i, b'))
        × First b start cnt value i
        × Assigned b i cnt (not value) b')
      ⊎ ((scan_and_flip b start cnt value ≡ ok (none, b)) × NoGroup b start cnt value)
unfolding scan_and_flip flip_found
scan_and_flip-cases b start cnt value h = elim (scan-cases b start cnt value h) [
  | inl (i, run, f) ↦
      let (b', done, a) = set_multiple-Assigned b i cnt (not value) f.fits in
      inl (i, b', ground arith, f, a)
  | inr (run, ng) ↦ inr (ground arith, ng)
]

-- On a range within the map `bitmap_all` does not panic, and tells whether all its bits are true.
pub all-cases :
    (b : Bitmap) (start cnt : ℕ)
    → start + cnt ≤ length b
    → ((bitmap_all b start cnt ≡ ok true) × Group b start cnt true)
      ⊎ ((bitmap_all b start cnt ≡ ok false) × Hit b start cnt false)
unfolding bitmap_all
all-cases b start cnt h = elim (contains-cases b start cnt false h) [
  | inl (run, hit) ↦ inr (ground arith, hit)
  | inr (run, g) ↦ inl (ground arith, g)
]
