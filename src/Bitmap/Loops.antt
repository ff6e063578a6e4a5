-- ===== src/Bitmap/Loops.antt =====
-- What the loops of `bitmap_set_multiple` and `bitmap_contains` compute.
use os_labratory_spring.Prelude.{
  ℕ, zero, suc, ◌+◌, ◌≤◌, ◌<◌, ◌≡◌, refl, ◌∙◌, Bool, false, length, set, ok, arith, length-set,
  get_or-set_self, get_or-set_ne, ℕ_discrete,
}
use os_labratory_spring.Bitmap.{Bitmap, bit, bitmap_set, set_from, set_multiple}

-- The `cnt` bits from `start` on are `value`.
abbrev pub Group : Bitmap → ℕ → ℕ → Bool → Type 0
Group b start cnt value = (j : ℕ) → start ≤ j → j < start + cnt → bit b j ≡ value

-- `b'` is `b` with the `cnt` bits from `start` on at `value`.
pub record Assigned (b : Bitmap) (start cnt : ℕ) (value : Bool) (b' : Bitmap) : Type 0 where
  pub size : length b' ≡ length b
  pub inside : Group b' start cnt value
  pub below : (j : ℕ) → j < start → bit b' j ≡ bit b j
  pub above : (j : ℕ) → start + cnt ≤ j → bit b' j ≡ bit b j

Assigned-suc :
    {b b' : Bitmap} {start n : ℕ} {value : Bool}
    → start < length b
    → Assigned (set b start value) (start + 1) n value b'
    → Assigned b start (suc n) value b'
Assigned-suc {b} {b'} {start} {n} {value} h a = record {
  size = a.size ∙ length-set b start value;
  inside = λ j p q. elim (ℕ_discrete j start) [
    | yes e ↦ rw e (a.below start (omega arith) ∙ get_or-set_self b start value false h)
    | no ne ↦ a.inside j (omega arith) (omega arith)
  ];
  below = λ j p. a.below j (omega arith) ∙ get_or-set_ne b start j value false (omega arith);
  above = λ j p. a.above j (omega arith) ∙ get_or-set_ne b start j value false (omega arith);
}

set_from-Assigned :
    (b : Bitmap) (start n : ℕ) (value : Bool)
    → start + n ≤ length b
    → (b' : Bitmap) × (set_from b start n value ≡ ok b') × Assigned b start n value b'
unfolding set_from bitmap_set
set_from-Assigned b start zero value h = (
  b,
  refl,
  record {
    size = refl;
    inside = λ j p q. absurd (omega arith);
    below = λ j p. refl;
    above = λ j p. refl;
  },
)
set_from-Assigned b start (suc n) value h =
    let inside : start < length b = omega arith in
    let (b', done, a) =
      set_from-Assigned (set b start value) (start + 1) n value
        (omega (arith, length-set b start value)) in
    (b', ground (arith, done), Assigned-suc inside a)

-- Within the map `bitmap_set_multiple` does not panic, and assigns the group and nothing else.
pub set_multiple-Assigned :
    (b : Bitmap) (start cnt : ℕ) (value : Bool)
    → start + cnt ≤ length b
    → (b' : Bitmap) × (set_multiple b start cnt value ≡ ok b') × Assigned b start cnt value b'
unfolding set_multiple
set_multiple-Assigned b start cnt value h =
    let (b', done, a) = set_from-Assigned b start cnt value h in (b', ground (arith, done), a)
