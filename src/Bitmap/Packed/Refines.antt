-- ===== src/Bitmap/Packed/Refines.antt =====
-- The words of lib/kernel/bitmap.c hold the bits that Bitmap works on.
use Prim.Native.Nat.{bit_and, bit_or, bit_xor}
use os_labratory_spring.Prelude.{
  ℕ, zero, suc, ◌-◌, ◌*◌, ◌/◌, ◌%◌, ◌^◌, ◌≤◌, ◌<◌, ◌≡◌, refl, sym, subst, ◌∙◌, ap, Bool, true,
  false, not, ◌&&◌, ◌||◌, length, get_or, set, ltb, ◌==◌, if◌then◌else◌, Result, ok, panic, ◌>>=◌,
  arith, inl, inr, Bool-cases, length-set, get_or-set_self, get_or-set_ne, ℕ_discrete, ltb→lt,
  eq→==, ne→false,
}
use os_labratory_spring.Bitmap
use os_labratory_spring.Bitmap.{Bitmap, bit}
use os_labratory_spring.Bitmap.Digits.{
  test_bit, test_bit-bit_or, test_bit-bit_and, test_bit-bit_xor, test_bit-mask, test_bit-complement,
  bit_and-mask, differs,
}
use os_labratory_spring.Bitmap.Packed
use os_labratory_spring.Bitmap.Packed.{
  Packed, elem_idx, bit_mask, elem, with_elem, bitmap_mark, bitmap_reset, bitmap_flip,
}

-- The words of `p` hold the bits `b`.
pub record Packs (p : Packed) (b : Bitmap) : Type 0 where
  pub size : length b ≡ p.bit_cnt
  pub room : p.bit_cnt ≤ length p.bits * 32
  pub agree : (i : ℕ) → i < p.bit_cnt → test_bit (i % 32) (elem p i) ≡ bit b i

-- Two runs that both return, with results in a relation, or both panic.
pub data Both {A B : Type 0} (R : A → B → Type 0) : Result A → Result B → Type 0 where
  returned : {a : A} {b : B} → R a b → Both R (ok a) (ok b)
  panicked : Both R panic panic

pub Both-bind :
    {A B C D : Type 0} {R : A → B → Type 0} {S : C → D → Type 0} {x : Result A} {y : Result B}
    (f : A → Result C) (g : B → Result D)
    → Both R x y
    → ((a : A) (b : B) → R a b → Both S (f a) (g b))
    → Both S (x >>= f) (y >>= g)
Both-bind f g (returned {a} {b} r) h = h a b r
Both-bind f g panicked h = panicked

-- `v` has bit `k` at `value`, and the other bits of `w`.
Changes : ℕ → Bool → ℕ → ℕ → Type 0
Changes k value w v = (j : ℕ) → j < 32 → test_bit j v ≡ (if j == k then value else test_bit j w)

bit_or-Changes : (k w : ℕ) → Changes k true w (bit_or w (2 ^ k))
unfolding Changes
bit_or-Changes k w j h =
    test_bit-bit_or j w (2 ^ k) ∙ rw (test_bit-mask j k) (choose (test_bit j w) (j == k))
  where
    choose : (x c : Bool) → x || c ≡ (if c then true else x)
    choose true true = refl
    choose true false = refl
    choose false true = refl
    choose false false = refl

pub mask_small : (k n : ℕ) → k < n → 2 ^ k < 2 ^ n
mask_small k zero h = absurd (omega arith)
mask_small zero (suc n) h = grow n
  where
    grow : (n : ℕ) → 1 < 2 ^ suc n
    grow zero = omega arith
    grow (suc n) = omega (arith, grow n)
mask_small (suc k) (suc n) h = omega (arith, mask_small k n (omega arith))

bit_and-Changes : (k w : ℕ) → k < 32 → Changes k false w (bit_and w (2 ^ 32 - 1 - 2 ^ k))
unfolding Changes
bit_and-Changes k w small j h =
    test_bit-bit_and j w (2 ^ 32 - 1 - 2 ^ k)
    ∙ rw (test_bit-complement j 32 (2 ^ k) h (mask_small k 32 small), test_bit-mask j k)
        (choose (test_bit j w) (j == k))
  where
    choose : (x c : Bool) → x && not c ≡ (if c then false else x)
    choose true true = refl
    choose true false = refl
    choose false true = refl
    choose false false = refl

bit_xor-Changes : (k w : ℕ) → Changes k (not (test_bit k w)) w (bit_xor w (2 ^ k))
unfolding Changes
bit_xor-Changes k w j h =
    test_bit-bit_xor j w (2 ^ k)
    ∙ rw (test_bit-mask j k) (elim (ℕ_discrete j k) [
      | yes e ↦ rw (eq→== j k e) (rw e (flips (test_bit k w)))
      | no ne ↦ rw (ne→false j k ne) (keeps (test_bit j w))
    ])
  where
    flips : (x : Bool) → differs x true ≡ not x
    flips true = refl
    flips false = refl

    keeps : (x : Bool) → differs x false ≡ x
    keeps true = refl
    keeps false = refl

-- A word with one bit changed holds the bits with that one changed.
with_elem-Packs :
    (p : Packed) (b : Bitmap) (idx v : ℕ) (value : Bool)
    → Packs p b
    → idx < p.bit_cnt
    → Changes (idx % 32) value (elem p idx) v
    → Packs (with_elem p idx v) (set b idx value)
unfolding Changes
with_elem-Packs p b idx v value h inside changes = record {
  size = length-set b idx value ∙ h.size;
  room = omega (arith, length-set p.bits (elem_idx idx) v, h.room);
  agree = λ i q. elim (ℕ_discrete (i / 32) (idx / 32)) [
    | yes e ↦ same_elem i q e
    | no ne ↦
        rw (get_or-set_ne p.bits (elem_idx idx) (elem_idx i) v 0 (λ e. ne (sym e))) (
          h.agree i q
          ∙ sym (get_or-set_ne b idx i value false (λ e. ne (ap (λ n. n / 32) (sym e)))))
  ];
}
  where
    stored : get_or (set p.bits (elem_idx idx) v) (elem_idx idx) 0 ≡ v
    stored = get_or-set_self p.bits (elem_idx idx) v 0 (omega (arith, h.room))

    read : (i : ℕ) → i / 32 ≡ idx / 32 → elem (with_elem p idx v) i ≡ v
    read i e = ap (λ n. get_or (set p.bits (elem_idx idx) v) n 0) e ∙ stored

    same_elem :
        (i : ℕ)
        → i < p.bit_cnt
        → i / 32 ≡ idx / 32
        → test_bit (i % 32) (elem (with_elem p idx v) i) ≡ bit (set b idx value) i
    same_elem i q e =
        ap (test_bit (i % 32)) (read i e)
        ∙ changes (i % 32) (omega arith)
        ∙ elim (ℕ_discrete i idx) [
          | yes s ↦
              rw (eq→== (i % 32) (idx % 32) (ap (λ n. n % 32) s))
                (rw s (sym (get_or-set_self b idx value false (omega (arith, h.size)))))
          | no ns ↦ rw (ne→false (i % 32) (idx % 32) (omega arith)) (
              ap (λ n. test_bit (i % 32) (get_or p.bits n 0)) (sym e)
              ∙ h.agree i q
              ∙ sym (get_or-set_ne b idx i value false (λ e'. ns (sym e'))))
        ]

module _ (p : Packed) (b : Bitmap) (idx : ℕ) (h : Packs p b) where
  pub bitmap_mark-Packs : idx < p.bit_cnt → Packs (bitmap_mark p idx) (set b idx true)
  unfolding bitmap_mark
  bitmap_mark-Packs inside =
      with_elem-Packs p b idx _ true h inside (bit_or-Changes (idx % 32) (elem p idx))

  pub bitmap_reset-Packs : idx < p.bit_cnt → Packs (bitmap_reset p idx) (set b idx false)
  unfolding bitmap_reset
  bitmap_reset-Packs inside =
      with_elem-Packs p b idx _ false h inside
        (bit_and-Changes (idx % 32) (elem p idx) (omega arith))

  -- `bitmap_flip` of a bit of the map makes that bit the other one.
  pub bitmap_flip-Packs : idx < p.bit_cnt → Packs (bitmap_flip p idx) (set b idx (not (bit b idx)))
  unfolding bitmap_flip
  bitmap_flip-Packs inside =
      subst (λ value. Packs (bitmap_flip p idx) (set b idx (not value))) (h.agree idx inside)
        (with_elem-Packs p b idx _ _ h inside (bit_xor-Changes (idx % 32) (elem p idx)))

  pub bitmap_test-Packs : Packed.bitmap_test p idx ≡ Bitmap.bitmap_test b idx
  unfolding Packed.bitmap_test Bitmap.bitmap_test
  bitmap_test-Packs = rw h.size (elim (Bool-cases (ltb idx p.bit_cnt)) [
    | inl inside ↦
        rw (inside, bit_and-mask (idx % 32) (elem p idx), h.agree idx (ltb→lt idx p.bit_cnt inside))
          refl
    | inr outside ↦ rw outside refl
  ])

  pub bitmap_set-Packs :
      (value : Bool) → Both Packs (Packed.bitmap_set p idx value) (Bitmap.bitmap_set b idx value)
  unfolding Packed.bitmap_set Bitmap.bitmap_set
  bitmap_set-Packs value = rw h.size (elim (Bool-cases (ltb idx p.bit_cnt)) [
    | inl inside ↦ rw inside (set_inside value (ltb→lt idx p.bit_cnt inside))
    | inr outside ↦ rw outside panicked
  ])
    where
      set_inside :
          (value : Bool)
          → idx < p.bit_cnt
          → Both Packs
              (if value then ok (bitmap_mark p idx) else ok (bitmap_reset p idx))
              (ok (set b idx value))
      set_inside true inside = returned (bitmap_mark-Packs inside)
      set_inside false inside = returned (bitmap_reset-Packs inside)
