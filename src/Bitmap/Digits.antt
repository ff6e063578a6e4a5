-- ===== src/Bitmap/Digits.antt =====
-- The bits of a number, lowest first, and the operations of C on them, with a mask of one bit.
use Prim.Native.Nat.{max, differ, digits, bitwise, bit_and-bitwise, bit_or-bitwise, bit_xor-bitwise}
use native.Mathlib.Nat.{le_refl}
use Prim.Native.Nat.{bit_and, bit_or, bit_xor}
use os_labratory_spring.Prelude.{
  ℕ, zero, suc, ◌+◌, ◌-◌, ◌*◌, ◌/◌, ◌%◌, ◌^◌, ◌≤◌, ◌<◌, min, ◌≡◌, refl, sym, ap, ◌∙◌, Bool, true,
  false, not, ◌&&◌, ◌||◌, same, ◌==◌, arith,
}

abbrev pub test_bit : ℕ → ℕ → Bool
test_bit zero w = w % 2 == 1
test_bit (suc j) w = test_bit j (w / 2)

abbrev pub differs : Bool → Bool → Bool
differs x y = not (same x y)

digit_of : Bool → ℕ
digit_of true = 1
digit_of false = 0

digit_of-test : (w : ℕ) → digit_of (w % 2 == 1) ≡ w % 2
unfolding digit_of
digit_of-test w = ground arith

test-digit_of : (c : Bool) → (digit_of c == 1) ≡ c
unfolding digit_of
test-digit_of true = refl
test-digit_of false = refl

digit_of_small : (c : Bool) → digit_of c < 2
unfolding digit_of
digit_of_small true = omega arith
digit_of_small false = omega arith

-- `bitwise` of an operation on digits that is `law` on bits: it is `law` on each bit.
module _ (z : ℕ → ℕ) (f : ℕ → ℕ → ℕ) (law : Bool → Bool → Bool)
    (base : (b : ℕ) → z b ≡ z (b / 2) * 2 + f 0 (b % 2))
    (agrees : (x y : Bool) → f (digit_of x) (digit_of y) ≡ digit_of (law x y)) where
  -- The count of digits that is its fuel does not matter once it is large enough.
  digits-enough : (a n k b : ℕ) → a ≤ n → a ≤ k → digits z f n a b ≡ digits z f k a b
  digits-enough zero zero zero b h h' = refl
  digits-enough zero zero (suc k) b h h' = refl
  digits-enough zero (suc n) zero b h h' = refl
  digits-enough zero (suc n) (suc k) b h h' = refl
  digits-enough (suc a) zero k b h h' = absurd (omega arith)
  digits-enough (suc a) (suc n) zero b h h' = absurd (omega arith)
  digits-enough (suc a) (suc n) (suc k) b h h' =
      rw (digits-enough (suc a / 2) n k (b / 2) (omega arith) (omega arith))

  lowest_digit : (a b : ℕ) → bitwise z f a b ≡ bitwise z f (a / 2) (b / 2) * 2 + f (a % 2) (b % 2)
  lowest_digit zero b = base b
  lowest_digit (suc a) b =
      rw (digits-enough (suc a / 2) a (suc a / 2) (b / 2) (omega arith) (le_refl _))

  lowest_law : (a b : ℕ) → f (a % 2) (b % 2) ≡ digit_of (law (a % 2 == 1) (b % 2 == 1))
  lowest_law a b =
      ap (λ x. f x (b % 2)) (sym (digit_of-test a))
      ∙ ap (f (digit_of (a % 2 == 1))) (sym (digit_of-test b))
      ∙ agrees (a % 2 == 1) (b % 2 == 1)

  test_bit-bitwise : (j a b : ℕ) → test_bit j (bitwise z f a b) ≡ law (test_bit j a) (test_bit j b)
  test_bit-bitwise zero a b =
      let c : Bool = law (a % 2 == 1) (b % 2 == 1) in
      let low : bitwise z f a b % 2 ≡ digit_of c =
        omega (arith, lowest_digit a b, lowest_law a b, digit_of_small c) in
      rw low (test-digit_of c)
  test_bit-bitwise (suc j) a b =
      let c : Bool = law (a % 2 == 1) (b % 2 == 1) in
      let high : bitwise z f a b / 2 ≡ bitwise z f (a / 2) (b / 2) =
        omega (arith, lowest_digit a b, lowest_law a b, digit_of_small c) in
      rw high (test_bit-bitwise j (a / 2) (b / 2))

pub test_bit-bit_or : (j a b : ℕ) → test_bit j (bit_or a b) ≡ test_bit j a || test_bit j b
unfolding digit_of
test_bit-bit_or j a b =
    simp bit_or-bitwise
      (test_bit-bitwise (λ y. y) max (λ x y. x || y) (λ y. omega arith) agrees j a b)
  where
    agrees : (x y : Bool) → max (digit_of x) (digit_of y) ≡ digit_of (x || y)
    agrees true true = refl
    agrees true false = refl
    agrees false true = refl
    agrees false false = refl

pub test_bit-bit_xor :
    (j a b : ℕ) → test_bit j (bit_xor a b) ≡ differs (test_bit j a) (test_bit j b)
unfolding digit_of
test_bit-bit_xor j a b =
    simp bit_xor-bitwise (test_bit-bitwise (λ y. y) differ differs (λ y. omega arith) agrees j a b)
  where
    agrees : (x y : Bool) → differ (digit_of x) (digit_of y) ≡ digit_of (differs x y)
    agrees true true = refl
    agrees true false = refl
    agrees false true = refl
    agrees false false = refl

and_agrees : (x y : Bool) → min (digit_of x) (digit_of y) ≡ digit_of (x && y)
unfolding digit_of
and_agrees true true = refl
and_agrees true false = refl
and_agrees false true = refl
and_agrees false false = refl

pub test_bit-bit_and : (j a b : ℕ) → test_bit j (bit_and a b) ≡ test_bit j a && test_bit j b
test_bit-bit_and j a b =
    simp bit_and-bitwise
      (test_bit-bitwise (λ _. zero) min (λ x y. x && y) (λ y. omega arith) and_agrees j a b)

bit_and_lowest : (a b : ℕ) → bit_and a b ≡ bit_and (a / 2) (b / 2) * 2 + min (a % 2) (b % 2)
bit_and_lowest a b =
    simp bit_and-bitwise
      (lowest_digit (λ _. zero) min (λ x y. x && y) (λ y. omega arith) and_agrees a b)

pub test_bit-zero : (j : ℕ) → test_bit j 0 ≡ false
test_bit-zero zero = refl
test_bit-zero (suc j) = test_bit-zero j

-- The mask of bit `k` has that bit alone.
pub test_bit-mask : (j k : ℕ) → test_bit j (2 ^ k) ≡ (j == k)
test_bit-mask zero zero = refl
test_bit-mask zero (suc k) = ground arith
test_bit-mask (suc j) zero = ground (arith, test_bit-zero j)
test_bit-mask (suc j) (suc k) =
    let half : 2 ^ suc k / 2 ≡ 2 ^ k = omega arith in rw half (ground (arith, test_bit-mask j k))

-- `~w` of a number of `n` bits.
pub test_bit-complement :
    (j n w : ℕ) → j < n → w < 2 ^ n → test_bit j (2 ^ n - 1 - w) ≡ not (test_bit j w)
test_bit-complement zero zero w h h' = absurd (omega arith)
test_bit-complement (suc j) zero w h h' = absurd (omega arith)
test_bit-complement zero (suc n) w h h' = ground arith
test_bit-complement (suc j) (suc n) w h h' =
    let half : (2 ^ suc n - 1 - w) / 2 ≡ 2 ^ n - 1 - w / 2 = omega arith in
    rw half (test_bit-complement j n (w / 2) (omega arith) (omega arith))

bit_and-zero : (a : ℕ) → bit_and a 0 ≡ 0
bit_and-zero a = simp bit_and-bitwise (run_out a a)
  where
    run_out : (n a : ℕ) → digits (λ _. zero) min n a 0 ≡ 0
    run_out zero a = refl
    run_out (suc n) zero = refl
    run_out (suc n) (suc a) = omega (arith, run_out n (suc a / 2))

-- `(w & mask) != 0` tests the bit of the mask.
pub bit_and-mask : (k w : ℕ) → not (bit_and w (2 ^ k) == 0) ≡ test_bit k w
bit_and-mask zero w =
    let lowest : bit_and w 1 ≡ w % 2 = omega (arith, bit_and_lowest w 1, bit_and-zero (w / 2)) in
    rw lowest (ground arith)
bit_and-mask (suc k) w =
    let half : 2 ^ suc k / 2 ≡ 2 ^ k = omega arith in
    let shifted : bit_and w (2 ^ suc k) ≡ bit_and (w / 2) (2 ^ k) * 2 =
      bit_and_lowest w (2 ^ suc k) ∙ rw half (omega arith) in
    rw shifted (ground (arith, bit_and-mask k (w / 2)))
