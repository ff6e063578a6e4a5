-- ===== src/FreeMap/Pack.antt =====
-- The words of lib/kernel/bitmap.c that hold a list of bits, with the bits not in use at zero.
use os_labratory_spring.Prelude.{
  ℕ, zero, suc, ◌+◌, ◌*◌, ◌/◌, ◌%◌, ◌^◌, ◌<◌, ◌≡◌, refl, ap, ◌∙◌, Bool, true, false, List, [], ◌∷◌,
  length, get_or, take, drop, if◌then◌else◌, arith,
}
use os_labratory_spring.Bitmap.{Bitmap, bit}
use os_labratory_spring.Bitmap.Digits.{test_bit, test_bit-zero}
use os_labratory_spring.Bitmap.Packed.{Packed, elem_cnt}
use os_labratory_spring.Bitmap.Packed.Refines.{Packs}

abbrev number : List Bool → ℕ
number [] = 0
number (b ∷ bs) = (if b then 1 else 0) + 2 * number bs

abbrev words : ℕ → Bitmap → List ℕ
words zero b = []
words (suc n) b = number (take 32 b) ∷ words n (drop 32 b)

unfoldable pub pack : Bitmap → Packed
pack b = record { bit_cnt = length b; bits = words (elem_cnt (length b)) b }

test_bit-number : (bs : List Bool) (j : ℕ) → test_bit j (number bs) ≡ get_or bs j false
test_bit-number [] j = test_bit-zero j
test_bit-number (true ∷ bs) zero = ground arith
test_bit-number (false ∷ bs) zero = ground arith
test_bit-number (true ∷ bs) (suc j) =
    let half : (1 + 2 * number bs) / 2 ≡ number bs = omega arith in rw half (test_bit-number bs j)
test_bit-number (false ∷ bs) (suc j) =
    let half : (0 + 2 * number bs) / 2 ≡ number bs = omega arith in rw half (test_bit-number bs j)

number_small : (k : ℕ) (bs : List Bool) → number (take k bs) < 2 ^ k
number_small zero bs = omega arith
number_small (suc k) [] = omega (arith, number_small k [])
number_small (suc k) (true ∷ bs) = omega (arith, number_small k bs)
number_small (suc k) (false ∷ bs) = omega (arith, number_small k bs)

get_or-take :
    (k : ℕ) (bs : List Bool) (i : ℕ) → i < k → get_or (take k bs) i false ≡ get_or bs i false
get_or-take zero bs i h = absurd (omega arith)
get_or-take (suc k) [] i h = refl
get_or-take (suc k) (b ∷ bs) zero h = refl
get_or-take (suc k) (b ∷ bs) (suc i) h = get_or-take k bs i (omega arith)

get_or-drop :
    (k : ℕ) (bs : List Bool) (i : ℕ) → get_or (drop k bs) i false ≡ get_or bs (k + i) false
get_or-drop zero bs i = ap (λ (n : ℕ). get_or bs n false) (omega arith)
get_or-drop (suc k) [] i = refl
get_or-drop (suc k) (b ∷ bs) i =
    let shift : suc k + i ≡ suc (k + i) = omega arith in rw shift (get_or-drop k bs i)

length-words : (n : ℕ) (b : Bitmap) → length (words n b) ≡ n
length-words zero b = refl
length-words (suc n) b = ap suc (length-words n (drop 32 b))

words-bit :
    (n : ℕ) (b : Bitmap) (i j : ℕ)
    → i < n
    → j < 32
    → test_bit j (get_or (words n b) i 0) ≡ bit b (32 * i + j)
words-bit zero b i j h h' = absurd (omega arith)
words-bit (suc n) b zero j h h' =
    test_bit-number (take 32 b) j ∙ get_or-take 32 b j h' ∙ ap (bit b) (omega arith)
words-bit (suc n) b (suc i) j h h' =
    words-bit n (drop 32 b) i j (omega arith) h'
    ∙ get_or-drop 32 b (32 * i + j)
    ∙ ap (bit b) (omega arith)

words_small : (n : ℕ) (b : Bitmap) (i : ℕ) → get_or (words n b) i 0 < 2 ^ 32
words_small zero b i = omega arith
words_small (suc n) b zero = number_small 32 b
words_small (suc n) b (suc i) = words_small n (drop 32 b) i

pub pack_small : (b : Bitmap) (i : ℕ) → get_or ((pack b).bits) i 0 < 2 ^ 32
unfolding pack
pack_small b i = words_small (elem_cnt (length b)) b i

pub pack-Packs : (b : Bitmap) → length b + 31 < 2 ^ 32 → Packs (pack b) b
unfolding pack
pack-Packs b h = record {
  size = refl;
  room = omega (arith, length-words (elem_cnt (length b)) b);
  agree = λ i q.
      words-bit (elem_cnt (length b)) b (i / 32) (i % 32) (omega arith) (omega arith)
      ∙ ap (bit b) (omega arith);
}

pub pack-size : (b : Bitmap) → ((pack b).bit_cnt) ≡ length b
unfolding pack
pack-size b = refl
