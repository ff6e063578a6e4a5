-- ===== src/Tests/PackedRuns.antt =====
-- Runs of the bitmap in words: 40 bits in two words, where bits 30 and 33 to 39 are free and the
-- second word has bits set that are not in use.
use os_labratory_spring.Prelude.{
  ℕ, zero, suc, ◌*◌, ◌<◌, ◌≡◌, refl, ◌⊎◌, true, false, Option, none, some, List, [], ◌∷◌, ok, arith,
  replicate, length-replicate, ◌≤◌, ap, length,
}
use os_labratory_spring.Bitmap
use os_labratory_spring.Bitmap.{bit}
use os_labratory_spring.Bitmap.Packed
use os_labratory_spring.Bitmap.Packed.{Packed, byte_cnt, bitmap_create, bitmap_flip}
use os_labratory_spring.Bitmap.Packed.Refines.{Packs, Both}
use os_labratory_spring.Bitmap.Packed.Scans.{Scanned, scan_and_flip-Packs}
use os_labratory_spring.Bitmap.Packed.Created.{
  unpacked, unpacked-Packs, Allocates, bitmap_create-Packs,
}

abbrev two_words : Packed
two_words = record { bit_cnt = 40; bits = 3221225471 ∷ 4278190081 ∷ [] }

scan_and_flip-Packs_example :
    Both Scanned
      (Packed.scan_and_flip two_words 3 4 false)
      (Bitmap.scan_and_flip (unpacked two_words) 3 4 false)
scan_and_flip-Packs_example =
    scan_and_flip-Packs two_words (unpacked two_words) 3 4 false
      (unpacked-Packs two_words (omega arith))

-- The first four free bits are those from 33 on: the second word gets 30 more.
flip_in_second :
    Packed.scan_and_flip two_words 3 4 false
    ≡ ok (some 33, record { bit_cnt = 40; bits = 3221225471 ∷ 4278190111 ∷ [] })
unfolding Packed.scan_and_flip Packed.bitmap_contains Packed.contains_from Packed.bitmap_test
flip_in_second = refl

flip_bit : bitmap_flip two_words 30 ≡ record { bit_cnt = 40; bits = 4294967295 ∷ 4278190081 ∷ [] }
unfolding bitmap_flip
flip_bit = refl

-- An allocator of words that are all 7.
abbrev sevens : ℕ → Option (List ℕ)
sevens zero = none
sevens (suc n) = some (replicate (suc n) 7)

sevens_enough : (n : ℕ) (words : List ℕ) → sevens n ≡ some words → n ≤ length words * 4
sevens_enough zero words e = absurd cc
sevens_enough (suc n) words e =
    let words_are : replicate (suc n) 7 ≡ words = cc in
    omega (arith, ap length words_are, length-replicate {A = ℕ} (suc n) 7)

sevens-Allocates : Allocates sevens
sevens-Allocates = record { enough = sevens_enough; no_bytes = refl }

bitmap_create-Packs_example :
    ((p : Packed) × (bitmap_create true sevens 40 ≡ ok (some p)) × Packs p (Bitmap.create 40))
    ⊎ ((bitmap_create true sevens 40 ≡ ok none)
        × ((true ≡ false) ⊎ ((0 < 40) × (sevens (byte_cnt 40) ≡ none))))
bitmap_create-Packs_example = bitmap_create-Packs true sevens 40 sevens-Allocates (omega arith)

abbrev other_words : Packed
other_words = record { bit_cnt = 40; bits = 7 ∷ 7 ∷ [] }
