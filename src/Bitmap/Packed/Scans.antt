-- ===== src/Bitmap/Packed/Scans.antt =====
-- The functions of lib/kernel/bitmap.c on several bits do on the words what they do on the bits.
use os_labratory_spring.Prelude.{
  ◌%◌, ◌^◌, ℕ, zero, suc, ◌+◌, ◌-◌, ◌≡◌, refl, Bool, false, not, Option, none, some, length, leb,
  ok, panic, inl, inr, Bool-cases, leb→le,
}
use os_labratory_spring.Bitmap
use os_labratory_spring.Bitmap.{Bitmap, bit}
use os_labratory_spring.Bitmap.Scan.{scan-cases}
use os_labratory_spring.Bitmap.Packed
use os_labratory_spring.Bitmap.Packed.{Packed, elem, byte_cnt, elem_cnt}
use os_labratory_spring.Bitmap.Packed.Refines.{
  Packs, Both, Both.returned, Both.panicked, Both-bind, bitmap_test-Packs, bitmap_set-Packs,
}

set_from-Packs :
    (n : ℕ) (p : Packed) (b : Bitmap) (i : ℕ) (value : Bool)
    → Packs p b
    → Both Packs (Packed.set_from p i n value) (Bitmap.set_from b i n value)
unfolding Packed.set_from Bitmap.set_from
set_from-Packs zero p b i value h = returned h
set_from-Packs (suc n) p b i value h =
    Both-bind (λ p'. Packed.set_from p' (i + 1) n value) (λ b'. Bitmap.set_from b' (i + 1) n value)
      (bitmap_set-Packs p b i h value) (λ p' b' h'. set_from-Packs n p' b' (i + 1) value h')

pub set_multiple-Packs :
    (p : Packed) (b : Bitmap) (start cnt : ℕ) (value : Bool)
    → Packs p b
    → Both Packs (Packed.set_multiple p start cnt value) (Bitmap.set_multiple b start cnt value)
unfolding Packed.set_multiple Bitmap.set_multiple
set_multiple-Packs p b start cnt value h = rw h.size (elim (Bool-cases (leb start p.bit_cnt)) [
  | inl low ↦ rw low (elim (Bool-cases (leb ((start + cnt) % 2 ^ 32) p.bit_cnt)) [
    | inl high ↦ rw high (set_from-Packs cnt p b start value h)
    | inr high ↦ rw high panicked
  ])
  | inr low ↦ rw low panicked
])

contains_from-Packs :
    (n : ℕ) (p : Packed) (b : Bitmap) (i : ℕ) (value : Bool)
    → Packs p b
    → Packed.contains_from p i n value ≡ Bitmap.contains_from b i n value
unfolding Packed.contains_from Bitmap.contains_from
contains_from-Packs zero p b i value h = refl
contains_from-Packs (suc n) p b i value h =
    rw (bitmap_test-Packs p b i h, contains_from-Packs n p b (i + 1) value h) refl

bitmap_contains-Packs :
    (p : Packed) (b : Bitmap) (start cnt : ℕ) (value : Bool)
    → Packs p b
    → Packed.bitmap_contains p start cnt value ≡ Bitmap.bitmap_contains b start cnt value
unfolding Packed.bitmap_contains Bitmap.bitmap_contains
bitmap_contains-Packs p b start cnt value h =
    rw (h.size, contains_from-Packs cnt p b start value h) refl

scan_from-Packs :
    (n : ℕ) (p : Packed) (b : Bitmap) (i cnt : ℕ) (value : Bool)
    → Packs p b
    → Packed.scan_from p i n cnt value ≡ Bitmap.scan_from b i n cnt value
unfolding Packed.scan_from Bitmap.scan_from
scan_from-Packs zero p b i cnt value h = refl
scan_from-Packs (suc n) p b i cnt value h =
    rw (bitmap_contains-Packs p b i cnt (not value) h, scan_from-Packs n p b (i + 1) cnt value h)
      refl

bitmap_scan-Packs :
    (p : Packed) (b : Bitmap) (start cnt : ℕ) (value : Bool)
    → Packs p b
    → Packed.bitmap_scan p start cnt value ≡ Bitmap.bitmap_scan b start cnt value
unfolding Packed.bitmap_scan Bitmap.bitmap_scan
bitmap_scan-Packs p b start cnt value h =
    rw (h.size, scan_from-Packs (p.bit_cnt - cnt + 1 - start) p b start cnt value h) refl

-- What `bitmap_scan_and_flip` leaves: the same index, and words that hold the bits.
pub record Scanned (found : Option ℕ × Packed) (found' : Option ℕ × Bitmap) : Type 0 where
  pub index : found.0 ≡ found'.0
  pub map : Packs found.1 found'.1

flip_found-Packs :
    (p : Packed) (b : Bitmap) (cnt : ℕ) (value : Bool) (found : Option ℕ)
    → Packs p b
    → Both Scanned (Packed.flip_found p cnt value found) (Bitmap.flip_found b cnt value found)
unfolding Packed.flip_found Bitmap.flip_found
flip_found-Packs p b cnt value none h = returned (record { index = refl; map = h })
flip_found-Packs p b cnt value (some idx) h =
    Both-bind (λ p'. ok (some idx, p')) (λ b'. ok (some idx, b'))
      (set_multiple-Packs p b idx cnt (not value) h)
      (λ p' b' h'. returned (record { index = refl; map = h' }))

bitmap_scan-past :
    (b : Bitmap) (start cnt : ℕ) (value : Bool)
    → leb start (length b) ≡ false
    → Bitmap.bitmap_scan b start cnt value ≡ panic
unfolding Bitmap.bitmap_scan
bitmap_scan-past b start cnt value past = rw past refl

-- On words that hold the bits, `bitmap_scan_and_flip` either panics as it does on the bits, or
-- gives the same index and leaves words that hold the bits it leaves.
pub scan_and_flip-Packs :
    (p : Packed) (b : Bitmap) (start cnt : ℕ) (value : Bool)
    → Packs p b
    → Both Scanned (Packed.scan_and_flip p start cnt value) (Bitmap.scan_and_flip b start cnt value)
unfolding Packed.scan_and_flip Bitmap.scan_and_flip
scan_and_flip-Packs p b start cnt value h =
    rw (bitmap_scan-Packs p b start cnt value h) (elim (Bool-cases (leb start (length b))) [
      | inl low ↦ elim (scan-cases b start cnt value (leb→le start (length b) low)) [
        | inl (i, found, first) ↦ rw found (flip_found-Packs p b cnt value (some i) h)
        | inr (found, none_at) ↦ rw found (flip_found-Packs p b cnt value none h)
      ]
      | inr high ↦ rw (bitmap_scan-past b start cnt value high) panicked
    ])
