-- ===== src/Bitmap/Packed.antt =====
-- lib/kernel/bitmap.c as it is stored: the bits in words of 32, `unsigned long` on the i386.
-- The names are those of the source, as for the lists of bits in Bitmap.
pub mod Refines
pub mod Scans
pub mod Created
pub mod Files
pub mod RoundTrip
use Prim.Native.Nat.{bit_and, bit_or, bit_xor}
use os_labratory_spring.Prelude.{
  ℕ, zero, suc, ◌+◌, ◌-◌, ◌*◌, ◌/◌, ◌%◌, ◌^◌, ◌≡◌, Bool, true, false, not, Option, none, some, List,
  [], get_or, set, ltb, leb, ◌==◌, same, if◌then◌else◌, Result, ok, panic, ◌>>=◌, ◌>>◌, assert,
}

-- `struct bitmap`: the words behind the bits that are in use are whatever memory held.
pub record Packed : Type 0 where
  pub bit_cnt : ℕ
  pub bits : List ℕ

abbrev pub elem_idx : ℕ → ℕ
elem_idx bit_idx = bit_idx / 32

abbrev pub bit_mask : ℕ → ℕ
bit_mask bit_idx = 2 ^ (bit_idx % 32)

-- `DIV_ROUND_UP`, whose sum wraps around.
abbrev pub elem_cnt : ℕ → ℕ
elem_cnt bit_cnt = (bit_cnt + 32 - 1) % 2 ^ 32 / 32

abbrev pub byte_cnt : ℕ → ℕ
byte_cnt bit_cnt = 4 * elem_cnt bit_cnt % 2 ^ 32

-- The word that holds a bit, and the map with another word in its place; past the end, where the
-- code would reach other memory, a word is read as 0 and not stored.
abbrev pub elem : Packed → ℕ → ℕ
elem b bit_idx = get_or b.bits (elem_idx bit_idx) 0

abbrev pub with_elem : Packed → ℕ → ℕ → Packed
with_elem b bit_idx w = record b { bits = set b.bits (elem_idx bit_idx) w }

unfoldable pub bitmap_mark : Packed → ℕ → Packed
bitmap_mark b bit_idx = with_elem b bit_idx (bit_or (elem b bit_idx) (bit_mask bit_idx))

-- `~mask` is 2 ^ 32 - 1 less the mask.
unfoldable pub bitmap_reset : Packed → ℕ → Packed
bitmap_reset b bit_idx =
    with_elem b bit_idx (bit_and (elem b bit_idx) (2 ^ 32 - 1 - bit_mask bit_idx))

unfoldable pub bitmap_flip : Packed → ℕ → Packed
bitmap_flip b bit_idx = with_elem b bit_idx (bit_xor (elem b bit_idx) (bit_mask bit_idx))

unfoldable pub bitmap_set : Packed → ℕ → Bool → Result Packed
unfolding bitmap_mark bitmap_reset
bitmap_set b idx value = do
  assert (ltb idx b.bit_cnt)
  if value then ok (bitmap_mark b idx) else ok (bitmap_reset b idx)

unfoldable pub bitmap_test : Packed → ℕ → Result Bool
bitmap_test b idx = do
  assert (ltb idx b.bit_cnt)
  ok (not (bit_and (elem b idx) (bit_mask idx) == 0))

-- The loops take the rounds left, as those on lists of bits do.
unfoldable pub set_from : Packed → ℕ → ℕ → Bool → Result Packed
set_from b i zero value = ok b
set_from b i (suc n) value = do b' ← bitmap_set b i value; set_from b' (i + 1) n value

abbrev pub range_ok : Packed → ℕ → ℕ → Result (Unit {0})
range_ok b start cnt = do
  assert (leb start b.bit_cnt)
  assert (leb ((start + cnt) % 2 ^ 32) b.bit_cnt)

unfoldable pub set_multiple : Packed → ℕ → ℕ → Bool → Result Packed
unfolding set_from bitmap_set
set_multiple b start cnt value = do range_ok b start cnt; set_from b start cnt value

unfoldable pub bitmap_set_all : Packed → Bool → Result Packed
unfolding set_multiple
bitmap_set_all b value = set_multiple b 0 b.bit_cnt value

unfoldable pub contains_from : Packed → ℕ → ℕ → Bool → Result Bool
contains_from b i zero value = ok false
contains_from b i (suc n) value = do
  t ← bitmap_test b i
  if same t value then ok true else contains_from b (i + 1) n value

unfoldable pub bitmap_contains : Packed → ℕ → ℕ → Bool → Result Bool
unfolding contains_from bitmap_test
bitmap_contains b start cnt value = do range_ok b start cnt; contains_from b start cnt value

-- `none` is BITMAP_ERROR.
unfoldable pub scan_from : Packed → ℕ → ℕ → ℕ → Bool → Result (Option ℕ)
scan_from b i zero cnt value = ok none
scan_from b i (suc n) cnt value = do
  c ← bitmap_contains b i cnt (not value)
  if c then scan_from b (i + 1) n cnt value else ok (some i)

unfoldable pub bitmap_scan : Packed → ℕ → ℕ → Bool → Result (Option ℕ)
unfolding scan_from bitmap_contains
bitmap_scan b start cnt value = do
  assert (leb start b.bit_cnt)
  if leb cnt b.bit_cnt then scan_from b start (b.bit_cnt - cnt + 1 - start) cnt value else ok none

unfoldable pub flip_found : Packed → ℕ → Bool → Option ℕ → Result (Option ℕ × Packed)
flip_found b cnt value none = ok (none, b)
flip_found b cnt value (some idx) = do b' ← set_multiple b idx cnt (not value); ok (some idx, b')

unfoldable pub scan_and_flip : Packed → ℕ → ℕ → Bool → Result (Option ℕ × Packed)
unfolding bitmap_scan flip_found set_multiple
scan_and_flip b start cnt value = do
  found ← bitmap_scan b start cnt value
  flip_found b cnt value found

unfoldable pub cleared : ℕ → List ℕ → Result (Option Packed)
unfolding bitmap_set_all
cleared cnt words = do
  b ← bitmap_set_all (record { bit_cnt = cnt; bits = words }) false
  ok (some b)

-- `if (b->bits != NULL || bit_cnt == 0)`, with the words that `malloc` gave.
unfoldable pub fill_created : ℕ → Option (List ℕ) → Result (Option Packed)
unfolding cleared
fill_created cnt (some words) = cleared cnt words
fill_created cnt none = if cnt == 0 then cleared cnt [] else ok none

-- `room` tells whether `malloc` finds the struct; `malloc` gives the words, which hold anything.
unfoldable pub bitmap_create : Bool → (ℕ → Option (List ℕ)) → ℕ → Result (Option Packed)
unfolding fill_created
bitmap_create room malloc cnt = if room then fill_created cnt (malloc (byte_cnt cnt)) else ok none

-- `sizeof (struct bitmap)` is 8.
abbrev pub bitmap_buf_size : ℕ → ℕ
bitmap_buf_size bit_cnt = 8 + byte_cnt bit_cnt

-- `words` is what the block holds behind the struct.
unfoldable pub bitmap_create_in_buf : ℕ → List ℕ → ℕ → Result Packed
unfolding bitmap_set_all
bitmap_create_in_buf bit_cnt words block_size = do
  assert (leb (bitmap_buf_size bit_cnt) block_size)
  bitmap_set_all (record { bit_cnt = bit_cnt; bits = words }) false
