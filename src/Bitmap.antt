-- ===== src/Bitmap.antt =====
-- lib/kernel/bitmap.c at the level of bits.
pub mod Loops
pub mod Scan
pub mod Count
pub mod Digits
pub mod Packed
use os_labratory_spring.Prelude.{
  ◌%◌, ◌^◌, ℕ, zero, suc, ◌+◌, ◌-◌, ◌≡◌, Bool, true, false, not, ◌&&◌, Option, none, some, List,
  length, get_or, set, replicate, ltb, leb, same, if◌then◌else◌, Result, ok, panic, ◌>>=◌, ◌>>◌,
  assert,
}

-- `struct bitmap`: `bit_cnt` is the length of the list.
abbrev pub Bitmap : Type 0
Bitmap = List Bool

-- `bitmap_create`: every bit is false.
unfoldable pub create : ℕ → Bitmap
create bit_cnt = replicate bit_cnt false

-- The bit that `bitmap_test` reads, its ASSERT granted.
abbrev pub bit : Bitmap → ℕ → Bool
bit b i = get_or b i false

unfoldable pub bitmap_test : Bitmap → ℕ → Result Bool
bitmap_test b idx = do assert (ltb idx (length b)); ok (bit b idx)

unfoldable pub bitmap_set : Bitmap → ℕ → Bool → Result Bitmap
bitmap_set b idx value = do assert (ltb idx (length b)); ok (set b idx value)

-- `bitmap_mark` has no ASSERT; a bit past the end, in the words or not, is not one of the map.
unfoldable pub bitmap_mark : Bitmap → ℕ → Bitmap
bitmap_mark b bit_idx = set b bit_idx true

-- The `for` loops below take the rounds left; `i` is the bit of the next round.
unfoldable pub set_from : Bitmap → ℕ → ℕ → Bool → Result Bitmap
set_from b i zero value = ok b
set_from b i (suc n) value = do b' ← bitmap_set b i value; set_from b' (i + 1) n value

-- The two ASSERTs on the range that the functions on several bits share; the sum wraps around.
abbrev pub range_ok : Bitmap → ℕ → ℕ → Result (Unit {0})
range_ok b start cnt = do
  assert (leb start (length b))
  assert (leb ((start + cnt) % 2 ^ 32) (length b))

unfoldable pub set_multiple : Bitmap → ℕ → ℕ → Bool → Result Bitmap
unfolding set_from bitmap_set
set_multiple b start cnt value = do range_ok b start cnt; set_from b start cnt value

unfoldable pub contains_from : Bitmap → ℕ → ℕ → Bool → Result Bool
contains_from b i zero value = ok false
contains_from b i (suc n) value = do
  t ← bitmap_test b i
  if same t value then ok true else contains_from b (i + 1) n value

unfoldable pub bitmap_contains : Bitmap → ℕ → ℕ → Bool → Result Bool
unfolding contains_from bitmap_test
bitmap_contains b start cnt value = do range_ok b start cnt; contains_from b start cnt value

unfoldable pub bitmap_all : Bitmap → ℕ → ℕ → Result Bool
unfolding bitmap_contains
bitmap_all b start cnt = do c ← bitmap_contains b start cnt false; ok (not c)

-- `none` is BITMAP_ERROR.
unfoldable pub scan_from : Bitmap → ℕ → ℕ → ℕ → Bool → Result (Option ℕ)
scan_from b i zero cnt value = ok none
scan_from b i (suc n) cnt value = do
  c ← bitmap_contains b i cnt (not value)
  if c then scan_from b (i + 1) n cnt value else ok (some i)

-- The loop runs from `start` to `last = bit_cnt - cnt`, both included.
unfoldable pub bitmap_scan : Bitmap → ℕ → ℕ → Bool → Result (Option ℕ)
unfolding scan_from bitmap_contains
bitmap_scan b start cnt value = do
  assert (leb start (length b))
  if leb cnt (length b) then scan_from b start (length b - cnt + 1 - start) cnt value else ok none

-- `if (idx != BITMAP_ERROR) bitmap_set_multiple (b, idx, cnt, !value)`.
unfoldable pub flip_found : Bitmap → ℕ → Bool → Option ℕ → Result (Option ℕ × Bitmap)
flip_found b cnt value none = ok (none, b)
flip_found b cnt value (some idx) = do b' ← set_multiple b idx cnt (not value); ok (some idx, b')

unfoldable pub scan_and_flip : Bitmap → ℕ → ℕ → Bool → Result (Option ℕ × Bitmap)
unfolding bitmap_scan flip_found set_multiple
scan_and_flip b start cnt value = do
  found ← bitmap_scan b start cnt value
  flip_found b cnt value found
