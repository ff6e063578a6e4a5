-- ===== src/Bitmap/Packed/Files.antt =====
-- File input and output of lib/kernel/bitmap.c.
use Prim.Native.Nat.{bit_and}
use os_labratory_spring.Prelude.{
  ℕ, ◌+◌, ◌-◌, ◌%◌, ◌^◌, Bool, true, List, [], ◌∷◌, get_or, set, ltb, ◌==◌, if◌then◌else◌, Result,
  ok, ◌>>=◌,
}
use os_labratory_spring.Words.{word, block_of}
use os_labratory_spring.Bitmap.Packed.{Packed, elem_cnt, byte_cnt}

-- `(elem_type) -1` is 2 ^ 32 - 1.
abbrev pub last_mask : Packed → ℕ
last_mask b =
    let last_bits = b.bit_cnt % 32 in if last_bits == 0 then 2 ^ 32 - 1 else 2 ^ last_bits - 1

-- The bytes of the words, from `b->bits` on, and the words that bytes from there on make up.
abbrev pub packed_bytes : Packed → ℕ → ℕ
packed_bytes b = block_of (λ i. get_or b.bits i 0)

unfoldable pub with_bytes : (ℕ → ℕ) → ℕ → List ℕ → List ℕ
with_bytes buffer i [] = []
with_bytes buffer i (w ∷ ws) = word buffer i ∷ with_bytes buffer (i + 1) ws

-- `b->bits[elem_cnt (b->bit_cnt) - 1] &= last_mask (b)`, where the index wraps around.
unfoldable pub mask_last : Packed → Packed
mask_last b =
    let last = (elem_cnt b.bit_cnt + 2 ^ 32 - 1) % 2 ^ 32 in
    record b { bits = set b.bits last (bit_and (get_or b.bits last 0) (last_mask b)) }

-- `file_read_at` fills a buffer, which holds bytes before; a size and an offset go in, and the count
-- of bytes comes out.
module _ {F : Type 0} (file_read_at : F → (ℕ → ℕ) → ℕ → ℕ → Result (ℕ × (ℕ → ℕ) × F)) where
  unfoldable pub bitmap_read : Packed → F → Result (Bool × Packed × F)
  unfolding mask_last with_bytes
  bitmap_read b file =
      if ltb 0 b.bit_cnt
      then (do
        (n, buffer, file') ← file_read_at file (packed_bytes b) (byte_cnt b.bit_cnt) 0
        let b' = mask_last (record b { bits = with_bytes buffer 0 b.bits }) in
            ok (n == byte_cnt b.bit_cnt, b', file'))
      else ok (true, b, file)

-- `file_write_at` takes the bytes of a buffer, with a size and an offset.
module _ {F : Type 0} (file_write_at : F → (ℕ → ℕ) → ℕ → ℕ → Result (ℕ × F)) where
  unfoldable pub bitmap_write : Packed → F → Result (Bool × F)
  bitmap_write b file = do
    (n, file') ← file_write_at file (packed_bytes b) (byte_cnt b.bit_cnt) 0
    ok (n == byte_cnt b.bit_cnt, file')
