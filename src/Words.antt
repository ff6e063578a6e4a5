-- ===== src/Words.antt =====
-- The 32-bit words of a sector: `struct indirect_block` and `struct inode_disk` in memory, little
-- endian.
use os_labratory_spring.Prelude.{ℕ, ◌+◌, ◌*◌, ◌/◌, ◌%◌, ◌^◌, ◌<◌, ◌≡◌, arith}
use os_labratory_spring.Device.{Block}

-- The word at index `i` of a sector that is read as an array of `uint32_t`.
unfoldable pub word : Block → ℕ → ℕ
word b i = b (4 * i) + 256 * b (4 * i + 1) + 65536 * b (4 * i + 2) + 16777216 * b (4 * i + 3)

-- The `r`-th byte of a word.
abbrev pub byte_of : ℕ → ℕ → ℕ
byte_of w r = w / 256 ^ r % 256

-- The bytes of an array of `uint32_t`.
unfoldable pub block_of : (ℕ → ℕ) → Block
block_of w k = byte_of (w (k / 4)) (k % 4)

pub four_bytes :
    (w : ℕ)
    → w < 2 ^ 32
    → w / 1 % 256
        + 256 * (w / 256 % 256)
        + 65536 * (w / 65536 % 256)
        + 16777216 * (w / 16777216 % 256)
      ≡ w
four_bytes w h = omega arith

block_of-byte : (w : ℕ → ℕ) (i r : ℕ) → r < 4 → block_of w (4 * i + r) ≡ byte_of (w i) r
unfolding block_of
block_of-byte w i r h =
    let q : (4 * i + r) / 4 ≡ i = omega arith in
    let m : (4 * i + r) % 4 ≡ r = omega arith in rw (q, m)

block_of-first : (w : ℕ → ℕ) (i : ℕ) → block_of w (4 * i) ≡ w i / 1 % 256
block_of-first w i =
    let e : 4 * i + 0 ≡ 4 * i = omega arith in rw (← e) (block_of-byte w i 0 (omega arith))

-- A word below 2 ^ 32 that is written to a sector is read back.
pub word-block_of : (w : ℕ → ℕ) (i : ℕ) → w i < 2 ^ 32 → word (block_of w) i ≡ w i
unfolding word
word-block_of w i h = omega (
  arith,
  block_of-first w i,
  block_of-byte w i 1 (omega arith),
  block_of-byte w i 2 (omega arith),
  block_of-byte w i 3 (omega arith),
  four_bytes (w i) h,
)
