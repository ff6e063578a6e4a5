-- ===== src/Inode.antt =====
-- filesys/inode.c: `struct inode`, and how a byte of a file is found.
pub mod Data
pub mod Layout
pub mod Copy
pub mod Read
pub mod Write
pub mod Expand
pub mod WriteAt
pub mod Open
pub mod Create
use os_labratory_spring.Prelude.{
  ℕ, zero, suc, ◌+◌, ◌-◌, ◌*◌, ◌/◌, ◌%◌, ◌^◌, Bool, true, false, ltb, leb, ◌==◌, if◌then◌else◌,
  Result, ok, ◌>>=◌,
}
use os_labratory_spring.Device.{Device, block_sector_size, block_read}
use os_labratory_spring.Words.{word}

abbrev pub direct_blocks : ℕ
direct_blocks = 4

abbrev pub indirect_blocks : ℕ
indirect_blocks = 9

abbrev pub double_indirect_blocks : ℕ
double_indirect_blocks = 1

-- INDIRECT_INDEX and DOUBLE_INDIRECT_INDEX, places in `ptr`.
abbrev pub indirect_index_start : ℕ
indirect_index_start = 4

abbrev pub double_indirect_index_start : ℕ
double_indirect_index_start = 13

abbrev pub indirect_block_ptrs : ℕ
indirect_block_ptrs = 128

abbrev pub inode_block_ptrs : ℕ
inode_block_ptrs = 14

abbrev pub max_file_size : ℕ
max_file_size = 8980480

-- The bytes that one indirect block stands for, and those of the direct and of the direct and
-- indirect blocks together.
abbrev pub indirect_bytes : ℕ
indirect_bytes = block_sector_size * indirect_block_ptrs

abbrev pub direct_bytes : ℕ
direct_bytes = block_sector_size * direct_blocks

abbrev pub single_bytes : ℕ
single_bytes = block_sector_size * (direct_blocks + indirect_blocks * indirect_block_ptrs)

-- `struct inode`, but for the list element and the lock.  An `off_t` is a number at least 0.
pub record Inode : Type 0 where
  pub sector : ℕ
  pub open_cnt : ℕ
  pub removed : Bool
  pub deny_write_cnt : ℕ
  pub length : ℕ
  pub read_length : ℕ
  pub direct_index : ℕ
  pub indirect_index : ℕ
  pub double_indirect_index : ℕ
  pub isdir : Bool
  pub parent : ℕ
  pub ptr : ℕ → ℕ

-- `DIV_ROUND_UP`
abbrev pub div_round_up : ℕ → ℕ → ℕ
div_round_up x step = (x + step - 1) / step

unfoldable pub bytes_to_data_sectors : ℕ → ℕ
bytes_to_data_sectors size = div_round_up size block_sector_size

unfoldable pub bytes_to_indirect_sectors : ℕ → ℕ
bytes_to_indirect_sectors size =
    if leb size direct_bytes then 0 else div_round_up (size - direct_bytes) indirect_bytes

unfoldable pub bytes_to_double_indirect_sector : ℕ → ℕ
bytes_to_double_indirect_sector size = if leb size single_bytes then 0 else double_indirect_blocks

-- `byte_to_sector`; the last line is `return -1` as a `block_sector_t`.
unfoldable pub byte_to_sector : Inode → Device → ℕ → ℕ → Result ℕ
unfolding block_read
byte_to_sector inode dev length pos =
    if ltb pos length
    then if ltb pos direct_bytes
      then ok (inode.ptr (pos / block_sector_size))
      else if ltb pos single_bytes
      then (do
        b ← block_read dev (inode.ptr ((pos - direct_bytes) / indirect_bytes + direct_blocks))
        ok (word b ((pos - direct_bytes) % indirect_bytes / block_sector_size)))
      else (do
        b ← block_read dev (inode.ptr double_indirect_index_start)
        b' ← block_read dev (word b ((pos - single_bytes) / indirect_bytes))
        ok (word b' ((pos - single_bytes) % indirect_bytes / block_sector_size)))
    else ok (2 ^ 32 - 1)
