-- ===== src/Device.antt =====
-- devices/block.c: the device `fs_device`, a sequence of sectors.  What a driver stores is a
-- function of the sector; the counters for `block_print_stats` are left out, and the device has
-- the role BLOCK_FILESYS, so it is not BLOCK_FOREIGN.
use os_labratory_spring.Prelude.{
  ℕ, ◌<◌, ◌≡◌, ltb, ◌==◌, if◌then◌else◌, Result, ok, ◌>>◌, assert, arith,
}

-- BLOCK_SECTOR_SIZE bytes, by their offset in the sector.
abbrev pub Block : Type 0
Block = ℕ → ℕ

abbrev pub block_sector_size : ℕ
block_sector_size = 512

pub record Device : Type 0 where
  pub size : ℕ
  pub stored : ℕ → Block

abbrev pub update : (ℕ → Block) → ℕ → Block → ℕ → Block
update f s b t = if s == t then b else f t

-- `check_sector`
abbrev pub check_sector : Device → ℕ → Result (Unit {0})
check_sector d sector = assert (ltb sector d.size)

unfoldable pub block_read : Device → ℕ → Result Block
block_read d sector = do check_sector d sector; ok (d.stored sector)

unfoldable pub block_write : Device → ℕ → Block → Result Device
block_write d sector b = do
  check_sector d sector
  ok (record d { stored = update d.stored sector b })

pub block_read-lt : (d : Device) (s : ℕ) → s < d.size → block_read d s ≡ ok (d.stored s)
unfolding block_read
block_read-lt d s h = ground arith

-- The device after a write of `b` to sector `s`.
abbrev pub written : Device → ℕ → Block → Device
written d s b = record d { stored = update d.stored s b }

pub block_write-lt :
    (d : Device) (s : ℕ) (b : Block) → s < d.size → block_write d s b ≡ ok (written d s b)
unfolding block_write
block_write-lt d s b h = ground arith
