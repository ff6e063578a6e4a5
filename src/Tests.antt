-- ===== src/Tests.antt =====
-- The disks, maps and files that the runs are on.
mod CacheRuns
mod MapRuns
mod SavedRuns
mod PackedRuns
mod FileRuns
mod OpenRuns
mod SleepRuns
mod DirRuns
mod RemoveRuns
mod PathRuns
mod ProcessRuns
mod WaitRuns
mod SynchRuns
mod BTreeRuns
mod FsRuns
mod ArgumentsRuns
use os_labratory_spring.Prelude.{
  ℕ, zero, suc, ◌+◌, ◌-◌, ◌≤◌, ◌<◌, ◌≡◌, ◌≢◌, refl, Bool, true, false, List, [], ◌∷◌, length, ◌==◌,
  if◌then◌else◌, Result, ok, arith, none, some, ℕ_discrete,
}
use os_labratory_spring.Bitmap.{Bitmap, bit}
use os_labratory_spring.Device.{Block, Device, written}
use os_labratory_spring.Cache.{Entry, Cache}
use os_labratory_spring.Cache.View.{slot, Distinct}
use os_labratory_spring.Cache.Valid.{IsValid}
use os_labratory_spring.Inode.{Inode}
use os_labratory_spring.Inode.Expand.{Store}

-- Sixteen sectors; each byte of a sector is its number.
abbrev pub disk : Device
disk = record { size = 16; stored = λ s _. s }

-- Sector 5 is cached, and its bytes have changed.
abbrev pub changed : Entry
changed = record { block = λ _. 99; sector = 5; dirty = true; accessed = true; open_cnt = 0 }

abbrev pub one_entry : Cache
one_entry = record { entries = changed ∷ []; size = 1; dev = disk }

pub one_entry-IsValid : IsValid one_entry
one_entry-IsValid = record {
  counted = refl;
  bounded = omega arith;
  coherent = record {
    distinct = (refl, tt);
    in_range = λ t x e. ground arith;
    clean = λ t b e. ground arith;
  };
}

-- A cache of open entries over a larger device.
abbrev pub wide_disk : Device
wide_disk = record { size = 80; stored = λ s _. s }

abbrev pub busy_entries : ℕ → List Entry
busy_entries zero = []
busy_entries (suc n) =
    record { block = λ _. n; sector = n; dirty = false; accessed = true; open_cnt = 1 }
    ∷ busy_entries n

abbrev pub busy : Cache
busy = record { entries = busy_entries 64; size = 64; dev = wide_disk }

-- A map that is saved to sector 2: a write of it that the cache does not see.
abbrev pub map_block : Bitmap → Block
map_block b k = if bit b k then 1 else 0

abbrev pub map_write : Bitmap → Cache → Result (Bool × Cache)
map_write b s = ok (true, record s { dev = written s.dev 2 (map_block b) })

-- Sectors 0 to 2 are in use, and nothing is cached.
abbrev pub few_used : Bitmap
few_used =
    true ∷ true ∷ true ∷ false ∷ false ∷ false ∷ false ∷ false ∷ false ∷ false ∷ false ∷ false
    ∷ false ∷ false ∷ false ∷ false ∷ []

abbrev pub store : Store
store = record {
  bits = few_used;
  open_file = true;
  disk = record { entries = []; size = 0; dev = disk };
}

-- A file of 600 bytes in sectors 2 and 3, and one with no sector.
abbrev pub empty_file : Inode
empty_file = record {
  sector = 1;
  open_cnt = 1;
  removed = false;
  deny_write_cnt = 0;
  length = 0;
  read_length = 0;
  direct_index = 0;
  indirect_index = 0;
  double_indirect_index = 0;
  isdir = false;
  parent = 1;
  ptr = λ k. k + 2;
}

abbrev pub small_file : Inode
small_file = record empty_file { length = 600; read_length = 600; direct_index = 2 }
