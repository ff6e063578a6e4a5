-- ===== src/FreeMap.antt =====
-- filesys/free-map.c: the map of the sectors in use, and the file that it is saved to.
pub mod Laws
pub mod Pack
pub mod Saved
use os_labratory_spring.Prelude.{
  ℕ, ◌≡◌, Bool, true, false, ◌&&◌, Option, none, some, length, if◌then◌else◌, Result, ok, panic,
  ◌>>=◌, ◌>>◌, assert,
}
use os_labratory_spring.Bitmap.{
  Bitmap, create, bitmap_mark, set_multiple, bitmap_all, scan_and_flip,
}

abbrev pub free_map_sector : ℕ
free_map_sector = 0

abbrev pub root_dir_sector : ℕ
root_dir_sector = 1

-- The static variable `free_map`, whether `free_map_file` is open (and not NULL), and the state
-- `S` of the disk that a write to that file changes.
pub record FreeMap (S : Type 0) : Type 0 where
  pub bits : Bitmap
  pub open_file : Bool
  pub disk : S

-- `free_map_init` over a device of `size` sectors; `mem` tells whether `bitmap_create` is given
-- memory.
unfoldable pub init : {S : Type 0} → Bool → ℕ → S → Result (FreeMap S)
unfolding create bitmap_mark
init mem size disk = do
  assert mem
  let bits = bitmap_mark (bitmap_mark (create size) free_map_sector) root_dir_sector
  ok (record { bits = bits; open_file = false; disk = disk })

-- What `free_map_allocate` leaves: the map, `*sectorp` and the value returned.
pub record Allocation (S : Type 0) : Type 0 where
  pub map : FreeMap S
  pub sector : ℕ
  pub success : Bool

-- `bitmap_write (free_map, free_map_file)` tells whether all of the map was written.
module _ {S : Type 0} (bitmap_write : Bitmap → S → Result (Bool × S)) where
  -- The branch on what `bitmap_write` returns: the sectors are released if it failed.
  unfoldable pub keep_allocated : FreeMap S → ℕ → ℕ → ℕ → Bool × S → Result (Allocation S)
  unfolding set_multiple
  keep_allocated fm sector cnt old (true, disk) =
      ok (record { map = record fm { disk = disk }; sector = sector; success = true })
  keep_allocated fm sector cnt old (false, disk) = do
    bits ← set_multiple fm.bits sector cnt false
    ok (record { map = record fm { bits = bits; disk = disk }; sector = old; success = false })

  -- The tests of `free_map_allocate` once the map is scanned.
  unfoldable pub allocate_found : FreeMap S → ℕ → ℕ → Option ℕ × Bitmap → Result (Allocation S)
  unfolding keep_allocated
  allocate_found fm cnt old (none, bits) =
      ok (record { map = record fm { bits = bits }; sector = old; success = false })
  allocate_found fm cnt old (some sector, bits) =
      if fm.open_file
      then (do
        saved ← bitmap_write bits fm.disk
        keep_allocated (record fm { bits = bits }) sector cnt old saved)
      else ok (record { map = record fm { bits = bits }; sector = sector; success = true })

  -- `free_map_allocate (cnt, sectorp)`, where `old` is the value in `*sectorp`.
  unfoldable pub allocate : FreeMap S → ℕ → ℕ → Result (Allocation S)
  unfolding allocate_found scan_and_flip
  allocate fm cnt old = do
    found ← scan_and_flip fm.bits 0 cnt false
    allocate_found fm cnt old found

  -- `free_map_release`; a write to a NULL file is a fault.
  unfoldable pub release : FreeMap S → ℕ → ℕ → Result (FreeMap S)
  unfolding bitmap_all set_multiple
  release fm sector cnt = do
    all ← bitmap_all fm.bits sector cnt
    assert all
    bits ← set_multiple fm.bits sector cnt false
    assert fm.open_file
    (_, disk) ← bitmap_write bits fm.disk
    ok (record fm { bits = bits; disk = disk })
