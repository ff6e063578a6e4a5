-- ===== src/Tests/OpenRuns.antt =====
-- A run of closing a file and opening it again.
use os_labratory_spring.Prelude.{◌≡◌, refl, true, some, [], ◌∷◌, ok, arith}
use os_labratory_spring.Inode.{Inode}
use os_labratory_spring.Inode.Expand.{Store}
use os_labratory_spring.Inode.Open.{inode_open, inode_close, reopen, remove_at}
use os_labratory_spring.Inode.Open.Disk.{IsStorable, Restored, inode_open-inode_close}
use os_labratory_spring.Tests.{store, map_write, small_file}

small_file-IsStorable : IsStorable small_file
small_file-IsStorable = record {
  length = omega arith;
  direct = omega arith;
  indirect = omega arith;
  double = omega arith;
  parent = omega arith;
  ptr = λ k lt. omega arith;
}

-- An inode of another sector, which is open.
abbrev low_sector : Inode
low_sector = record small_file { sector = 0 }

inode_open-inode_close_example :
    (store' : Store) × (inode' : Inode) × (inode_close map_write store
        (low_sector ∷ small_file ∷ [])
        1
      ≡ ok (store', low_sector ∷ []))
    × (inode_open true store'.disk.dev (low_sector ∷ []) 1 ≡ ok (some 0, inode' ∷ low_sector ∷ []))
    × Restored small_file inode'
unfolding remove_at reopen
inode_open-inode_close_example =
    inode_open-inode_close map_write store small_file (low_sector ∷ small_file ∷ []) 1 refl refl
      refl (omega arith) small_file-IsStorable refl
