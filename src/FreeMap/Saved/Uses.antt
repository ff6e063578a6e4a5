-- ===== src/FreeMap/Saved/Uses.antt =====
-- The free map, and the inodes that take sectors from it, with `bitmap_write` as it is.
use os_labratory_spring.Prelude.{
  ℕ, ◌≤◌, ◌≡◌, ◌⊎◌, Bool, true, false, length, Result, ok, inl, inr, sym, ◌∙◌,
}
use os_labratory_spring.Bitmap.{Bitmap}
use os_labratory_spring.Bitmap.Scan.{NoGroup}
use os_labratory_spring.Cache.{Cache}
use os_labratory_spring.FreeMap.{Allocation, allocate}
use os_labratory_spring.FreeMap.Laws.{Taken, Refused, allocate-cases}
use os_labratory_spring.FreeMap.Saved.{save}
use os_labratory_spring.FreeMap.Saved.Runs.{IsMapInode, MapDisk, save-Saves, save-MapFile}
use os_labratory_spring.Inode.{Inode, direct_bytes, bytes_to_data_sectors}
use os_labratory_spring.Inode.Expand.{Store}
use os_labratory_spring.Inode.Open.{dealloc}
use os_labratory_spring.Inode.Open.Dealloc.{AllHeld, Freed, dealloc-Freed}

module _ (inner_write : Bitmap → Cache → Result (Bool × Cache)) (uninit : ℕ → ℕ) {inode : Inode}
    {sec : ℕ → ℕ} {n : ℕ} (m : IsMapInode inode sec n) where
  -- With the map file on the disk, `free_map_allocate` returns.  Either it reports success, has
  -- marked the first group of `cnt` free sectors and no other, gives the first of them, and has
  -- saved the new map if the file is open; or there is no such group, and it reports failure and
  -- leaves the map, `*sectorp` and the disk as they were.
  pub allocate-save :
      (fm : Store) (cnt old : ℕ)
      → length fm.bits ≡ n
      → MapDisk inode sec n fm.disk
      → (a : Allocation Cache) × (allocate (save inner_write uninit inode) fm cnt old ≡ ok a)
        × MapDisk inode sec n a.map.disk
        × (Taken (save inner_write uninit inode) fm cnt a
            ⊎ (NoGroup fm.bits 0 cnt false
                × Refused (save inner_write uninit inode) fm cnt old a
                × (a.map.disk ≡ fm.disk)))
  allocate-save fm cnt old covers d =
      let (a, run, d', answer) =
        allocate-cases (save inner_write uninit inode) (save-Saves inner_write uninit m) fm cnt old
          covers d in
      (
        a,
        run,
        d',
        elim answer [
          | inl t ↦ inl t
          | inr r ↦ elim r.reason [
            | inl (none_free, same_disk) ↦ inr (none_free, r, same_disk)
            | inr (bits, size, _, short) ↦
                let (disk', whole, _, _) =
                  (save-MapFile inner_write uninit m).saves bits fm.disk
                    (size ∙ covers ∙ sym d.size) d in
                absurd cc
          ]
        ],
      )

  -- With the map file on the disk and open, for a file in the direct blocks alone: if the pointers
  -- of its sectors name sectors in use, no two the same, then `inode_dealloc` does not panic, frees
  -- those sectors, and changes no other bit of the map.
  pub dealloc-save :
      (store : Store) (i : Inode)
      → i.length ≤ direct_bytes
      → length store.bits ≡ n
      → MapDisk inode sec n store.disk
      → store.open_file ≡ true
      → AllHeld store i.ptr 0 (bytes_to_data_sectors i.length)
      → (store' : Store) × (dealloc (save inner_write uninit inode) store i ≡ ok store')
        × Freed (MapDisk inode sec n) store store' i.ptr 0 (bytes_to_data_sectors i.length)
  dealloc-save = dealloc-Freed (save inner_write uninit inode) (save-Saves inner_write uninit m)
