-- ===== src/Tests/SavedRuns.antt =====
-- Runs on a disk of 16 sectors with the map file in sector 2.
use os_labratory_spring.Prelude.{
  ℕ, zero, suc, ◌+◌, ◌<◌, ◌≡◌, refl, ◌⊎◌, inl, Bool, true, false, [], ◌∷◌, Result, panic, ok, arith,
}
use os_labratory_spring.Bitmap.{Bitmap, bit}
use os_labratory_spring.Bitmap.Scan.{NoGroup}
use os_labratory_spring.Bitmap.Packed.{Packed}
use os_labratory_spring.Bitmap.Packed.Refines.{Packs}
use os_labratory_spring.Cache.{Cache}
use os_labratory_spring.Cache.Valid.{IsValid}
use os_labratory_spring.FreeMap.{Allocation, allocate}
use os_labratory_spring.FreeMap.Laws.{Taken, Refused}
use os_labratory_spring.FreeMap.Saved.{save, load}
use os_labratory_spring.FreeMap.Saved.Runs.{IsMapInode, MapDisk, load-save}
use os_labratory_spring.FreeMap.Saved.Uses.{allocate-save, dealloc-save}
use os_labratory_spring.Inode.{Inode, byte_to_sector, bytes_to_data_sectors}
use os_labratory_spring.Inode.Layout.{IsMeta, single, outer, inner}
use os_labratory_spring.Inode.Expand.{Store, Growing}
use os_labratory_spring.Inode.Open.{dealloc}
use os_labratory_spring.Inode.Open.Dealloc.{AllHeld, Freed}
use os_labratory_spring.Tests.{few_used, store, empty_file, small_file}

abbrev map_inode : Inode
map_inode = record empty_file { sector = 0; length = 512; read_length = 512; direct_index = 1 }

abbrev sectors : ℕ → ℕ
sectors k = k + 2

-- The `bitmap_write` that a growth of the map file would call, which never comes.
abbrev none_inner : Bitmap → Cache → Result (Bool × Cache)
none_inner b disk = panic

abbrev uninit : ℕ → ℕ
uninit _ = 12345

map_inode-IsMapInode : IsMapInode map_inode sectors 16
map_inode-IsMapInode = record {
  bound = omega arith;
  room = omega arith;
  direct = omega arith;
  whole = refl;
  allowed = refl;
  separate = λ p q l l' e. omega arith;
}

store-IsValid : IsValid store.disk
store-IsValid = record {
  counted = refl;
  bounded = omega arith;
  coherent = record { distinct = tt; in_range = λ t x e. absurd cc; clean = λ t b e. absurd cc };
}

no_IsMeta : {t : ℕ} → ¬ IsMeta map_inode 512 store.disk.dev t
no_IsMeta (single k lt used e) = absurd (omega arith)
no_IsMeta (outer used e) = absurd (omega arith)
no_IsMeta (inner k used e) = absurd (omega arith)

store-MapDisk : MapDisk map_inode sectors 16 store.disk
unfolding byte_to_sector
store-MapDisk = record {
  valid = store-IsValid;
  room = inl (omega arith);
  layout = record {
    finds = λ pos lt. ground arith;
    in_range = λ pos lt. omega arith;
    uncached = λ t x. absurd (no_IsMeta x);
    apart = λ t pos x lt. absurd (no_IsMeta x);
  };
  size = refl;
}

-- A map in memory that is to be read into.
abbrev stale_map : Packed
stale_map = record { bit_cnt = 16; bits = 77 ∷ [] }

load-save_example :
    (disk' : Cache) × (save none_inner uninit map_inode few_used store.disk ≡ ok (true, disk'))
    × ((q' : Packed) × (disk'' : Cache) × (load map_inode stale_map disk' ≡ ok (true, q', disk''))
        × Packs q' few_used)
load-save_example =
    load-save none_inner uninit map_inode-IsMapInode few_used stale_map store.disk refl refl
      (omega arith) store-MapDisk

allocate-save_example :
    (a : Allocation Cache) × (allocate (save none_inner uninit map_inode) store 2 7 ≡ ok a)
    × MapDisk map_inode sectors 16 a.map.disk
    × (Taken (save none_inner uninit map_inode) store 2 a
        ⊎ (NoGroup store.bits 0 2 false
            × Refused (save none_inner uninit map_inode) store 2 7 a
            × (a.map.disk ≡ store.disk)))
allocate-save_example =
    allocate-save none_inner uninit map_inode-IsMapInode store 2 7 refl store-MapDisk

-- A file in sectors 0 and 1.
abbrev low_file : Inode
low_file = record small_file { ptr = λ k. k }

low_used : (j : ℕ) → j < 2 → bit few_used j ≡ true
low_used zero h = refl
low_used (suc zero) h = refl
low_used (suc (suc j)) h = absurd (omega arith)

low_file-AllHeld : AllHeld store low_file.ptr 0 (bytes_to_data_sectors low_file.length)
unfolding bytes_to_data_sectors
low_file-AllHeld = record {
  in_range = λ j p q. omega arith;
  used = λ j p q. low_used j q;
  distinct = λ j k p q r. λ e. omega arith;
}

dealloc-save_example :
    (store' : Store) × (dealloc (save none_inner uninit map_inode) store low_file ≡ ok store')
    × Freed
        (MapDisk map_inode sectors 16)
        store
        store'
        low_file.ptr
        0
        (bytes_to_data_sectors low_file.length)
dealloc-save_example =
    dealloc-save none_inner uninit map_inode-IsMapInode store low_file (omega arith) refl
      store-MapDisk refl low_file-AllHeld

abbrev growing : Growing
growing = record {
  store = store;
  inode = record empty_file { length = 2048; direct_index = 4 };
  outer = uninit;
  left = 2;
}
