-- ===== src/Inode/Open.antt =====
-- `inode_open`, `inode_close` and `inode_dealloc` of filesys/inode.c.  The open inodes are a list,
-- and a pointer to one is its position.
pub mod Disk
pub mod Dealloc
use os_labratory_spring.Prelude.{
  ℕ, zero, suc, ◌+◌, ◌-◌, ◌*◌, ◌<◌, Bool, true, false, not, Option, none, some, List, [], ◌∷◌,
  get_elem?, set, min, ltb, leb, ◌==◌, ◌&&◌, if◌then◌else◌, Result, ok, panic, hang, ◌>>=◌,
}
use os_labratory_spring.Bitmap.{Bitmap}
use os_labratory_spring.Device.{Block, Device, block_read}
use os_labratory_spring.Words.{word, block_of}
use os_labratory_spring.Cache.{Cache}
use os_labratory_spring.FreeMap
use os_labratory_spring.Inode.{
  Inode, indirect_index_start, double_indirect_index_start, indirect_block_ptrs,
  bytes_to_data_sectors, bytes_to_indirect_sectors, bytes_to_double_indirect_sector,
}
use os_labratory_spring.Inode.Expand.{Store, disk_read, disk_write}

abbrev pub inode_magic : ℕ
inode_magic = 1229868868

-- The place of `ptr` in `struct inode_disk`, in words.
abbrev pub ptr_start : ℕ
ptr_start = 114

-- The words of the `struct inode_disk` that `inode_close` writes.
unfoldable pub disk_words : Inode → ℕ → ℕ
disk_words inode k =
    if leb ptr_start k
    then inode.ptr (k - ptr_start)
    else if k == 0
    then inode.length
    else if k == 1
    then inode_magic
    else if k == 2
    then inode.direct_index
    else if k == 3
    then inode.indirect_index
    else if k == 4
    then inode.double_indirect_index
    else if k == 5
    then (if inode.isdir then 1 else 0)
    else if k == 6
    then inode.parent
    else 0

-- The inode that `inode_open` makes of the bytes in its sector; the magic number is not tested.
unfoldable pub from_disk : ℕ → Block → Inode
unfolding word
from_disk sector bytes = record {
  sector = sector;
  open_cnt = 1;
  removed = false;
  deny_write_cnt = 0;
  length = word bytes 0;
  read_length = word bytes 0;
  direct_index = word bytes 2;
  indirect_index = word bytes 3;
  double_indirect_index = word bytes 4;
  isdir = not (bytes 20 == 0);
  parent = word bytes 6;
  ptr = λ k. word bytes (ptr_start + k);
}

-- What a search finds past the first inode.
abbrev pub behind : Inode → Option (ℕ × List Inode) → Option (ℕ × List Inode)
behind inode none = none
behind inode (some (i, inodes)) = some (suc i, inode ∷ inodes)

-- The loop of `inode_open`, with `inode_reopen` of the inode that it finds.
unfoldable pub reopen : List Inode → ℕ → Option (ℕ × List Inode)
reopen [] sector = none
reopen (inode ∷ inodes) sector =
    if inode.sector == sector
    then some (0, record inode { open_cnt = inode.open_cnt + 1 } ∷ inodes)
    else behind inode (reopen inodes sector)

-- The whole of it; `mem` tells whether `malloc` finds room.
unfoldable pub inode_open : Bool → Device → List Inode → ℕ → Result (Option ℕ × List Inode)
unfolding reopen block_read from_disk
inode_open mem dev inodes sector = elim (reopen inodes sector) [
  | some (i, inodes') ↦ ok (some i, inodes')
  | none ↦
      if mem
      then (do bytes ← block_read dev sector; ok (some 0, from_disk sector bytes ∷ inodes))
      else ok (none, inodes)
]

-- `list_remove`
unfoldable pub remove_at : ℕ → List Inode → List Inode
remove_at i [] = []
remove_at zero (inode ∷ inodes) = inodes
remove_at (suc i) (inode ∷ inodes) = inode ∷ remove_at i inodes

module _ (bitmap_write : Bitmap → Cache → Result (Bool × Cache)) where
  -- The loops `for (i = 0; i < data_ptrs; i++) free_map_release (block.ptr[i], 1)`.
  unfoldable pub release_ptrs : ℕ → ℕ → (ℕ → ℕ) → Store → Result Store
  unfolding FreeMap.release
  release_ptrs zero i ptr store = ok store
  release_ptrs (suc n) i ptr store = do
    store' ← FreeMap.release bitmap_write store (ptr i) 1
    release_ptrs n (i + 1) ptr store'

  -- `inode_dealloc_indirect_block`
  unfoldable pub dealloc_indirect_block : Store → ℕ → ℕ → Result Store
  unfolding release_ptrs FreeMap.release disk_read
  dealloc_indirect_block store sector data_ptrs = do
    b ← disk_read store sector
    store' ← release_ptrs data_ptrs 0 (word b) store
    FreeMap.release bitmap_write store' sector 1

  -- The loops over blocks of pointers, for `n` blocks from the one at `i` on; what is left of
  -- `data_sectors` comes back.
  unfoldable pub dealloc_blocks : ℕ → ℕ → (ℕ → ℕ) → ℕ → Store → Result (Store × ℕ)
  unfolding dealloc_indirect_block
  dealloc_blocks zero i ptr data_sectors store = ok (store, data_sectors)
  dealloc_blocks (suc n) i ptr data_sectors store = do
    let data_ptrs =
        if ltb data_sectors indirect_block_ptrs then data_sectors else indirect_block_ptrs
    store' ← dealloc_indirect_block store (ptr i) data_ptrs
    dealloc_blocks n (i + 1) ptr (data_sectors - data_ptrs) store'

  -- `inode_dealloc_double_indirect_block`
  unfoldable pub dealloc_double_indirect_block : Store → ℕ → ℕ → ℕ → Result Store
  unfolding dealloc_blocks FreeMap.release disk_read
  dealloc_double_indirect_block store sector indirect_ptrs data_ptrs = do
    b ← disk_read store sector
    (store', _) ← dealloc_blocks indirect_ptrs 0 (word b) data_ptrs store
    FreeMap.release bitmap_write store' sector 1

  -- `inode_dealloc`
  unfoldable pub dealloc : Store → Inode → Result Store
  unfolding release_ptrs dealloc_blocks dealloc_double_indirect_block bytes_to_data_sectors
      bytes_to_indirect_sectors bytes_to_double_indirect_sector
  dealloc store inode = do
    let data_sectors = bytes_to_data_sectors inode.length
    let indirect_sectors = bytes_to_indirect_sectors inode.length
    let direct = min data_sectors indirect_index_start
    let blocks = min indirect_sectors (double_indirect_index_start - direct)
    store' ← release_ptrs direct 0 inode.ptr store
    (store'', left) ← dealloc_blocks blocks direct inode.ptr (data_sectors - direct) store'
    if bytes_to_double_indirect_sector inode.length == 0 then ok store'' else (do
      let root = inode.ptr (direct + blocks)
      dealloc_double_indirect_block store'' root (indirect_sectors - blocks) left)

  -- The last closing of an inode.
  unfoldable pub close_last : Store → Inode → Result Store
  unfolding FreeMap.release dealloc disk_write disk_words
  close_last store inode =
      let gone = (do
        store' ← FreeMap.release bitmap_write store inode.sector 1
        dealloc store' inode) in
      if inode.removed then gone else disk_write store inode.sector (block_of (disk_words inode))

  -- The whole of `inode_close`; there is no inode at the position that stands for a null pointer.
  unfoldable pub inode_close : Store → List Inode → ℕ → Result (Store × List Inode)
  unfolding close_last remove_at
  inode_close store inodes i = elim (get_elem? inodes i) [
    | none ↦ ok (store, inodes)
    | some inode ↦
        let last = (do store' ← close_last store inode; ok (store', remove_at i inodes)) in
        if inode.open_cnt == 1
        then last
        else ok (store, set inodes i (record inode { open_cnt = inode.open_cnt - 1 }))
  ]
