-- ===== src/Inode/Expand.antt =====
-- `inode_expand` of filesys/inode.c and the functions that it calls.
pub mod Disk
pub mod Fill
pub mod Table
pub mod Indirect
pub mod Loop
pub mod Place
pub mod Single
pub mod Faults
use os_labratory_spring.Prelude.{
  ℕ, zero, suc, ◌+◌, ◌-◌, ◌*◌, ◌%◌, ◌^◌, Bool, true, false, ◌&&◌, ltb, ◌==◌, if◌then◌else◌, Result,
  ok, hang, ◌>>=◌,
}
use os_labratory_spring.Bitmap.{Bitmap}
use os_labratory_spring.Device.{Block, block_sector_size, block_read, block_write}
use os_labratory_spring.Words.{word, block_of}
use os_labratory_spring.Cache.{Cache}
use os_labratory_spring.FreeMap
use os_labratory_spring.FreeMap.{FreeMap}
use os_labratory_spring.Inode.{
  Inode, indirect_index_start, double_indirect_index_start, indirect_block_ptrs,
  bytes_to_data_sectors,
}

-- The free map, and the disk behind it with its cache.
abbrev pub Store : Type 0
Store = FreeMap Cache

-- `size_t` subtraction.
abbrev pub sub_size : ℕ → ℕ → ℕ
sub_size a b = (a + 2 ^ 32 - b) % 2 ^ 32

abbrev pub zeros : Block
zeros _ = 0

-- `block_write (fs_device, sector, b)` and `block_read`, past the cache.
unfoldable pub disk_write : Store → ℕ → Block → Result Store
unfolding block_write
disk_write fm sector b = do
  dev ← block_write fm.disk.dev sector b
  ok (record fm { disk = record (fm.disk) { dev = dev } })

unfoldable pub disk_read : Store → ℕ → Result Block
unfolding block_read
disk_read fm sector = block_read fm.disk.dev sector

-- `ptr[i] = sector`
abbrev pub put : (ℕ → ℕ) → ℕ → ℕ → ℕ → ℕ
put ptr i sector j = if i == j then sector else ptr j

-- The variables of the loops that give a sector of data to one place of `ptr` after another.
pub record Filling : Type 0 where
  pub store : Store
  pub ptr : ℕ → ℕ
  pub index : ℕ
  pub left : ℕ

-- What the loops on indirect blocks work on; `outer` is the double indirect block.
pub record Growing : Type 0 where
  pub store : Store
  pub inode : Inode
  pub outer : ℕ → ℕ
  pub left : ℕ

-- `uninit` is what a `struct indirect_block` on the stack holds before it is written.
module _ (bitmap_write : Bitmap → Cache → Result (Bool × Cache)) (uninit : ℕ → ℕ) where
  -- The body shared by `while (inode->direct_index < INDIRECT_INDEX)` and the two loops
  -- `while (... < INDIRECT_BLOCK_PTRS)` that fill a block of pointers, with the rounds left until
  -- the index is at its limit.  The result of `free_map_allocate` is not tested.
  unfoldable pub fill : ℕ → Filling → Result Filling
  unfolding FreeMap.allocate disk_write
  fill zero f = ok f
  fill (suc rounds) f = do
    a ← FreeMap.allocate bitmap_write f.store 1 (f.ptr f.index)
    store ← disk_write a.map a.sector zeros
    let f' : Filling = record {
      store = store;
      ptr = put f.ptr f.index a.sector;
      index = f.index + 1;
      left = sub_size f.left 1;
    }
    if f'.left == 0 then ok f' else fill rounds f'

  -- The block of pointers that is filled: a new one, or the one that its pointer names.
  unfoldable pub begin_block : Bool → Store → (ℕ → ℕ) → ℕ → Result (Store × (ℕ → ℕ) × (ℕ → ℕ))
  unfolding FreeMap.allocate disk_read
  begin_block true store ptr i = do
    a ← FreeMap.allocate bitmap_write store 1 (ptr i)
    ok (a.map, put ptr i a.sector, uninit)
  begin_block false store ptr i = do b ← disk_read store (ptr i); ok (store, ptr, word b)

  -- `inode_expand_indirect_block`
  unfoldable pub expand_indirect_block : Growing → Result Growing
  unfolding begin_block fill disk_write
  expand_indirect_block g = do
    (store, ptr, block) ←
        begin_block (g.inode.indirect_index == 0) g.store g.inode.ptr g.inode.direct_index
    f ←
        fill (indirect_block_ptrs - g.inode.indirect_index)
          (record { store = store; ptr = block; index = g.inode.indirect_index; left = g.left })
    store' ← disk_write f.store (ptr g.inode.direct_index) (block_of f.ptr)
    let full = f.index == indirect_block_ptrs
    ok (record g {
      store = store';
      inode = record (g.inode) {
        ptr = ptr;
        indirect_index = if full then 0 else f.index;
        direct_index = if full then g.inode.direct_index + 1 else g.inode.direct_index;
      };
      left = f.left;
    })

  -- `inode_expand_double_indirect_block_lvl_two`
  unfoldable pub expand_lvl_two : Growing → Result Growing
  unfolding begin_block fill disk_write
  expand_lvl_two g = do
    (store, outer, block) ←
        begin_block (g.inode.double_indirect_index == 0) g.store g.outer g.inode.indirect_index
    f ← fill (indirect_block_ptrs - g.inode.double_indirect_index) (record {
      store = store;
      ptr = block;
      index = g.inode.double_indirect_index;
      left = g.left;
    })
    store' ← disk_write f.store (outer g.inode.indirect_index) (block_of f.ptr)
    let full = f.index == indirect_block_ptrs
    ok (record g {
      store = store';
      outer = outer;
      inode = record (g.inode) {
        double_indirect_index = if full then 0 else f.index;
        indirect_index = if full then g.inode.indirect_index + 1 else g.inode.indirect_index;
      };
      left = f.left;
    })

  -- `while (inode->indirect_index < INDIRECT_BLOCK_PTRS)`
  unfoldable pub lvl_two_loop : ℕ → Growing → Result Growing
  unfolding expand_lvl_two
  lvl_two_loop zero g = if ltb g.inode.indirect_index indirect_block_ptrs then hang else ok g
  lvl_two_loop (suc rounds) g =
      let round = (do
        g' ← expand_lvl_two g
        if g'.left == 0 then ok g' else lvl_two_loop rounds g') in
      if ltb g.inode.indirect_index indirect_block_ptrs then round else ok g

  -- `inode_expand_double_indirect_block`
  unfoldable pub expand_double_indirect_block : Growing → Result Growing
  unfolding begin_block lvl_two_loop disk_write
  expand_double_indirect_block g = do
    let fresh = (g.inode.double_indirect_index == 0) && (g.inode.indirect_index == 0)
    (store, ptr, outer) ← begin_block fresh g.store g.inode.ptr g.inode.direct_index
    g' ←
        lvl_two_loop indirect_block_ptrs
          (record g { store = store; inode = record (g.inode) { ptr = ptr }; outer = outer })
    store' ← disk_write g'.store (g'.inode.ptr g'.inode.direct_index) (block_of g'.outer)
    ok (record g' { store = store' })

  -- `while (inode->direct_index < DOUBLE_INDIRECT_INDEX)`: a round that leaves sectors to allocate
  -- has filled its block, so one round for each place in `ptr` is enough.
  unfoldable pub indirect_loop : ℕ → Growing → Result Growing
  unfolding expand_indirect_block
  indirect_loop zero g = if ltb g.inode.direct_index double_indirect_index_start then hang else ok g
  indirect_loop (suc rounds) g =
      let round = (do
        g' ← expand_indirect_block g
        if g'.left == 0 then ok g' else indirect_loop rounds g') in
      if ltb g.inode.direct_index double_indirect_index_start then round else ok g

  -- The part of `inode_expand` after the direct blocks.
  unfoldable pub expand_blocks : Growing → Result Growing
  unfolding indirect_loop expand_double_indirect_block
  expand_blocks g = do
    g' ← indirect_loop double_indirect_index_start g
    if g'.left == 0
        then ok g'
        else if g'.inode.direct_index == double_indirect_index_start
        then expand_double_indirect_block g'
        else ok g'

  -- The loops of `inode_expand`, for a number of new sectors that is not 0.
  unfoldable pub expand_by : Store → Inode → ℕ → ℕ → Result (Store × Inode × ℕ)
  unfolding fill expand_blocks
  expand_by store inode new_length new_data_sectors = do
    f ← fill (indirect_index_start - inode.direct_index) (record {
      store = store;
      ptr = inode.ptr;
      index = inode.direct_index;
      left = new_data_sectors;
    })
    let inode' = record inode { ptr = f.ptr; direct_index = f.index }
    if f.left == 0 then ok (f.store, inode', new_length) else (do
      g ← expand_blocks (record { store = f.store; inode = inode'; outer = uninit; left = f.left })
      ok (g.store, g.inode, sub_size new_length (g.left * block_sector_size % 2 ^ 32)))

  -- `inode_expand`: the state, and the length that it returns.
  unfoldable pub expand : Store → Inode → ℕ → Result (Store × Inode × ℕ)
  unfolding expand_by bytes_to_data_sectors
  expand store inode new_length =
      let new_data_sectors =
        sub_size (bytes_to_data_sectors new_length) (bytes_to_data_sectors inode.length) in
      if new_data_sectors == 0
      then ok (store, inode, new_length)
      else expand_by store inode new_length new_data_sectors
