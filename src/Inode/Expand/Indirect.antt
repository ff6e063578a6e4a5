-- ===== src/Inode/Expand/Indirect.antt =====
-- `inode_expand_indirect_block`: one block of pointers grows, and is written to its sector.
use os_labratory_spring.Prelude.{
  ℕ, min, ◌^◌, ◌+◌, ◌-◌, ◌≤◌, ◌<◌, ◌≡◌, refl, ap, Bool, true, false, length, ◌==◌, Result, ok,
  arith,
}
use os_labratory_spring.Bitmap.{Bitmap, bit}
use os_labratory_spring.Bitmap.Count.{free_count}
use os_labratory_spring.Device.{block_read-lt}
use os_labratory_spring.Words.{word, block_of, word-block_of}
use os_labratory_spring.Cache.{Cache}
use os_labratory_spring.Inode.{indirect_block_ptrs}
use os_labratory_spring.Inode.Expand.{
  Store, Filling, Growing, put, fill, disk_write, disk_read, begin_block, expand_indirect_block,
}
use os_labratory_spring.Inode.Expand.Disk.{
  MapFile, Fit, Grown-refl, Grown-trans, allocate-Given, disk_write-Grown,
}
use os_labratory_spring.Inode.Expand.Fill.{fill-Filled, Fresh-Grown}
use os_labratory_spring.Inode.Expand.Table.{
  Held, Held-Grown, new_block, Extended, Begun, Tabled, after_indirect, Extended-intro,
}

module _ {bitmap_write : Bitmap → Cache → Result (Bool × Cache)} {Good : Cache → Type 0}
    {Own : ℕ → Type 0} (file : MapFile bitmap_write Good Own) (uninit : ℕ → ℕ) where
  -- The block of pointers to fill is a new one, if a sector is free, or one that the inode has.
  pub begin_block-Begun :
      (fresh : Bool) (fm : Store) (ptr : ℕ → ℕ) (i : ℕ)
      → Fit Good Own fm
      → (fresh ≡ false → Held Own fm (ptr i))
      → new_block fresh ≤ free_count fm.bits
      → (fm' : Store) × (ptr' : ℕ → ℕ) × (block : ℕ → ℕ) × (begin_block bitmap_write uninit fresh fm
            ptr i
          ≡ ok (fm', ptr', block))
        × Begun Good Own uninit fresh fm ptr i fm' ptr' block
  unfolding begin_block disk_read
  begin_block-Begun true fm ptr i fit held enough =
      let (a, run, given) = allocate-Given file fm (ptr i) fit enough in
      (
        a.map,
        put ptr i a.sector,
        uninit,
        ground (arith, run),
        record {
          fit = given.fit;
          grown = given.grown;
          held =
              ground
                (arith, given.now, given.in_range, given.grown.size, given.foreign, given.uncached);
          others = λ j ne. ground arith;
          free = omega (arith, given.free);
          kept = λ e. absurd (cc);
          new = λ e. ground (arith, given.was);
        },
      )
  begin_block-Begun false fm ptr i fit held enough =
      let h = held refl in
      let lt : ptr i < fm.disk.dev.size = omega (arith, h.in_range, fit.size) in
      (
        fm,
        ptr,
        word (fm.disk.dev.stored (ptr i)),
        ground (arith, block_read-lt fm.disk.dev (ptr i) lt),
        record {
          fit = fit;
          grown = Grown-refl fm;
          held = h;
          others = λ j ne. refl;
          free = omega arith;
          kept = λ e. (refl, ground (arith, h.uncached));
          new = λ e. absurd (cc);
        },
      )

  -- The rest of a block: `k` places from `index` on are filled, and the block is written.
  pub fill_block :
      (fm : Store) (s : ℕ) (block : ℕ → ℕ) (index left : ℕ)
      → Fit Good Own fm
      → Held Own fm s
      → length fm.bits ≤ 2 ^ 32
      → 0 < left
      → left < 2 ^ 32
      → min (indirect_block_ptrs - index) left ≤ free_count fm.bits
      → let k = min (indirect_block_ptrs - index) left in
        (f : Filling) × (fm' : Store) × (fill bitmap_write uninit
            (indirect_block_ptrs - index)
            (record { store = fm; ptr = block; index = index; left = left })
          ≡ ok f)
        × (disk_write f.store s (block_of f.ptr) ≡ ok fm')
        × (f.index ≡ index + k)
        × (f.left + k ≡ left)
        × Tabled Good Own fm fm' s block index k
  fill_block fm s block index left fit held small pos lt enough =
      let k = min (indirect_block_ptrs - index) left in
      let f0 : Filling = record { store = fm; ptr = block; index = index; left = left } in
      let (f, run, h) =
        fill-Filled file uninit (indirect_block_ptrs - index) f0 fit pos lt enough in
      let held' = Held-Grown s held h.grown in
      let (fm', run', fit', g, bits, seen) =
        disk_write-Grown file f.store s (block_of f.ptr) h.fit held'.in_range held'.foreign
          held'.uncached in
      (
        f,
        fm',
        run,
        run',
        h.index,
        h.left,
        record {
          fit = fit';
          grown =
              Grown-trans (λ t b e. e)
                (record {
                  size = h.grown.size;
                  marks = h.grown.marks;
                  kept = λ t b o x. h.grown.kept t b o (λ n. n);
                  absent = h.grown.absent;
                })
                g;
          free = rw bits h.free;
          new = λ j l l'.
              let new = h.fresh j l l' in
              let in_word : f.ptr j < 2 ^ 32 = omega (arith, new.in_range, h.grown.size) in
              rw (seen, word-block_of f.ptr j in_word)
                (Fresh-Grown new g (λ e. cc (new.was, held.used, ap (bit fm.bits) e)));
          old = λ j l in_word.
              rw (seen, word-block_of f.ptr j (rw (h.below j l) in_word)) (h.below j l);
        },
      )

  -- Where the disk fits the map and writes of the map file are complete,
  -- `inode_expand_indirect_block` does not panic while enough sectors are free.  It takes as many
  -- of the sectors asked for as the block of pointers has room for, and one for the block itself if
  -- it is new.  Afterwards the block that `inode->ptr` names, as it is on the disk, lists them behind
  -- the sectors that it listed before; they are full of zeros and were free; the place for the next
  -- sector is right; and every sector that was in use, but for the block and those that a write to the map
  -- file changes, looks as before.
  pub expand_indirect_block-Tabled :
      (g : Growing)
      → let i = g.inode in
        let fresh = i.indirect_index == 0 in
        let k = min (indirect_block_ptrs - i.indirect_index) g.left in
        Fit Good Own g.store
        → length g.store.bits ≤ 2 ^ 32
        → i.indirect_index < indirect_block_ptrs
        → (fresh ≡ false → Held Own g.store (i.ptr i.direct_index))
        → 0 < g.left
        → g.left < 2 ^ 32
        → k + new_block fresh ≤ free_count g.store.bits
        → (g' : Growing) × (expand_indirect_block bitmap_write uninit g ≡ ok g')
          × Extended Good Own g g' k
  unfolding expand_indirect_block
  expand_indirect_block-Tabled g fit small lt held pos max enough =
      let i = g.inode in
      let (fm, ptr, block, begun, b) =
        begin_block-Begun (i.indirect_index == 0) g.store i.ptr i.direct_index fit held
          (omega arith) in
      let (f, fm', run, run', index, left, t) =
        fill_block fm (ptr i.direct_index) block i.indirect_index g.left b.fit b.held
          (omega (arith, b.grown.size)) pos max (omega (arith, b.free)) in
      (after_indirect g fm' ptr f, rw (begun, run, run'), Extended-intro f b t index left)
