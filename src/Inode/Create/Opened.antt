-- ===== src/Inode/Create/Opened.antt =====
-- The inode that `inode_open` makes of what `inode_create` has written.
use os_labratory_spring.Prelude.{
  ℕ, ◌^◌, ◌≤◌, ◌<◌, ◌≡◌, ◌≢◌, sym, ap, ◌∙◌, Bool, true, none, some, List, ◌∷◌, length, Result, ok,
  arith,
}
use os_labratory_spring.Bitmap.{Bitmap, bit}
use os_labratory_spring.Bitmap.Count.{free_count}
use os_labratory_spring.Cache.{Cache}
use os_labratory_spring.Cache.View.{view}
use os_labratory_spring.Device.{Block}
use os_labratory_spring.Words.{block_of}
use os_labratory_spring.FreeMap.{root_dir_sector}
use os_labratory_spring.Inode.{Inode, direct_bytes, bytes_to_data_sectors}
use os_labratory_spring.Inode.Expand.{Store, Filling, zeros}
use os_labratory_spring.Inode.Expand.Disk.{MapFile, Fit}
use os_labratory_spring.Inode.Expand.Fill.{Fresh, Filled}
use os_labratory_spring.Inode.Expand.Faults.{disk_written}
use os_labratory_spring.Inode.Open.{disk_words, reopen, inode_open, from_disk}
use os_labratory_spring.Inode.Open.Disk.{Restored, from_disk-Restored, inode_open-new}
use os_labratory_spring.Inode.Create.{
  inode_create, created, placed, unallocated, inode_create-run, inode_alloc-Filled, blank_sectors,
  clipped-direct, Filled-IsStorable,
}

-- A new file of `len` bytes whose inode is in sector `s`, as it is opened from the disk of `store'`:
-- its sectors, each at one place, were free in `store`, are now in use and full of zeros, and no
-- other sector that was in use looks different, but for that of the inode and the map file's.
pub record Created (Own : ℕ → Type 0) (store store' : Store) (s len : ℕ) (flag : Bool) (i : Inode)
    : Type 0 where
  pub sector : i.sector ≡ s
  pub length : i.length ≡ len
  pub isdir : i.isdir ≡ flag
  pub parent : i.parent ≡ root_dir_sector
  pub fresh : (j : ℕ) → j < bytes_to_data_sectors len → Fresh Own store store' zeros (i.ptr j)
  pub distinct : (j k : ℕ) → j < k → k < bytes_to_data_sectors len → i.ptr j ≢ i.ptr k
  pub kept :
      (t : ℕ) → bit store.bits t ≡ true → ¬ Own t → t ≢ s → view store'.disk t ≡ view store.disk t

-- A write past the cache to another sector.
view-disk_written :
    (store : Store) (s t : ℕ) (b : Block)
    → t ≢ s
    → view ((disk_written store s b).disk) t ≡ view store.disk t
view-disk_written store s t b ne = ground arith

Filled-Created :
    {Good : Cache → Type 0} {Own : ℕ → Type 0} {store : Store} {f : Filling} {inode' : Inode}
    (sector len : ℕ) (isdir : Bool) (b : Block)
    → bytes_to_data_sectors len ≤ 4
    → bit store.bits sector ≡ true
    → Restored (created sector len isdir (placed f)) inode'
    → Filled Good Own (unallocated store (bytes_to_data_sectors len)) f (bytes_to_data_sectors len)
    → Created Own store (disk_written f.store sector b) sector len isdir inode'
Filled-Created {Own = Own} {store = store} {f = f} {inode' = inode'} sector len isdir b four used r
      x =
    record {
      sector = r.sector;
      length = r.length;
      isdir = r.isdir;
      parent = r.parent;
      fresh = λ j lt.
          let fr = x.fresh j (omega arith) (omega arith) in
          let same_ptr : inode'.ptr j ≡ f.ptr j = r.ptr j (omega arith) in
          let away : f.ptr j ≢ sector =
            λ e. absurd (let free = fr.was in let e' = ap (bit store.bits) e in cc) in
          rw same_ptr (record {
            was = fr.was;
            now = fr.now;
            in_range = fr.in_range;
            foreign = fr.foreign;
            uncached = fr.uncached;
            seen = view-disk_written f.store sector (f.ptr j) b away ∙ fr.seen;
          });
      distinct = λ j k lt kl e.
          x.distinct j k (omega arith) lt (omega arith)
            (sym (r.ptr j (omega arith)) ∙ e ∙ r.ptr k (omega arith));
      kept = λ t h foreign ne.
          view-disk_written f.store sector t b ne ∙ x.grown.kept t h foreign (λ n. n);
    }

module _ {bitmap_write : Bitmap → Cache → Result (Bool × Cache)} {Good : Cache → Type 0}
    {Own : ℕ → Type 0} (file : MapFile bitmap_write Good Own) (uninit : ℕ → ℕ) where
  -- Where the disk fits the map: for a length that the direct blocks hold, on a device with enough
  -- free sectors, and a sector that is in use and that no open inode has, `inode_create` succeeds,
  -- and `inode_open` of the sector gives the new file.
  pub inode_open-inode_create :
      (store : Store) (sector len : ℕ) (isdir : Bool) (inodes : List Inode)
      → len ≤ direct_bytes
      → Fit Good Own store
      → length store.bits ≤ 2 ^ 32
      → bytes_to_data_sectors len ≤ free_count store.bits
      → sector < store.disk.dev.size
      → bit store.bits sector ≡ true
      → reopen inodes sector ≡ none
      → (store' : Store) × (inode' : Inode) × (inode_create bitmap_write uninit true store sector
            len isdir
          ≡ ok (true, store'))
        × (inode_open true store'.disk.dev inodes sector ≡ ok (some 0, inode' ∷ inodes))
        × Created Own store store' sector len isdir inode'
  inode_open-inode_create store sector len isdir inodes h fit small enough lt used absent =
      let (f, run, x) = inode_alloc-Filled file uninit store len h fit enough in
      let (_, four) = blank_sectors len h in
      let made = created sector len isdir (placed f) in
      let b = block_of (disk_words made) in
      let lt' : sector < f.store.disk.dev.size =
        omega (arith, x.fit.size, x.grown.size, fit.size) in
      (
        disk_written f.store sector b,
        from_disk sector b,
        inode_create-run bitmap_write uninit store f.store sector len isdir (placed f)
            (clipped-direct len h) run lt',
        inode_open-new f.store.disk.dev inodes sector b absent lt',
        Filled-Created sector len isdir b four used
            (from_disk-Restored made (Filled-IsStorable sector len isdir small four h x)) x,
      )
