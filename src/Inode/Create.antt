-- ===== src/Inode/Create.antt =====
-- `inode_create` and `inode_alloc` of filesys/inode.c.
pub mod Opened
use os_labratory_spring.Prelude.{
  ℕ, subst, min, eq→==, ◌-◌, ◌^◌, ◌≤◌, ◌<◌, ◌≡◌, refl, sym, ◌∙◌, Bool, true, false, none, some,
  List, ◌∷◌, length, ltb, if◌then◌else◌, Result, ok, ◌>>=◌, arith, dec_lt, ℕ_discrete,
}
use os_labratory_spring.Bitmap.{Bitmap}
use os_labratory_spring.Bitmap.Count.{free_count}
use os_labratory_spring.Cache.{Cache}
use os_labratory_spring.Words.{block_of}
use os_labratory_spring.FreeMap.{root_dir_sector}
use os_labratory_spring.Inode.{
  Inode, max_file_size, direct_bytes, indirect_index_start, bytes_to_data_sectors,
}
use os_labratory_spring.Inode.Expand.{Store, Filling, sub_size, fill, expand, expand_by, disk_write}
use os_labratory_spring.Inode.Expand.Disk.{MapFile, Fit}
use os_labratory_spring.Inode.Expand.Fill.{Filled, Filled-cast, Filled-none, fill-Filled}
use os_labratory_spring.Inode.Expand.Single.{expand-none, expand-by}
use os_labratory_spring.Inode.Expand.Faults.{disk_written, disk_write-lt}
use os_labratory_spring.Inode.Open.{disk_words, reopen, inode_open, from_disk}
use os_labratory_spring.Inode.Open.Disk.{IsStorable, Restored, from_disk-Restored, inode_open-new}

-- The inode on the stack of `inode_alloc`: what its initializer does not name is zero.
abbrev pub blank : Inode
blank = record {
  sector = 0;
  open_cnt = 0;
  removed = false;
  deny_write_cnt = 0;
  length = 0;
  read_length = 0;
  direct_index = 0;
  indirect_index = 0;
  double_indirect_index = 0;
  isdir = false;
  parent = 0;
  ptr = λ _. 0;
}

-- The length that a file is given.
abbrev pub clipped : ℕ → ℕ
clipped length = if ltb max_file_size length then max_file_size else length

-- The `struct inode_disk` that is written, as an inode for sector `sector`.
abbrev pub created : ℕ → ℕ → Bool → Inode → Inode
created sector length isdir inode = record inode {
  sector = sector;
  length = length;
  isdir = isdir;
  parent = root_dir_sector;
}

-- The loop over the direct blocks of a new inode, before and after.
abbrev pub unallocated : Store → ℕ → Filling
unallocated store n = record { store = store; ptr = blank.ptr; index = 0; left = n }

abbrev pub placed : Filling → Inode
placed f = record blank { ptr = f.ptr; direct_index = f.index }

module _ (bitmap_write : Bitmap → Cache → Result (Bool × Cache)) (uninit : ℕ → ℕ) where
  -- `inode_alloc`: the length that `inode_expand` returns is dropped.
  unfoldable pub inode_alloc : Store → ℕ → Result (Store × Inode)
  unfolding expand
  inode_alloc store len = do
    (store', inode, _) ← expand bitmap_write uninit store blank len
    ok (store', inode)

  -- `mem` tells whether `calloc` finds room.
  unfoldable pub inode_create : Bool → Store → ℕ → ℕ → Bool → Result (Bool × Store)
  unfolding inode_alloc disk_write disk_words
  inode_create mem store sector length isdir =
      let make = (do
        (store', inode) ← inode_alloc store (clipped length)
        store'' ←
            disk_write store' sector
              (block_of (disk_words (created sector (clipped length) isdir inode)))
        ok (true, store'')) in
      if mem then make else ok (false, store)

  inode_create-clipped :
      (store store' : Store) (sector size : ℕ) (isdir : Bool) (inode : Inode)
      → inode_alloc store (clipped size) ≡ ok (store', inode)
      → sector < store'.disk.dev.size
      → inode_create true store sector size isdir
        ≡ ok (
          true,
          disk_written store' sector
              (block_of (disk_words (created sector (clipped size) isdir inode))),
        )
  unfolding inode_create
  inode_create-clipped store store' sector size isdir inode run lt = rw (
    run,
    disk_write-lt store' sector (block_of (disk_words (created sector (clipped size) isdir inode)))
        lt,
  )

  pub inode_create-run :
      (store store' : Store) (sector size : ℕ) (isdir : Bool) (inode : Inode) {len : ℕ}
      → clipped size ≡ len
      → inode_alloc store len ≡ ok (store', inode)
      → sector < store'.disk.dev.size
      → inode_create true store sector size isdir
        ≡ ok (
          true,
          disk_written store' sector (block_of (disk_words (created sector len isdir inode))),
        )
  inode_create-run store store' sector size isdir inode e run lt =
      subst
        (λ (l : ℕ).
          inode_alloc store l ≡ ok (store', inode)
          → inode_create true store sector size isdir
            ≡ ok (
              true,
              disk_written store' sector (block_of (disk_words (created sector l isdir inode))),
            ))
        e (λ r. inode_create-clipped store store' sector size isdir inode r lt) run

  inode_alloc-expand :
      (store store' : Store) (len returned : ℕ) (inode : Inode)
      → expand bitmap_write uninit store blank len ≡ ok (store', inode, returned)
      → inode_alloc store len ≡ ok (store', inode)
  unfolding inode_alloc
  inode_alloc-expand store store' len returned inode run = rw run refl

  -- The direct blocks are enough.
  expand_by-direct :
      (store : Store) (inode : Inode) (len n : ℕ) (f : Filling)
      → fill bitmap_write uninit
          (indirect_index_start - inode.direct_index)
          (record { store = store; ptr = inode.ptr; index = inode.direct_index; left = n })
        ≡ ok f
      → f.left ≡ 0
      → expand_by bitmap_write uninit store inode len n
        ≡ ok (f.store, record inode { ptr = f.ptr; direct_index = f.index }, len)
  unfolding expand_by
  expand_by-direct store inode len n f run z = rw (run, eq→== f.left 0 z)

pub blank_sectors :
    (length : ℕ)
    → length ≤ direct_bytes
    → (sub_size (bytes_to_data_sectors length) (bytes_to_data_sectors 0)
        ≡ bytes_to_data_sectors length)
      × (bytes_to_data_sectors length ≤ 4)
unfolding bytes_to_data_sectors
blank_sectors length h = (omega arith, omega arith)

pub clipped-direct : (length : ℕ) → length ≤ direct_bytes → clipped length ≡ length
clipped-direct length h = ground arith

-- The numbers of an inode whose pointers have been filled.
pub Filled-IsStorable :
    {Good : Cache → Type 0} {Own : ℕ → Type 0} {store : Store} {n : ℕ} {f : Filling}
    (sector len : ℕ) (isdir : Bool)
    → length store.bits ≤ 2 ^ 32
    → n ≤ 4
    → len ≤ direct_bytes
    → Filled Good Own (unallocated store n) f n
    → IsStorable (created sector len isdir (placed f))
Filled-IsStorable {n = n} {f} sector len isdir small four h x = record {
  length = omega arith;
  direct = omega (arith, x.index);
  indirect = omega arith;
  double = omega arith;
  parent = omega arith;
  ptr = λ k lt. elim (dec_lt k n) [
    | yes l ↦ omega (arith, (x.fresh k (omega arith) (omega arith)).in_range, x.grown.size)
    | no nl ↦ let e : f.ptr k ≡ 0 = x.above k (omega arith) in rw e (omega arith)
  ];
}

module _ {bitmap_write : Bitmap → Cache → Result (Bool × Cache)} {Good : Cache → Type 0}
    {Own : ℕ → Type 0} (file : MapFile bitmap_write Good Own) (uninit : ℕ → ℕ) where
  pub inode_alloc-Filled :
      (store : Store) (len : ℕ)
      → len ≤ direct_bytes
      → Fit Good Own store
      → bytes_to_data_sectors len ≤ free_count store.bits
      → let n = bytes_to_data_sectors len in
        (f : Filling) × (inode_alloc bitmap_write uninit store len ≡ ok (f.store, placed f))
        × Filled Good Own (unallocated store n) f n
  inode_alloc-Filled store len h fit enough =
      let n = bytes_to_data_sectors len in
      let (e, four) = blank_sectors len h in
      elim (ℕ_discrete n 0) [
        | yes z ↦ (
          unallocated store n,
          inode_alloc-expand bitmap_write uninit store store len len blank
              (expand-none file uninit store blank len e z),
          Filled-cast (sym z) (Filled-none file uninit (unallocated store n) fit),
        )
        | no nz ↦
            let (f, run, x) =
              fill-Filled file uninit indirect_index_start (unallocated store n) fit (omega arith)
                (omega arith) (omega arith) in
            let all : min indirect_index_start n ≡ n = omega arith in
            (
              f,
              inode_alloc-expand bitmap_write uninit store f.store len len (placed f) (
                  expand-by file uninit store blank len e nz
                  ∙ expand_by-direct bitmap_write uninit store blank len n f run
                      (omega (arith, x.left))),
              Filled-cast all x,
            )
      ]
