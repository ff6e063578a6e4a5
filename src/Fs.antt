-- ===== src/Fs.antt =====
-- The state of the file system, and its open inodes by their sectors.  No two open inodes have one
-- sector, so a pointer to an inode is its sector here, and a null pointer is `none`.
pub mod Pointers
use os_labratory_spring.Prelude.{
  ℕ, ◌+◌, suc, Bool, true, false, Option, none, some, List, [], ◌∷◌, ◌==◌, if◌then◌else◌, Result,
  ok, panic, ◌>>=◌,
}
use os_labratory_spring.Bitmap.{Bitmap}
use os_labratory_spring.Cache.{Cache}
use os_labratory_spring.Inode.{Inode}
use os_labratory_spring.Inode.Data.{read_at}
use os_labratory_spring.Inode.Expand.{Store}
use os_labratory_spring.Inode.WriteAt.{write_at}
use os_labratory_spring.Inode.Open.{inode_open, inode_close}

-- The free map with the disk, and `open_inodes`.
pub record Fs : Type 0 where
  pub store : Store
  pub inodes : List Inode

abbrev pub find_inode : List Inode → ℕ → Option Inode
find_inode [] sector = none
find_inode (i ∷ is) sector = if i.sector == sector then some i else find_inode is sector

-- The place of an inode in the list; past its end if it is not open.
abbrev pub place_of : List Inode → ℕ → ℕ
place_of [] sector = 0
place_of (i ∷ is) sector = if i.sector == sector then 0 else suc (place_of is sector)

-- A write through a pointer to an inode.
abbrev pub put_inode : List Inode → ℕ → Inode → List Inode
put_inode [] sector i' = []
put_inode (i ∷ is) sector i' = if i.sector == sector then i' ∷ is else i ∷ put_inode is sector i'

abbrev pub or_fault : Option Inode → Result Inode
or_fault none = panic
or_fault (some i) = ok i

-- The inode that a pointer leads to; a pointer to a closed one is a fault.
unfoldable pub deref : Fs → ℕ → Result Inode
deref fs sector = or_fault (find_inode fs.inodes sector)

abbrev pub pointer : ℕ → Option ℕ → Option ℕ
pointer sector none = none
pointer sector (some i) = some sector

abbrev pub with_disk : Fs → Cache → Fs
with_disk fs disk = record fs { store = record (fs.store) { disk = disk } }

unfoldable pub fs_open : Bool → Fs → ℕ → Result (Option ℕ × Fs)
unfolding inode_open
fs_open mem fs sector = do
  (i, inodes) ← inode_open mem fs.store.disk.dev fs.inodes sector
  ok (pointer sector i, record fs { inodes = inodes })

-- `inode_reopen` of an open inode.
unfoldable pub fs_reopen : Fs → ℕ → Result Fs
unfolding deref
fs_reopen fs sector = do
  inode ← deref fs sector
  ok (record fs {
    inodes = put_inode fs.inodes sector (record inode { open_cnt = inode.open_cnt + 1 });
  })

-- `inode_read_at` through a pointer.
unfoldable pub fs_read : Bool → Fs → ℕ → ℕ → ℕ → Result (List ℕ × Fs)
unfolding deref read_at
fs_read mem fs sector size offset = do
  inode ← deref fs sector
  (bytes, disk) ← read_at mem inode size offset fs.store.disk
  ok (bytes, with_disk fs disk)

-- `inode_remove`
unfoldable pub fs_remove : Fs → ℕ → Result Fs
unfolding deref
fs_remove fs sector = do
  inode ← deref fs sector
  ok (record fs { inodes = put_inode fs.inodes sector (record inode { removed = true }) })

module _ (bitmap_write : Bitmap → Cache → Result (Bool × Cache)) (uninit : ℕ → ℕ) where
  unfoldable pub fs_close : Fs → Option ℕ → Result Fs
  unfolding inode_close
  fs_close fs none = ok fs
  fs_close fs (some sector) = do
    (store, inodes) ← inode_close bitmap_write fs.store fs.inodes (place_of fs.inodes sector)
    ok (record { store = store; inodes = inodes })

  -- `inode_write_at` through a pointer.
  unfoldable pub fs_write : Bool → Fs → ℕ → List ℕ → ℕ → ℕ → Result (ℕ × Fs)
  unfolding deref write_at
  fs_write mem fs sector buffer size offset = do
    inode ← deref fs sector
    w ← write_at bitmap_write uninit mem fs.store inode buffer size offset
    ok (w.bytes_written, record { store = w.store; inodes = put_inode fs.inodes sector w.inode })

  -- `inode_add_parent`
  unfoldable pub add_parent : Bool → Fs → ℕ → ℕ → Result (Bool × Fs)
  unfolding fs_open fs_close deref
  add_parent mem fs parent_sector child_sector = do
    (p, fs1) ← fs_open mem fs child_sector
    elim p [
      | none ↦ ok (false, fs1)
      | some s ↦ do
        inode ← deref fs1 s
        fs2 ←
            fs_close
              (record fs1 {
                inodes = put_inode fs1.inodes s (record inode { parent = parent_sector });
              })
              (some s)
        ok (true, fs2)
    ]
