-- ===== src/Mount.antt =====
-- The file of the free map in filesys/free-map.c, and filesys_init, filesys_done and do_format of
-- filesys/filesys.c.  Messages on the console are left out.
use os_labratory_spring.Prelude.{
  ℕ, ◌*◌, Bool, true, false, Option, none, some, [], length, if◌then◌else◌, Result, ok, panic,
  ◌>>=◌, ◌>>◌, assert,
}
use os_labratory_spring.Bitmap.{Bitmap}
use os_labratory_spring.Device.{Device}
use os_labratory_spring.Cache.{Cache, write_to_disk}
use os_labratory_spring.Cache
use os_labratory_spring.FreeMap
use os_labratory_spring.FreeMap.{free_map_sector, root_dir_sector}
use os_labratory_spring.Inode.{div_round_up}
use os_labratory_spring.Inode.Create.{inode_create}
use os_labratory_spring.Fs.{Fs, fs_open, with_disk}
use os_labratory_spring.Dir.{dir_create}
use os_labratory_spring.Filesys.{OpenFile, file_open, file_close}

-- The file system with `free_map_file`.
pub record Mount : Type 0 where
  pub fs : Fs
  pub map_file : Option OpenFile

-- `bitmap_file_size`: whole words of 32 bits.
unfoldable pub bitmap_file_size : Bitmap → ℕ
bitmap_file_size b = 4 * div_round_up (length b) 32

-- The file that `file_open` gives, which PANICs if it is a null pointer.
abbrev pub opened : Option OpenFile → Result OpenFile
opened none = panic
opened (some f) = ok f

module _ (bitmap_write : Bitmap → Cache → Result (Bool × Cache))
    (bitmap_read : Bitmap → Cache → Result (Bool × Bitmap × Cache)) (uninit : ℕ → ℕ) where
  -- `free_map_file = file_open (inode_open (FREE_MAP_SECTOR))`
  unfoldable pub open_map_file : Bool → Fs → Result Mount
  unfolding fs_open file_open
  open_map_file mem fs = do
    (p, fs1) ← fs_open mem fs free_map_sector
    (f, fs2) ← file_open bitmap_write uninit mem fs1 p
    file ← opened f
    ok (record {
      fs = record fs2 { store = record (fs2.store) { open_file = true } };
      map_file = some file;
    })

  unfoldable pub free_map_open : Bool → Fs → Result Mount
  unfolding open_map_file
  free_map_open mem fs = do
    m ← open_map_file mem fs
    (done, bits, disk) ← bitmap_read m.fs.store.bits m.fs.store.disk
    assert done
    ok (record m {
      fs = record (m.fs) { store = record (m.fs.store) { bits = bits; disk = disk } };
    })

  -- `free_map_close`; the pointer is left as it was.
  unfoldable pub free_map_close : Mount → Result Mount
  unfolding file_close
  free_map_close m = do
    fs ← file_close bitmap_write uninit m.fs m.map_file
    ok (record m { fs = fs })

  unfoldable pub free_map_create : Bool → Fs → Result Mount
  unfolding inode_create open_map_file bitmap_file_size
  free_map_create mem fs = do
    (created, store) ←
        inode_create bitmap_write uninit mem fs.store free_map_sector
          (bitmap_file_size fs.store.bits) false
    assert created
    m ← open_map_file mem (record fs { store = store })
    (saved, disk) ← bitmap_write m.fs.store.bits m.fs.store.disk
    assert saved
    ok (record m { fs = with_disk m.fs disk })

  unfoldable pub do_format : Bool → Fs → Result Mount
  unfolding free_map_create dir_create free_map_close
  do_format mem fs = do
    m ← free_map_create mem fs
    (created, fs') ← dir_create bitmap_write uninit mem m.fs root_dir_sector 16
    assert created
    free_map_close (record m { fs = fs' })

  -- `filesys_init` on the device of the file system.
  unfoldable pub filesys_init : Bool → Device → Bool → Result Mount
  unfolding FreeMap.init Cache.init do_format free_map_open
  filesys_init mem dev format = do
    store ← FreeMap.init mem dev.size (Cache.init dev)
    let fs : Fs = record { store = store; inodes = [] }
    m ← if format then do_format mem fs else ok (record { fs = fs; map_file = none })
    free_map_open mem m.fs

  -- `filesys_done`
  unfoldable pub filesys_done : Mount → Result Mount
  unfolding write_to_disk free_map_close
  filesys_done m = do
    disk ← write_to_disk m.fs.store.disk true
    free_map_close (record m { fs = with_disk m.fs disk })
