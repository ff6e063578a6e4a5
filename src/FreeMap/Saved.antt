-- ===== src/FreeMap/Saved.antt =====
-- `bitmap_write` and `bitmap_read` of the free map on its own file: lib/kernel/bitmap.c over
-- filesys/file.c, `inode_write_at` and `inode_read_at`.  The inode of the file is open all the time.
-- `inner_write` is the `bitmap_write` that a growth of the map file would call.
pub mod Runs
pub mod Uses
use os_labratory_spring.Prelude.{
  ℕ, Bool, true, length, get_or, ltb, if◌then◌else◌, Result, ok, ◌>>=◌,
}
use os_labratory_spring.Bitmap.{Bitmap}
use os_labratory_spring.Bitmap.Packed.{Packed}
use os_labratory_spring.Bitmap.Packed.Files.{bitmap_read, bitmap_write}
use os_labratory_spring.FreeMap.Pack.{pack}
use os_labratory_spring.Cache.{Cache}
use os_labratory_spring.Inode.{Inode}
use os_labratory_spring.Inode.Data.{copy_out, read_at}
use os_labratory_spring.Inode.WriteAt.{write_at}

-- `file_read_at` of the map file into a buffer, which keeps what it held where nothing is read.
unfoldable pub read_map_file : Inode → Cache → (ℕ → ℕ) → ℕ → ℕ → Result (ℕ × (ℕ → ℕ) × Cache)
unfolding read_at
read_map_file inode disk held size ofs = do
  (bytes, disk') ← read_at true inode size ofs disk
  ok (length bytes, λ k. if ltb k (length bytes) then get_or bytes k 0 else held k, disk')

-- `bitmap_read (free_map, free_map_file)`
unfoldable pub load : Inode → Packed → Cache → Result (Bool × Packed × Cache)
unfolding bitmap_read read_map_file
load inode b disk = bitmap_read (read_map_file inode) b disk

module _ (inner_write : Bitmap → Cache → Result (Bool × Cache)) (uninit : ℕ → ℕ) where
  -- `file_write_at` of the map file, while the map is `b`.
  unfoldable pub write_map_file : Inode → Bitmap → Cache → (ℕ → ℕ) → ℕ → ℕ → Result (ℕ × Cache)
  unfolding write_at copy_out
  write_map_file inode b disk buffer size ofs = do
    w ←
        write_at inner_write uninit true (record { bits = b; open_file = true; disk = disk }) inode
          (copy_out buffer 0 size) size ofs
    ok (w.bytes_written, w.store.disk)

  -- `bitmap_write (free_map, free_map_file)`
  unfoldable pub save : Inode → Bitmap → Cache → Result (Bool × Cache)
  unfolding bitmap_write write_map_file pack
  save inode b disk = bitmap_write (write_map_file inode b) (pack b) disk
