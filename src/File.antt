-- ===== src/File.antt =====
-- filesys/file.c: open files.  The inode of a file is shared, so it is passed beside the file.
pub mod Use
use os_labratory_spring.Prelude.{
  ℕ, ◌+◌, ◌-◌, Bool, true, false, List, length, ltb, leb, if◌then◌else◌, Result, ok, panic, ◌>>=◌,
  ◌>>◌, assert,
}
use os_labratory_spring.Bitmap.{Bitmap}
use os_labratory_spring.Cache.{Cache}
use os_labratory_spring.Inode.{Inode}
use os_labratory_spring.Inode.Data.{read_at}
use os_labratory_spring.Inode.Expand.{Store}
use os_labratory_spring.Inode.WriteAt.{Written, write_at}

-- `struct file`, but for the pointer to its inode.
pub record File : Type 0 where
  pub pos : ℕ
  pub deny_write : Bool

-- `inode_deny_write` and `inode_allow_write` of filesys/inode.c.
unfoldable pub inode_deny_write : Inode → Result Inode
inode_deny_write inode = do
  assert (leb (inode.deny_write_cnt + 1) inode.open_cnt)
  ok (record inode { deny_write_cnt = inode.deny_write_cnt + 1 })

unfoldable pub inode_allow_write : Inode → Result Inode
inode_allow_write inode = do
  assert (ltb 0 inode.deny_write_cnt)
  assert (leb inode.deny_write_cnt inode.open_cnt)
  ok (record inode { deny_write_cnt = inode.deny_write_cnt - 1 })

unfoldable pub file_deny_write : File → Inode → Result (File × Inode)
unfolding inode_deny_write
file_deny_write file inode =
    let deny = (do
      inode' ← inode_deny_write inode
      ok (record file { deny_write = true }, inode')) in
    if file.deny_write then ok (file, inode) else deny

unfoldable pub file_allow_write : File → Inode → Result (File × Inode)
unfolding inode_allow_write
file_allow_write file inode =
    let allow = (do
      inode' ← inode_allow_write inode
      ok (record file { deny_write = false }, inode')) in
    if file.deny_write then allow else ok (file, inode)

-- `file_seek`
abbrev pub file_seek : File → ℕ → File
file_seek file new_pos = record file { pos = new_pos }

-- `file_read`: the bytes put in the buffer.
unfoldable pub file_read : Bool → File → Inode → ℕ → Cache → Result (List ℕ × File × Cache)
unfolding read_at
file_read mem file inode size disk = do
  (bytes, disk') ← read_at mem inode size file.pos disk
  ok (bytes, record file { pos = file.pos + length bytes }, disk')

-- `file_read_at`, which leaves the position as it is.
unfoldable pub file_read_at : Bool → Inode → ℕ → ℕ → Cache → Result (List ℕ × Cache)
unfolding read_at
file_read_at mem inode size file_ofs disk = read_at mem inode size file_ofs disk

-- `file_length` and `file_tell`.
abbrev pub file_length : Inode → ℕ
file_length inode = inode.length

abbrev pub file_tell : File → ℕ
file_tell file = file.pos

module _ (bitmap_write : Bitmap → Cache → Result (Bool × Cache)) (uninit : ℕ → ℕ) where
  unfoldable pub file_write : Bool → Store → File → Inode → List ℕ → ℕ → Result (Written × File)
  unfolding write_at
  file_write mem store file inode buffer size = do
    w ← write_at bitmap_write uninit mem store inode buffer size file.pos
    ok (w, record file { pos = file.pos + w.bytes_written })

  -- `file_write_at`, which leaves the position as it is.
  unfoldable pub file_write_at : Bool → Store → Inode → List ℕ → ℕ → ℕ → Result Written
  unfolding write_at
  file_write_at mem store inode buffer size file_ofs =
      write_at bitmap_write uninit mem store inode buffer size file_ofs
