-- ===== src/File/Use.antt =====
-- Writing a file and reading it back, and denying writes.
use os_labratory_spring.Prelude.{
  ℕ, ◌+◌, ◌≤◌, ◌<◌, ◌≡◌, refl, ap, ◌∙◌, Bool, true, false, List, length, Result, ok, arith,
  ne→false, ◌≢◌,
}
use os_labratory_spring.Bitmap.{Bitmap}
use os_labratory_spring.Cache.{Cache}
use os_labratory_spring.Cache.Valid.{IsValid, HasRoom}
use os_labratory_spring.Inode.{Inode}
use os_labratory_spring.Inode.Data.{read_at}
use os_labratory_spring.Inode.Layout.{Layout}
use os_labratory_spring.Inode.Write.{Separate}
use os_labratory_spring.Inode.Expand.{Store}
use os_labratory_spring.Inode.WriteAt.{Written, write_at, read_at-write_at}
use os_labratory_spring.File.{
  File, inode_deny_write, inode_allow_write, file_deny_write, file_allow_write, file_seek,
  file_read, file_write,
}

file_read-run :
    (file : File) (inode : Inode) (size : ℕ) (disk disk' : Cache) (bytes : List ℕ)
    → read_at true inode size file.pos disk ≡ ok (bytes, disk')
    → file_read true file inode size disk
      ≡ ok (bytes, record file { pos = file.pos + length bytes }, disk')
unfolding file_read
file_read-run file inode size disk disk' bytes run = rw run refl

module _ (bitmap_write : Bitmap → Cache → Result (Bool × Cache)) (uninit : ℕ → ℕ) where
  file_write-run :
      (store : Store) (file : File) (inode : Inode) (buffer : List ℕ) (size : ℕ) (w : Written)
      → write_at bitmap_write uninit true store inode buffer size file.pos ≡ ok w
      → file_write bitmap_write uninit true store file inode buffer size
        ≡ ok (w, record file { pos = file.pos + w.bytes_written })
  unfolding file_write
  file_write-run store file inode buffer size w run = rw run refl

  write_at-denied :
      (mem : Bool) (store : Store) (inode : Inode) (buffer : List ℕ) (size offset : ℕ)
      → inode.deny_write_cnt ≢ 0
      → write_at bitmap_write uninit mem store inode buffer size offset
        ≡ ok (record { bytes_written = 0; store = store; inode = inode })
  unfolding write_at
  write_at-denied mem store inode buffer size offset nz =
      rw (ne→false inode.deny_write_cnt 0 nz) refl

  -- A write that ends within the file, where writes are not denied, with the bytes of the file
  -- where `byte_to_sector` finds them, each sector at one place, apart from its pointers, with a
  -- valid cache that has room and where `malloc` finds room: `file_write` advances the position
  -- past the buffer, and `file_read` after `file_seek` back gives the buffer and the same position.
  pub file_read-file_write :
      (store : Store) (file : File) (inode : Inode) (buffer : List ℕ) (sec : ℕ → ℕ)
      → inode.deny_write_cnt ≡ 0
      → file.pos + length buffer ≤ inode.length
      → Separate inode.length sec
      → IsValid store.disk
      → HasRoom store.disk
      → Layout inode inode.length store.disk sec
      → (w : Written) × (file' : File) × (disk : Cache) × (file_write bitmap_write uninit true store
            file inode buffer
            (length buffer)
          ≡ ok (w, file'))
        × (file'.pos ≡ file.pos + length buffer)
        × (file_read true (file_seek file' file.pos) w.inode (length buffer) w.store.disk
            ≡ ok (buffer, file', disk))
  file_read-file_write store file inode buffer sec allowed inside sep v r l =
      let (w, disk, run, count, _, _, back) =
        read_at-write_at bitmap_write uninit store inode buffer file.pos sec allowed inside sep v r
          l in
      let file' : File = record file { pos = file.pos + w.bytes_written } in
      let here : file.pos + length buffer ≡ file.pos + w.bytes_written = omega (arith, count) in
      (
        w,
        file',
        disk,
        file_write-run store file inode buffer (length buffer) w run,
        omega (arith, count),
        file_read-run (file_seek file' file.pos) w.inode (length buffer) w.store.disk disk buffer
              back
            ∙ ap (λ (p : ℕ). ok (buffer, record file { pos = p }, disk)) here,
      )

  -- A file that has not denied writes yet, to an inode that more openers have than deny writes:
  -- `file_deny_write` does not panic, and then every write to the inode writes no byte and changes
  -- nothing, until `file_allow_write` brings back the file and the inode as they were.
  pub file_allow_write-file_deny_write :
      (file : File) (inode : Inode)
      → file.deny_write ≡ false
      → inode.deny_write_cnt < inode.open_cnt
      → (file' : File) × (inode' : Inode) × (file_deny_write file inode ≡ ok (file', inode'))
        × ((mem : Bool) (store : Store) (buffer : List ℕ) (size offset : ℕ)
            → write_at bitmap_write uninit mem store inode' buffer size offset
              ≡ ok (record { bytes_written = 0; store = store; inode = inode' }))
        × (file_allow_write file' inode' ≡ ok (file, inode))
  unfolding file_deny_write file_allow_write inode_deny_write inode_allow_write
  file_allow_write-file_deny_write file inode fresh lt =
      let inode' : Inode = record inode { deny_write_cnt = inode.deny_write_cnt + 1 } in
      (
        record file { deny_write = true },
        inode',
        ground arith,
        λ mem store buffer size offset.
            write_at-denied mem store inode' buffer size offset (λ z. omega arith),
        ground arith,
      )
