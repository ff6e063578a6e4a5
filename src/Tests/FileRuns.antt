-- ===== src/Tests/FileRuns.antt =====
-- Runs of the reads and writes of a file.
use os_labratory_spring.Prelude.{
  ℕ, ◌+◌, ◌≡◌, refl, inl, Bool, true, false, List, [], ◌∷◌, ok, arith,
}
use os_labratory_spring.Cache.{Cache}
use os_labratory_spring.Inode.{Inode, byte_to_sector}
use os_labratory_spring.Inode.Data.{copy_out, read_at, write_loop}
use os_labratory_spring.Inode.Layout.{IsMeta, single, outer, inner, Layout, content}
use os_labratory_spring.Inode.Read.{Read, read_at-Read}
use os_labratory_spring.Inode.Write.{Separate, Wrote, write_loop-Wrote}
use os_labratory_spring.Inode.Expand.{Store}
use os_labratory_spring.Inode.WriteAt.{Written, write_at, read_at-write_at}
use os_labratory_spring.File.{
  File, file_write, file_read, file_seek, file_deny_write, file_allow_write,
}
use os_labratory_spring.File.Use.{file_read-file_write, file_allow_write-file_deny_write}
use os_labratory_spring.Tests.{few_used, map_write, one_entry, one_entry-IsValid, small_file}

abbrev sectors : ℕ → ℕ
sectors k = k + 2

no_IsMeta : {m : ℕ} → ¬ IsMeta small_file 600 one_entry.dev m
no_IsMeta (single k lt used e) = absurd (omega arith)
no_IsMeta (outer used e) = absurd (omega arith)
no_IsMeta (inner k used e) = absurd (omega arith)

small_file-Layout : Layout small_file 600 one_entry sectors
unfolding byte_to_sector
small_file-Layout = record {
  finds = λ pos lt. ground arith;
  in_range = λ pos lt. omega arith;
  uncached = λ m x. absurd (no_IsMeta x);
  apart = λ m pos x lt. absurd (no_IsMeta x);
}

read_at-Read_example :
    (st' : Cache) × (read_at true small_file 200 500 one_entry
      ≡ ok (copy_out (content one_entry sectors) 500 100, st'))
    × Read small_file 600 one_entry st' sectors
read_at-Read_example =
    read_at-Read small_file 200 500 one_entry sectors one_entry-IsValid (inl (omega arith))
      small_file-Layout

small_file-Separate : Separate 600 sectors
small_file-Separate p q l l' e = omega arith

abbrev three_bytes : List ℕ
three_bytes = 7 ∷ 8 ∷ 9 ∷ []

write_loop-Wrote_example :
    (st' : Cache) × (write_loop true small_file three_bytes 3 3 511 0 one_entry ≡ ok (3, st'))
    × Wrote small_file one_entry st' sectors three_bytes 0 511 3
write_loop-Wrote_example =
    write_loop-Wrote small_file three_bytes 3 3 511 0 one_entry sectors (omega arith)
      small_file-Separate one_entry-IsValid (inl (omega arith)) small_file-Layout

abbrev small_disk : Store
small_disk = record { bits = few_used; open_file = false; disk = one_entry }

read_at-write_at_example :
    (w : Written) × (disk : Cache) × (write_at map_write
        (λ _. 0)
        true
        small_disk
        small_file
        three_bytes
        3
        511
      ≡ ok w)
    × (w.bytes_written ≡ 3)
    × (w.inode.read_length ≡ 600)
    × Wrote small_file one_entry w.store.disk sectors three_bytes 0 511 3
    × (read_at true w.inode 3 511 w.store.disk ≡ ok (three_bytes, disk))
read_at-write_at_example =
    read_at-write_at map_write (λ _. 0) small_disk small_file three_bytes 511 sectors refl
      (omega arith) small_file-Separate one_entry-IsValid (inl (omega arith)) small_file-Layout

-- A file at position 511 of the small one.
abbrev at_511 : File
at_511 = record { pos = 511; deny_write = false }

file_read-file_write_example :
    (w : Written) × (file' : File) × (disk : Cache) × (file_write map_write
        (λ _. 0)
        true
        small_disk
        at_511
        small_file
        three_bytes
        3
      ≡ ok (w, file'))
    × (file'.pos ≡ 514)
    × (file_read true (file_seek file' 511) w.inode 3 w.store.disk ≡ ok (three_bytes, file', disk))
file_read-file_write_example =
    file_read-file_write map_write (λ _. 0) small_disk at_511 small_file three_bytes sectors refl
      (omega arith) small_file-Separate one_entry-IsValid (inl (omega arith)) small_file-Layout

file_allow_write-file_deny_write_example :
    (file' : File) × (inode' : Inode) × (file_deny_write at_511 small_file ≡ ok (file', inode'))
    × ((mem : Bool) (store : Store) (buffer : List ℕ) (size offset : ℕ)
        → write_at map_write (λ _. 0) mem store inode' buffer size offset
          ≡ ok (record { bytes_written = 0; store = store; inode = inode' }))
    × (file_allow_write file' inode' ≡ ok (at_511, small_file))
file_allow_write-file_deny_write_example =
    file_allow_write-file_deny_write map_write (λ _. 0) at_511 small_file refl (omega arith)
