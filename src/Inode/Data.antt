-- ===== src/Inode/Data.antt =====
-- The loops of `inode_read_at` and `inode_write_at` over the sectors of a file, through the cache.
use os_labratory_spring.Prelude.{
  ℕ, zero, suc, ◌+◌, ◌-◌, ◌%◌, Bool, true, false, ◌&&◌, List, [], ◌∷◌, ◌++◌, get_or, leb, ltb, ◌==◌,
  if◌then◌else◌, Result, ok, hang, ◌>>=◌,
}
use os_labratory_spring.Device.{Block, block_sector_size}
use os_labratory_spring.Cache.{Entry, Cache, get, modify}
use os_labratory_spring.Cache
use os_labratory_spring.Inode.{Inode, byte_to_sector}

-- `memcpy` out of a block: `n` bytes from offset `ofs`.
unfoldable pub copy_out : Block → ℕ → ℕ → List ℕ
copy_out b ofs zero = []
copy_out b ofs (suc n) = b ofs ∷ copy_out b (ofs + 1) n

-- `memcpy` into a block at offset `ofs`: the `n` bytes of a buffer from index `from` on.
unfoldable pub copy_in : Block → ℕ → List ℕ → ℕ → ℕ → Block
copy_in b ofs buffer from n k =
    if leb ofs k && ltb k (ofs + n) then get_or buffer (from + (k - ofs)) 0 else b k

-- The bytes that one round moves: the least of what is asked, left in the file, left in the sector.
abbrev pub chunk_size : ℕ → ℕ → ℕ → ℕ
chunk_size file_length size offset =
    let inode_left = file_length - offset in
    let sector_left = block_sector_size - offset % block_sector_size in
    let min_left = if ltb inode_left sector_left then inode_left else sector_left in
    if ltb size min_left then size else min_left

-- What the loops do with the entry: `c->accessed = true; c->open_cnt--`, and for a write the copy
-- and `c->dirty = true`.
abbrev pub finish_read : Entry → Entry
finish_read c = record c { accessed = true; open_cnt = c.open_cnt - 1 }

abbrev pub finish_write : ℕ → List ℕ → ℕ → ℕ → Entry → Entry
finish_write ofs buffer from n c = record c {
  block = copy_in c.block ofs buffer from n;
  accessed = true;
  dirty = true;
  open_cnt = c.open_cnt - 1;
}

-- The block of the entry at a position.
abbrev pub block_at : List Entry → ℕ → Block
block_at [] i = λ _. 0
block_at (c ∷ cs) zero = c.block
block_at (c ∷ cs) (suc i) = block_at cs i

-- `while (size > 0)` of `inode_read_at`; `bytes` are those read so far, and `mem` tells whether
-- `malloc` finds room when the cache grows.  A round reads a byte or more, so `size` rounds do.
unfoldable pub read_loop : Bool → Inode → ℕ → ℕ → ℕ → ℕ → List ℕ → Cache → Result (List ℕ × Cache)
unfolding byte_to_sector Cache.get Cache.modify copy_out
read_loop mem inode file_length zero size offset bytes st =
    if size == 0 then ok (bytes, st) else hang
read_loop mem inode file_length (suc fuel) size offset bytes st =
    let n = chunk_size file_length size offset in
    let round = (do
      sector ← byte_to_sector inode st.dev file_length offset
      if n == 0 then ok (bytes, st) else (do
        (i, st') ← get st sector false mem
        read_loop mem inode file_length fuel (size - n) (offset + n)
            (bytes ++ copy_out (block_at st'.entries i) (offset % block_sector_size) n)
            (record st' { entries = modify finish_read i st'.entries }))) in
    if size == 0 then ok (bytes, st) else round

-- `inode_read_at`: the bytes put in the buffer; their number is what it returns.
unfoldable pub read_at : Bool → Inode → ℕ → ℕ → Cache → Result (List ℕ × Cache)
unfolding read_loop
read_at mem inode size offset st =
    if leb inode.read_length offset
    then ok ([], st)
    else read_loop mem inode inode.read_length size size offset [] st

-- `while (size > 0)` of `inode_write_at`; `done` is `bytes_written`.
unfoldable pub write_loop : Bool → Inode → List ℕ → ℕ → ℕ → ℕ → ℕ → Cache → Result (ℕ × Cache)
unfolding byte_to_sector Cache.get Cache.modify copy_in
write_loop mem inode buffer zero size offset done st = if size == 0 then ok (done, st) else hang
write_loop mem inode buffer (suc fuel) size offset done st =
    let n = chunk_size inode.length size offset in
    let round = (do
      sector ← byte_to_sector inode st.dev inode.length offset
      if n == 0 then ok (done, st) else (do
        (i, st') ← get st sector true mem
        write_loop mem inode buffer fuel (size - n) (offset + n) (done + n) (record st' {
          entries = modify (finish_write (offset % block_sector_size) buffer done n) i st'.entries;
        }))) in
    if size == 0 then ok (done, st) else round
