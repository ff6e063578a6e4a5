-- ===== src/Inode/Open/Disk.antt =====
-- An inode that is closed and opened again.
use os_labratory_spring.Prelude.{
  get_elem?, eq→==, ℕ, ◌+◌, ◌-◌, ◌^◌, ◌<◌, ◌≡◌, refl, ◌∙◌, Bool, true, false, not, none, some, List,
  ◌∷◌, ◌==◌, Result, ok, arith,
}
use os_labratory_spring.Bitmap.{Bitmap}
use os_labratory_spring.Device.{Block, Device, written, block_read}
use os_labratory_spring.Words.{block_of, word-block_of}
use os_labratory_spring.Cache.{Cache}
use os_labratory_spring.Inode.{Inode, inode_block_ptrs}
use os_labratory_spring.Inode.Expand.{Store}
use os_labratory_spring.Inode.Expand.Faults.{disk_written, disk_write-lt}
use os_labratory_spring.Inode.Open.{
  disk_words, from_disk, reopen, inode_open, inode_close, close_last, remove_at, ptr_start,
}

-- The numbers of an inode fit in the words of `struct inode_disk`.
pub record IsStorable (inode : Inode) : Type 0 where
  pub length : inode.length < 2 ^ 32
  pub direct : inode.direct_index < 2 ^ 32
  pub indirect : inode.indirect_index < 2 ^ 32
  pub double : inode.double_indirect_index < 2 ^ 32
  pub parent : inode.parent < 2 ^ 32
  pub ptr : (k : ℕ) → k < inode_block_ptrs → inode.ptr k < 2 ^ 32

-- The inode that was stored, opened once.
pub record Restored (inode inode' : Inode) : Type 0 where
  pub sector : inode'.sector ≡ inode.sector
  pub open_cnt : inode'.open_cnt ≡ 1
  pub removed : inode'.removed ≡ false
  pub deny_write_cnt : inode'.deny_write_cnt ≡ 0
  pub length : inode'.length ≡ inode.length
  pub read_length : inode'.read_length ≡ inode.length
  pub direct_index : inode'.direct_index ≡ inode.direct_index
  pub indirect_index : inode'.indirect_index ≡ inode.indirect_index
  pub double_indirect_index : inode'.double_indirect_index ≡ inode.double_indirect_index
  pub isdir : inode'.isdir ≡ inode.isdir
  pub parent : inode'.parent ≡ inode.parent
  pub ptr : (k : ℕ) → k < inode_block_ptrs → inode'.ptr k ≡ inode.ptr k

isdir-disk_words : (inode : Inode) → not (block_of (disk_words inode) 20 == 0) ≡ inode.isdir
unfolding block_of disk_words
isdir-disk_words inode = ground arith

ptr-disk_words : (inode : Inode) (k : ℕ) → disk_words inode (ptr_start + k) ≡ inode.ptr k
unfolding disk_words
ptr-disk_words inode k = let e : 114 + k - 114 ≡ k = omega arith in ground (arith, e)

pub from_disk-Restored :
    (inode : Inode)
    → IsStorable inode
    → Restored inode (from_disk inode.sector (block_of (disk_words inode)))
unfolding from_disk disk_words
from_disk-Restored inode h =
    let w = disk_words inode in
    record {
      sector = refl;
      open_cnt = refl;
      removed = refl;
      deny_write_cnt = refl;
      length = word-block_of w 0 h.length;
      read_length = word-block_of w 0 h.length;
      direct_index = word-block_of w 2 h.direct;
      indirect_index = word-block_of w 3 h.indirect;
      double_indirect_index = word-block_of w 4 h.double;
      isdir = isdir-disk_words inode;
      parent = word-block_of w 6 h.parent;
      ptr = λ k lt.
          let e = ptr-disk_words inode k in word-block_of w (ptr_start + k) (rw e (h.ptr k lt)) ∙ e;
    }

pub inode_open-new :
    (dev : Device) (inodes : List Inode) (s : ℕ) (b : Block)
    → reopen inodes s ≡ none
    → s < dev.size
    → inode_open true (written dev s b) inodes s ≡ ok (some 0, from_disk s b ∷ inodes)
unfolding inode_open block_read
inode_open-new dev inodes s b absent lt = ground arith

module _ (bitmap_write : Bitmap → Cache → Result (Bool × Cache)) where
  inode_close-last :
      (store : Store) (inode : Inode) (inodes : List Inode) (i : ℕ)
      → get_elem? inodes i ≡ some inode
      → inode.open_cnt ≡ 1
      → inode.removed ≡ false
      → inode.sector < store.disk.dev.size
      → inode_close bitmap_write store inodes i
        ≡ ok (disk_written store inode.sector (block_of (disk_words inode)), remove_at i inodes)
  unfolding inode_close close_last
  inode_close-last store inode inodes i here once kept lt =
      rw
        (
          inode_close,
          here,
          eq→== inode.open_cnt 1 once,
          kept,
          disk_write-lt store inode.sector (block_of (disk_words inode)) lt,
        )
        refl

  -- An inode anywhere in the list of open ones that one opener has, that is not removed and whose
  -- numbers fit in 32 bits, no other open inode being in its sector: after `inode_close` it is no
  -- longer among the open ones, and if `malloc` finds room then `inode_open` of its sector gives
  -- an inode with the same length, indices, flag, parent and pointers, open once, with writes
  -- allowed.
  pub inode_open-inode_close :
      (store : Store) (inode : Inode) (inodes : List Inode) (i : ℕ)
      → get_elem? inodes i ≡ some inode
      → inode.open_cnt ≡ 1
      → inode.removed ≡ false
      → inode.sector < store.disk.dev.size
      → IsStorable inode
      → reopen (remove_at i inodes) inode.sector ≡ none
      → (store' : Store) × (inode' : Inode) × (inode_close bitmap_write store inodes i
          ≡ ok (store', remove_at i inodes))
        × (inode_open true store'.disk.dev (remove_at i inodes) inode.sector
            ≡ ok (some 0, inode' ∷ remove_at i inodes))
        × Restored inode inode'
  inode_open-inode_close store inode inodes i here once kept lt h absent =
      let b = block_of (disk_words inode) in
      (
        disk_written store inode.sector b,
        from_disk inode.sector b,
        inode_close-last store inode inodes i here once kept lt,
        inode_open-new store.disk.dev (remove_at i inodes) inode.sector b absent lt,
        from_disk-Restored inode h,
      )
