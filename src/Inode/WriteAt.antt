-- ===== src/Inode/WriteAt.antt =====
-- `inode_write_at` of filesys/inode.c as a whole, and a read of what it wrote.
use os_labratory_spring.Prelude.{
  ℕ, suc, subst, min, eq→==, ◌+◌, ◌-◌, ◌≤◌, ◌<◌, ◌≡◌, refl, ap, ◌∙◌, true, Bool, List, [], ◌∷◌,
  length, get_or, ltb, ◌==◌, if◌then◌else◌, Result, ok, ◌>>=◌, arith,
}
use os_labratory_spring.Bitmap.{Bitmap}
use os_labratory_spring.Cache.{Cache}
use os_labratory_spring.Cache.Valid.{IsValid, HasRoom}
use os_labratory_spring.Device.{Device}
use os_labratory_spring.Inode.{Inode, byte_to_sector}
use os_labratory_spring.Inode.Data.{copy_out, read_at, write_loop}
use os_labratory_spring.Inode.Layout.{Layout, content, IsMeta, single, outer, inner}
use os_labratory_spring.Inode.Read.{read_at-Read}
use os_labratory_spring.Inode.Write.{Separate, Wrote, write_loop-Wrote}
use os_labratory_spring.Inode.Expand.{Store, expand}

-- What `inode_write_at` returns and leaves.
pub record Written : Type 0 where
  pub bytes_written : ℕ
  pub store : Store
  pub inode : Inode

module _ (bitmap_write : Bitmap → Cache → Result (Bool × Cache)) (uninit : ℕ → ℕ) where
  -- `if (offset + size > inode_length (inode))`; the lock of the inode is left out.
  unfoldable pub grow : Store → Inode → ℕ → Result (Store × Inode)
  unfolding expand
  grow store inode end =
      if ltb inode.length end
      then (do
        (store', inode', length) ← expand bitmap_write uninit store inode end
        ok (store', record inode' { length = length }))
      else ok (store, inode)

  -- `inode_write_at`
  unfoldable pub write_at : Bool → Store → Inode → List ℕ → ℕ → ℕ → Result Written
  unfolding grow write_loop
  write_at mem store inode buffer size offset =
      let go = (do
        (store', inode') ← grow store inode (offset + size)
        (bytes_written, disk) ← write_loop mem inode' buffer size size offset 0 store'.disk
        ok (record {
          bytes_written = bytes_written;
          store = record store' { disk = disk };
          inode = record inode' { read_length = inode'.length };
        })) in
      if inode.deny_write_cnt == 0
      then go
      else ok (record { bytes_written = 0; store = store; inode = inode })

  grow-inside :
      (store : Store) (inode : Inode) (end : ℕ)
      → end ≤ inode.length
      → grow store inode end ≡ ok (store, inode)
  unfolding grow
  grow-inside store inode end h = ground arith

  pub write_at-loop :
      (store : Store) (inode : Inode) (buffer : List ℕ) (size offset n : ℕ) (disk : Cache)
      → inode.deny_write_cnt ≡ 0
      → offset + size ≤ inode.length
      → write_loop true inode buffer size size offset 0 store.disk ≡ ok (n, disk)
      → write_at true store inode buffer size offset
        ≡ ok (record {
          bytes_written = n;
          store = record store { disk = disk };
          inode = record inode { read_length = inode.length };
        })
  unfolding write_at
  write_at-loop store inode buffer size offset n disk allowed inside run =
      rw (eq→== inode.deny_write_cnt 0 allowed, grow-inside store inode (offset + size) inside, run)

-- A read to the end of the file after a write.
abbrev pub reread : Inode → Inode
reread inode = record inode { read_length = inode.length }

IsMeta-reread :
    {inode : Inode} {len m : ℕ} {dev : Device}
    → IsMeta (reread inode) len dev m
    → IsMeta inode len dev m
IsMeta-reread (single k lt used e) = single k lt used e
IsMeta-reread (outer used e) = outer used e
IsMeta-reread (inner k used e) = inner k used e

pub Layout-reread :
    {inode : Inode} {len : ℕ} {st : Cache} {sec : ℕ → ℕ}
    → Layout inode len st sec
    → Layout (reread inode) len st sec
unfolding byte_to_sector
Layout-reread l = record {
  finds = λ p lt. l.finds p lt;
  in_range = l.in_range;
  uncached = λ m x. l.uncached m (IsMeta-reread x);
  apart = λ m p x lt. l.apart m p (IsMeta-reread x) lt;
}

-- Bytes that are those of a list.
pub copy_out-list :
    (f : ℕ → ℕ) (offset : ℕ) (bytes : List ℕ)
    → ((k : ℕ) → k < length bytes → f (offset + k) ≡ get_or bytes k 0)
    → copy_out f offset (length bytes) ≡ bytes
unfolding copy_out
copy_out-list f offset [] h = refl
copy_out-list f offset (b ∷ bytes) h =
    let first : f offset ≡ b = ap f (omega arith) ∙ h 0 (omega arith) in
    let rest =
      copy_out-list f (offset + 1) bytes λ k lt. ap f (omega arith) ∙ h (suc k) (omega arith) in
    cc

-- The loops on a range that ends within the file.
pub whole_write :
    (inode : Inode) (buffer : List ℕ) (n offset : ℕ) (st : Cache) (sec : ℕ → ℕ)
    → offset + n ≤ inode.length
    → Separate inode.length sec
    → IsValid st
    → HasRoom st
    → Layout inode inode.length st sec
    → (st' : Cache) × (write_loop true inode buffer n n offset 0 st ≡ ok (n, st'))
      × Wrote inode st st' sec buffer 0 offset n
whole_write inode buffer n offset st sec inside sep v r l =
    let (st', run, w) = write_loop-Wrote inode buffer n n offset 0 st sec (omega arith) sep v r l in
    let all : min n (inode.length - offset) ≡ n = omega arith in
    let count : 0 + min n (inode.length - offset) ≡ n = omega arith in
    (
      st',
      run ∙ ap (λ (k : ℕ). ok (k, st')) count,
      subst (Wrote inode st st' sec buffer 0 offset) all w,
    )

whole_read :
    (inode : Inode) (n offset : ℕ) (st : Cache) (sec : ℕ → ℕ)
    → offset + n ≤ inode.read_length
    → IsValid st
    → HasRoom st
    → Layout inode inode.read_length st sec
    → (st' : Cache) × (read_at true inode n offset st
        ≡ ok (copy_out (content st sec) offset n, st'))
whole_read inode n offset st sec inside v r l =
    let (st', run, _) = read_at-Read inode n offset st sec v r l in
    let all : min n (inode.read_length - offset) ≡ n = omega arith in
    (st', run ∙ ap (λ (k : ℕ). ok (copy_out (content st sec) offset k, st')) all)

pub written_byte :
    {inode : Inode} {st st' : Cache} {sec : ℕ → ℕ} {buffer : List ℕ} {offset n : ℕ} (k : ℕ)
    → offset + n ≤ inode.length
    → Wrote inode st st' sec buffer 0 offset n
    → k < n
    → content st' sec (offset + k) ≡ get_or buffer k 0
written_byte {buffer = buffer} {offset} k inside w lt =
    let at : offset + k - offset ≡ k = omega arith in
    ground (arith, w.bytes (offset + k) (omega arith), at)

module _ (bitmap_write : Bitmap → Cache → Result (Bool × Cache)) (uninit : ℕ → ℕ) where
  -- A write that ends within the file, where writes are not denied, with the bytes of the file
  -- where `byte_to_sector` finds them, each sector at one place, apart from its pointers, with room
  -- in the cache and where `malloc` finds room: `inode_write_at` returns the number of bytes asked
  -- for, the file is readable to its end, and `inode_read_at` of the same range gives the bytes of
  -- the buffer.
  pub read_at-write_at :
      (store : Store) (inode : Inode) (buffer : List ℕ) (offset : ℕ) (sec : ℕ → ℕ)
      → inode.deny_write_cnt ≡ 0
      → offset + length buffer ≤ inode.length
      → Separate inode.length sec
      → IsValid store.disk
      → HasRoom store.disk
      → Layout inode inode.length store.disk sec
      → (w : Written) × (disk : Cache) × (write_at bitmap_write uninit true store inode buffer
            (length buffer)
            offset
          ≡ ok w)
        × (w.bytes_written ≡ length buffer)
        × (w.inode.read_length ≡ inode.length)
        × Wrote inode store.disk w.store.disk sec buffer 0 offset (length buffer)
        × (read_at true w.inode (length buffer) offset w.store.disk ≡ ok (buffer, disk))
  read_at-write_at store inode buffer offset sec allowed inside sep v r l =
      let n = length buffer in
      let (st, run, wrote) = whole_write inode buffer n offset store.disk sec inside sep v r l in
      let (st', run') =
        whole_read (reread inode) n offset st sec inside wrote.valid wrote.room
          (Layout-reread wrote.layout) in
      let bytes =
        copy_out-list (content st sec) offset buffer λ k lt. written_byte k inside wrote lt in
      (
        record { bytes_written = n; store = record store { disk = st }; inode = reread inode },
        st',
        write_at-loop bitmap_write uninit store inode buffer n offset n st allowed inside run,
        refl,
        refl,
        wrote,
        run' ∙ ap (λ (b : List ℕ). ok (b, st')) bytes,
      )
