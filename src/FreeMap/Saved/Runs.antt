-- ===== src/FreeMap/Saved/Runs.antt =====
-- Writes of the free map to its file, and what they leave.
use os_labratory_spring.Prelude.{
  ℕ, zero, suc, min, ◌+◌, ◌-◌, ◌*◌, ◌/◌, ◌^◌, ◌≤◌, ◌<◌, ◌≡◌, refl, ap, sym, subst, ◌∙◌, Bool, true,
  List, length, get_or, ltb, lt→ltb, if◌then◌else◌, Result, ok, ◌>>=◌, arith, none, ne→false,
  ℕ_discrete,
}
use os_labratory_spring.Bitmap.{Bitmap}
use os_labratory_spring.Bitmap.Packed.{Packed, byte_cnt}
use os_labratory_spring.Bitmap.Packed.Files.{packed_bytes}
use os_labratory_spring.Bitmap.Packed.Refines.{Packs}
use os_labratory_spring.Bitmap.Packed.RoundTrip.{
  Stores, bitmap_read-bitmap_write, bitmap_write-full,
}
use os_labratory_spring.FreeMap.Pack.{pack, pack_small, pack-size, pack-Packs}
use os_labratory_spring.FreeMap.Laws.{Saves}
use os_labratory_spring.FreeMap.Saved.{read_map_file, write_map_file, save, load}
use os_labratory_spring.Device.{Block, Device, written}
use os_labratory_spring.Cache.{Cache}
use os_labratory_spring.Cache.View.{slot}
use os_labratory_spring.Cache.Valid.{IsValid, HasRoom}
use os_labratory_spring.Inode.{Inode, direct_bytes}
use os_labratory_spring.Inode.Data.{copy_out}
use os_labratory_spring.Inode.Layout.{
  Layout, IsMeta, single, outer, inner, content, byte_to_sector-frame,
}
use os_labratory_spring.Inode.Read.{read_at-Read}
use os_labratory_spring.Inode.Write.{Separate, Wrote}
use os_labratory_spring.Inode.WriteAt.{Written, write_at-loop, whole_write, written_byte}
use os_labratory_spring.Inode.Expand.Disk.{MapFile}
use os_labratory_spring.Dir.Search.{length-copy_out}

-- The inode of the map file on a device of `n` sectors: it has room for the words of the map in its
-- direct blocks, in sectors of its own, and its length has been read.
pub record IsMapInode (inode : Inode) (sec : ℕ → ℕ) (n : ℕ) : Type 0 where
  pub bound : n + 31 < 2 ^ 32
  pub room : byte_cnt n ≤ inode.length
  pub direct : inode.length ≤ direct_bytes
  pub whole : inode.read_length ≡ inode.length
  pub allowed : inode.deny_write_cnt ≡ 0
  pub separate : Separate inode.length sec

-- The disk under the map file.
pub record MapDisk (inode : Inode) (sec : ℕ → ℕ) (n : ℕ) (disk : Cache) : Type 0 where
  pub valid : IsValid disk
  pub room : HasRoom disk
  pub layout : Layout inode inode.length disk sec
  pub size : disk.dev.size ≡ n

-- The sectors of the map file.
pub record MapSectors (inode : Inode) (sec : ℕ → ℕ) (t : ℕ) : Type 0 where
  pub pos : ℕ
  pub inside : pos < inode.length
  pub at : sec (pos / 512) ≡ t

get_or-copy_out : (f : Block) (a n k : ℕ) → k < n → get_or (copy_out f a n) k 0 ≡ f (a + k)
unfolding copy_out
get_or-copy_out f a zero k h = absurd (omega arith)
get_or-copy_out f a (suc n) zero h = ap f (omega arith)
get_or-copy_out f a (suc n) (suc k) h =
    get_or-copy_out f (a + 1) n k (omega arith) ∙ ap f (omega arith)

module _ (inner_write : Bitmap → Cache → Result (Bool × Cache)) (uninit : ℕ → ℕ) {inode : Inode}
    {sec : ℕ → ℕ} {n : ℕ} (m : IsMapInode inode sec n) where
  write_map_file-Wrote :
      (b : Bitmap) (disk : Cache) (out : ℕ → ℕ)
      → MapDisk inode sec n disk
      → (disk' : Cache) × (write_map_file inner_write uninit inode b disk out (byte_cnt n) 0
          ≡ ok (byte_cnt n, disk'))
        × Wrote inode disk disk' sec (copy_out out 0 (byte_cnt n)) 0 0 (byte_cnt n)
  unfolding write_map_file
  write_map_file-Wrote b disk out d =
      let (disk', run, w) =
        whole_write inode (copy_out out 0 (byte_cnt n)) (byte_cnt n) 0 disk sec
          (omega (arith, m.room)) m.separate d.valid d.room d.layout in
      (
        disk',
        ap (λ (r : Result Written). r >>= λ w. ok (w.bytes_written, w.store.disk))
            (write_at-loop inner_write uninit (record { bits = b; open_file = true; disk = disk })
              inode (copy_out out 0 (byte_cnt n)) (byte_cnt n) 0 (byte_cnt n) disk' m.allowed
              (omega (arith, m.room)) run),
        w,
      )

  Wrote-MapDisk :
      {disk disk' : Cache} {buffer : List ℕ} {k : ℕ}
      → MapDisk inode sec n disk
      → Wrote inode disk disk' sec buffer 0 0 k
      → MapDisk inode sec n disk'
  Wrote-MapDisk d w = record {
    valid = w.valid;
    room = w.room;
    layout = w.layout;
    size = w.size ∙ d.size;
  }

  save-run :
      (b : Bitmap) (disk : Cache)
      → length b ≡ n
      → MapDisk inode sec n disk
      → (disk' : Cache) × (save inner_write uninit inode b disk ≡ ok (true, disk'))
        × Wrote inode disk disk' sec
            (copy_out (packed_bytes (pack b)) 0 (byte_cnt n))
            0
            0
            (byte_cnt n)
  unfolding save
  save-run b disk covers d =
      let (disk', run, w) = write_map_file-Wrote b disk (packed_bytes (pack b)) d in
      (
        disk',
        bitmap_write-full (write_map_file inner_write uninit inode b) (pack b) disk disk' (
            subst
              (λ (k : ℕ).
                write_map_file inner_write uninit inode b disk (packed_bytes (pack b)) (byte_cnt k)
                  0
                ≡ ok (byte_cnt k, disk'))
              (sym (pack-size b ∙ covers)) run),
        w,
      )

  -- `bitmap_write` of the program is one with which the free map can work.
  pub save-Saves : Saves (save inner_write uninit inode) (MapDisk inode sec n) n
  save-Saves = record {
    returns = λ b disk covers d.
        let (disk', run, w) = save-run b disk covers d in (true, disk', run, Wrote-MapDisk d w);
  }

no_IsMeta :
    {inode : Inode} {dev : Device} {t : ℕ}
    → inode.length ≤ direct_bytes
    → ¬ IsMeta inode inode.length dev t
no_IsMeta h (single k lt used e) = absurd (omega arith)
no_IsMeta h (outer used e) = absurd (omega arith)
no_IsMeta h (inner k used e) = absurd (omega arith)

-- A write past the cache to a sector that is not cached.
written-MapDisk :
    {inode : Inode} {sec : ℕ → ℕ} {n : ℕ} {disk : Cache} (t : ℕ) (b : Block)
    → inode.length ≤ direct_bytes
    → slot disk.entries t ≡ none
    → MapDisk inode sec n disk
    → MapDisk inode sec n (record disk { dev = written disk.dev t b })
written-MapDisk {inode} {sec} {n} {disk} t b direct absent d = record {
  valid = record {
    counted = d.valid.counted;
    bounded = d.valid.bounded;
    coherent = record {
      distinct = d.valid.coherent.distinct;
      in_range = d.valid.coherent.in_range;
      clean = λ s c e. elim (ℕ_discrete t s) [
        | yes same_sector ↦ absurd (
            let x : slot disk.entries s ≡ none =
              subst (λ (k : ℕ). slot disk.entries k ≡ none) same_sector absent in
            cc)
        | no ne ↦ rw (ne→false t s ne) (d.valid.coherent.clean s c e)
      ];
    };
  };
  room = d.room;
  layout = record {
    finds = λ pos lt.
        byte_to_sector-frame inode inode.length pos refl (λ s x. absurd (no_IsMeta direct x)) lt
        ∙ d.layout.finds pos lt;
    in_range = d.layout.in_range;
    uncached = λ s x. absurd (no_IsMeta direct x);
    apart = λ s pos x lt. absurd (no_IsMeta direct x);
  };
  size = d.size;
}

module _ (inner_write : Bitmap → Cache → Result (Bool × Cache)) (uninit : ℕ → ℕ) {inode : Inode}
    {sec : ℕ → ℕ} {n : ℕ} (m : IsMapInode inode sec n) where
  -- `bitmap_write` of the program is one with which inodes can grow.
  pub save-MapFile :
      MapFile (save inner_write uninit inode) (MapDisk inode sec n) (MapSectors inode sec)
  save-MapFile = record {
    saves = λ b disk covers d.
        let (disk', run, w) = save-run inner_write uninit m b disk (covers ∙ d.size) d in
        (
          disk',
          run,
          Wrote-MapDisk inner_write uninit m d w,
          record {
            size = w.size;
            kept = λ t foreign.
                w.others t (λ p lt e. foreign (record { pos = p; inside = lt; at = e }));
            absent = λ t foreign e.
                w.absent t (λ p lt e'. foreign (record { pos = p; inside = lt; at = e' })) e;
          },
        );
    direct = λ disk t b d lt foreign absent. written-MapDisk t b m.direct absent d;
  }

  -- `inode_read_at` gives back the bytes that `inode_write_at` has written.
  write_map_file-Stores :
      (b : Bitmap)
      → Stores
          (read_map_file inode)
          (write_map_file inner_write uninit inode b)
          (MapDisk inode sec n)
          (byte_cnt n)
  unfolding read_map_file
  write_map_file-Stores b = record {
    reads_back = λ disk disk' out held d written_to.
        let (disk1, run, w) = write_map_file-Wrote inner_write uninit m b disk out d in
        let same_disk : disk1 ≡ disk' = cc in
        let w' =
          subst
            (λ (s : Cache). Wrote inode disk s sec (copy_out out 0 (byte_cnt n)) 0 0 (byte_cnt n))
            same_disk w in
        let (disk2, read, _) =
          read_at-Read inode (byte_cnt n) 0 disk' sec w'.valid w'.room
            (subst (λ (l : ℕ). Layout inode l disk' sec) (sym m.whole) w'.layout) in
        let all : min (byte_cnt n) (inode.read_length - 0) ≡ byte_cnt n =
          omega (arith, m.room, m.whole) in
        let bytes = copy_out (content disk' sec) 0 (byte_cnt n) in
        let size : length bytes ≡ byte_cnt n = length-copy_out (content disk' sec) 0 (byte_cnt n) in
        (
          λ k. if ltb k (length bytes) then get_or bytes k 0 else held k,
          disk2,
          rw (read, all)
              (ap
                (λ (k : ℕ).
                  ok (k, (λ j. if ltb j (length bytes) then get_or bytes j 0 else held j), disk2))
                size),
          λ k lt. rw (lt→ltb k (length bytes) (omega (arith, size))) (
              get_or-copy_out (content disk' sec) 0 (byte_cnt n) k lt
              ∙ written_byte k (omega (arith, m.room)) w' lt
              ∙ get_or-copy_out out 0 (byte_cnt n) k lt
              ∙ ap out (omega arith)),
        );
  }

  -- What `free_map_allocate` and the like have saved, `free_map_open` reads back: on a disk with the
  -- map file in sectors of its own, with a valid cache with room and with memory, `bitmap_write` of
  -- the map to its file succeeds, and `bitmap_read` from it into a map of the same size, with room
  -- for the words, reports success and leaves words that hold the bits of the map.
  pub load-save :
      (b : Bitmap) (q : Packed) (disk : Cache)
      → length b ≡ n
      → q.bit_cnt ≡ n
      → q.bit_cnt ≤ length q.bits * 32
      → MapDisk inode sec n disk
      → (disk' : Cache) × (save inner_write uninit inode b disk ≡ ok (true, disk'))
        × ((q' : Packed) × (disk'' : Cache) × (load inode q disk' ≡ ok (true, q', disk''))
            × Packs q' b)
  unfolding save load
  load-save b q disk covers same_size room d =
      let (disk', run, w) = save-run inner_write uninit m b disk covers d in
      let packed_size : (pack b).bit_cnt ≡ n = pack-size b ∙ covers in
      (
        disk',
        run,
        bitmap_read-bitmap_write (read_map_file inode) (write_map_file inner_write uninit inode b)
            (pack b) q b disk disk'
            (subst
              (λ (k : ℕ).
                Stores (read_map_file inode) (write_map_file inner_write uninit inode b)
                  (MapDisk inode sec n) (byte_cnt k))
              (sym packed_size) (write_map_file-Stores b))
            d (pack-Packs b (omega (arith, m.bound, covers))) (pack_small b)
            (same_size ∙ sym packed_size) room (omega (arith, m.bound, packed_size)) run,
      )
