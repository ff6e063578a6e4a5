-- ===== src/Inode/Expand/Faults.antt =====
-- What `inode_expand` does where its assumptions fail: a full device, and a freed sector that is
-- still in the cache.
use os_labratory_spring.Prelude.{
  ℕ, subst, ◌+◌, ◌<◌, ◌≡◌, ◌∙◌, inl, inr, Bool, true, false, length, Result, ok, arith, some,
  dec_lt,
}
use os_labratory_spring.Bitmap.{Bitmap, scan_and_flip}
use os_labratory_spring.Bitmap.Scan.{NoGroup, First, scan_and_flip-cases}
use os_labratory_spring.Cache.{Cache}
use os_labratory_spring.Cache.View.{slot, view}
use os_labratory_spring.Device.{Block, block_write-lt, written}
use os_labratory_spring.FreeMap.{allocate, allocate_found}
use os_labratory_spring.Inode.Expand.{Store, Filling, sub_size, fill, zeros, put, disk_write}

-- The state after a write past the cache.
abbrev pub disk_written : Store → ℕ → Block → Store
disk_written fm s b = record fm { disk = record (fm.disk) { dev = written fm.disk.dev s b } }

pub disk_write-lt :
    (fm : Store) (s : ℕ) (b : Block)
    → s < fm.disk.dev.size
    → disk_write fm s b ≡ ok (disk_written fm s b)
unfolding disk_write
disk_write-lt fm s b h = ground (arith, block_write-lt fm.disk.dev s b h)

First-unique : {b : Bitmap} {n m i j : ℕ} {v : Bool} → First b n m v i → First b n m v j → i ≡ j
First-unique {i} {j} f g = elim (dec_lt i j) [
  | yes p ↦ absurd (g.least i f.after p f.group)
  | no p ↦ elim (dec_lt j i) [ yes q ↦ absurd (f.least j g.after q g.group) | no q ↦ omega arith ]
]

put_self : (ptr : ℕ → ℕ) (i s : ℕ) → put ptr i s i ≡ s
put_self ptr i s = ground arith

stored-disk_written : (fm : Store) (s : ℕ) (b : Block) → (disk_written fm s b).disk.dev.stored s ≡ b
stored-disk_written fm s b = ground arith

view-cached :
    (st : Cache) (s : ℕ) (b : Block) (d : Bool) → slot st.entries s ≡ some (b, d) → view st s ≡ b
view-cached st s b d h = ground arith

module _ (bitmap_write : Bitmap → Cache → Result (Bool × Cache)) (uninit : ℕ → ℕ) where
  allocate-full :
      (fm : Store) (old : ℕ)
      → NoGroup fm.bits 0 1 false
      → allocate bitmap_write fm 1 old ≡ ok (record { map = fm; sector = old; success = false })
  unfolding allocate allocate_found
  allocate-full fm old ng = elim (scan_and_flip-cases fm.bits 0 1 false (omega arith)) [
    | inl (i, b, run, first, a) ↦ absurd (ng i first.after first.fits first.group)
    | inr (run, _) ↦ ground arith
  ]

  -- On a device with no free sector a round of the loops of `inode_expand` writes zeros over the
  -- sector whose number the pointer holds, keeps that number, and counts it as allocated; the map
  -- is unchanged.
  pub fill-full :
      (f : Filling)
      → NoGroup f.store.bits 0 1 false
      → f.ptr f.index < f.store.disk.dev.size
      → fill bitmap_write uninit 1 f
        ≡ ok (record {
          store = disk_written f.store (f.ptr f.index) zeros;
          ptr = put f.ptr f.index (f.ptr f.index);
          index = f.index + 1;
          left = sub_size f.left 1;
        })
  unfolding fill
  fill-full f ng lt = ground (
    arith,
    allocate-full f.store (f.ptr f.index) ng,
    disk_write-lt f.store (f.ptr f.index) zeros lt,
  )

  allocate-closed :
      (fm : Store) (i : ℕ) (bits : Bitmap) (old : ℕ)
      → scan_and_flip fm.bits 0 1 false ≡ ok (some i, bits)
      → fm.open_file ≡ false
      → allocate bitmap_write fm 1 old
        ≡ ok (record { map = record fm { bits = bits }; sector = i; success = true })
  unfolding allocate allocate_found
  allocate-closed fm i bits old run closed = ground arith

  fill-one :
      (f : Filling) (m st : Store) (s : ℕ)
      → allocate bitmap_write f.store 1 (f.ptr f.index)
        ≡ ok (record { map = m; sector = s; success = true })
      → disk_write m s zeros ≡ ok st
      → fill bitmap_write uninit 1 f
        ≡ ok (record {
          store = st;
          ptr = put f.ptr f.index s;
          index = f.index + 1;
          left = sub_size f.left 1;
        })
  unfolding fill
  fill-one f m st s a w = ground arith

  -- While the map file is not open: if the first free sector is still in the cache from an earlier
  -- use, then the zeros that a round writes go past the cache, and a reader of the new sector sees
  -- the old bytes.
  pub fill-stale :
      (f : Filling) (s : ℕ) (b : Block) (d : Bool)
      → f.store.open_file ≡ false
      → First f.store.bits 0 1 false s
      → length f.store.bits ≡ f.store.disk.dev.size
      → slot f.store.disk.entries s ≡ some (b, d)
      → (f' : Filling) × (fill bitmap_write uninit 1 f ≡ ok f')
        × (f'.ptr f.index ≡ s)
        × (f'.store.disk.dev.stored s ≡ zeros)
        × (view f'.store.disk s ≡ b)
  fill-stale f s b d closed first size here =
      elim (scan_and_flip-cases f.store.bits 0 1 false (omega arith)) [
        | inr (_, ng) ↦ absurd (ng s first.after first.fits first.group)
        | inl (i, bits, run, first', a) ↦
            let same_sector : i ≡ s = First-unique first' first in
            let m : Store = record (f.store) { bits = bits } in
            let lt : i < f.store.disk.dev.size = subst (λ n. i < n) size (omega arith) in
            (
              record {
                store = disk_written m i zeros;
                ptr = put f.ptr f.index i;
                index = f.index + 1;
                left = sub_size f.left 1;
              },
              fill-one f m (disk_written m i zeros) i
                  (allocate-closed f.store i bits (f.ptr f.index) run closed)
                  (disk_write-lt m i zeros lt),
              put_self f.ptr f.index i ∙ same_sector,
              subst (λ n. (disk_written m i zeros).disk.dev.stored n ≡ zeros) same_sector
                  (stored-disk_written m i zeros),
              view-cached (disk_written m i zeros).disk s b d here,
            )
      ]
