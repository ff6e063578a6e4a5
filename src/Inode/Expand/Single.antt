-- ===== src/Inode/Expand/Single.antt =====
-- `inode_expand` up to the end of the indirect blocks.
use os_labratory_spring.Prelude.{
  ◌%◌, ◌*◌, ℕ, min, ne→false, ◌^◌, ◌+◌, ◌-◌, ◌*◌, ◌≤◌, ◌<◌, ◌≡◌, ◌≢◌, refl, ◌∙◌, Bool, true, length,
  Result, ok, arith, dec_lt, ℕ_discrete, eq→==, ne→==,
}
use os_labratory_spring.Bitmap.{Bitmap, bit}
use os_labratory_spring.Bitmap.Count.{free_count}
use os_labratory_spring.Cache.{Cache}
use os_labratory_spring.Inode.{
  Inode, indirect_block_ptrs, indirect_index_start, double_indirect_index_start,
  bytes_to_data_sectors,
}
use os_labratory_spring.Inode.Expand.{
  Store, Filling, Growing, sub_size, expand_blocks, expand, expand_by,
}
use os_labratory_spring.Inode.Expand.Disk.{MapFile, Fit, Grown, Grown-refl, Grown-trans}
use os_labratory_spring.Inode.Expand.Fill.{Filled, fill-Filled}
use os_labratory_spring.Inode.Expand.Table.{Held, Held-Grown, Partial}
use os_labratory_spring.Inode.Expand.Loop.{indirect_loop-Placed}
use os_labratory_spring.Inode.Expand.Place.{
  place, place-Placed, new_sectors, new_sectors-lt, place-direct, place-room,
}

-- The pointers of an inode that has no double indirect block.
pub record IsSingle (Own : ℕ → Type 0) (fm : Store) (i : Inode) : Type 0 where
  pub direct : i.direct_index < indirect_index_start → i.indirect_index ≡ 0
  pub index : i.indirect_index < indirect_block_ptrs
  pub held :
      indirect_index_start ≤ i.direct_index
      → i.indirect_index ≢ 0
      → Held Own fm (i.ptr i.direct_index)

-- The block of pointers that is filled in part.
abbrev pub Rewritten : Inode → ℕ → Type 0
Rewritten i t = (indirect_index_start ≤ i.direct_index) × Partial i t

-- What a growth by `n` sectors leaves.
pub record Expanded (Good : Cache → Type 0) (Own : ℕ → Type 0) (fm fm' : Store) (i i' : Inode)
    (n : ℕ) : Type 0 where
  pub fit : Fit Good Own fm'
  pub grown : Grown Own (Rewritten i) fm fm'
  pub more : place i' ≡ place i + n
  pub single : i'.indirect_index < indirect_block_ptrs

module _ {bitmap_write : Bitmap → Cache → Result (Bool × Cache)} {Good : Cache → Type 0}
    {Own : ℕ → Type 0} (file : MapFile bitmap_write Good Own) (uninit : ℕ → ℕ) where
  -- The part after the direct blocks.
  blocks-Expanded :
      (fm : Store) (i : Inode) (left : ℕ)
      → Fit Good Own fm
      → length fm.bits ≤ 2 ^ 32
      → IsSingle Own fm i
      → indirect_index_start ≤ i.direct_index
      → 0 < left
      → left < 2 ^ 32
      → place i + left ≤ 1156
      → left + 9 ≤ free_count fm.bits
      → (g' : Growing) × (expand_blocks bitmap_write uninit
            (record { store = fm; inode = i; outer = uninit; left = left })
          ≡ ok g')
        × (g'.left ≡ 0)
        × Expanded Good Own fm g'.store i g'.inode left
  unfolding expand_blocks
  blocks-Expanded fm i left fit small s start pos max room enough =
      let g : Growing = record { store = fm; inode = i; outer = uninit; left = left } in
      let (g', run, p) =
        indirect_loop-Placed file uninit double_indirect_index_start g fit small s.index
          (λ nz. s.held start (ne→== i.indirect_index 0 nz)) pos max (place-room i left start room)
          (omega arith) (omega arith) in
      (
        g',
        rw (run, eq→== g'.left 0 p.left),
        p.left,
        record {
          fit = p.fit;
          grown = Grown-trans (λ t used x. (start, x)) (Grown-refl fm) p.grown;
          more = place-Placed i g'.inode left start p.after p.place;
          single = p.index;
        },
      )

  -- The direct blocks, and the inode after them.
  abbrev direct_done : Inode → Filling → Inode
  direct_done i f = record i { ptr = f.ptr; direct_index = f.index }

  direct-IsSingle :
      {fm : Store} {i : Inode} {n k : ℕ} (f : Filling)
      → IsSingle Own fm i
      → Filled Good Own (record { store = fm; ptr = i.ptr; index = i.direct_index; left = n }) f k
      → k ≡ min (indirect_index_start - i.direct_index) n
      → (IsSingle Own f.store (direct_done i f))
        × (place (direct_done i f) ≡ place i + k)
        × Grown Own (Rewritten i) fm f.store
        × ((t : ℕ) → bit fm.bits t ≡ true → Rewritten (direct_done i f) t → Rewritten i t)
  direct-IsSingle {fm} {i} {n} {k} f s h e =
      let at_rest : indirect_index_start ≤ i.direct_index → f.ptr f.index ≡ i.ptr i.direct_index =
        λ l.
          let x : f.index ≡ i.direct_index = omega (arith, h.index) in
          rw x (h.above i.direct_index (omega arith)) in
      let late : i.indirect_index ≢ 0 → indirect_index_start ≤ i.direct_index = λ nz.
        elim (dec_lt i.direct_index indirect_index_start) [
          | yes l ↦ absurd (nz (s.direct l))
          | no nl ↦ omega arith
        ] in
      (
        record {
          direct = λ l. s.direct (omega (arith, h.index));
          index = s.index;
          held = λ l nz.
              rw (at_rest (late nz))
                (Held-Grown (i.ptr i.direct_index) (s.held (late nz) nz) h.grown);
        },
        place-direct i (direct_done i f) n k s.direct refl h.index e,
        Grown-trans (λ t used x. absurd x) (Grown-refl fm) h.grown,
        λ t used x. (late x.1.0, (x.1.0, x.1.1 ∙ at_rest (late x.1.0))),
      )

  Expanded-none :
      (fm : Store) (i : Inode) (n : ℕ)
      → Fit Good Own fm
      → IsSingle Own fm i
      → n ≡ 0
      → Expanded Good Own fm fm i i n
  Expanded-none fm i n fit s z = record {
    fit = fit;
    grown = Grown-refl fm;
    more = omega arith;
    single = s.index;
  }

  expand_by-Expanded :
      (fm : Store) (i : Inode) (new_length n : ℕ)
      → Fit Good Own fm
      → length fm.bits ≤ 2 ^ 32
      → IsSingle Own fm i
      → 0 < n
      → n < 2 ^ 32
      → new_length < 2 ^ 31
      → place i + n ≤ 1156
      → n + 9 ≤ free_count fm.bits
      → (fm' : Store) × (i' : Inode) × (expand_by bitmap_write uninit fm i new_length n
          ≡ ok (fm', i', new_length))
        × Expanded Good Own fm fm' i i' n
  unfolding expand_by
  expand_by-Expanded fm i new_length n fit small s pos max len room enough =
      let f0 : Filling = record { store = fm; ptr = i.ptr; index = i.direct_index; left = n } in
      let (f, run, h) =
        fill-Filled file uninit (indirect_index_start - i.direct_index) f0 fit pos max
          (omega arith) in
      let (s', more, g, back) = direct-IsSingle {n = n} f s h refl in
      let i1 = direct_done i f in
      elim (ℕ_discrete f.left 0) [
        | yes z ↦ (
          f.store,
          i1,
          rw (run, eq→== f.left 0 z),
          record { fit = h.fit; grown = g; more = omega (arith, more, h.left); single = s.index },
        )
        | no nz ↦
            let (g', run', z, x) =
              blocks-Expanded f.store i1 f.left h.fit (omega (arith, h.grown.size)) s'
                (omega (arith, h.index, h.left)) (omega arith) (omega (arith, h.left))
                (omega (arith, more, h.left)) (omega (arith, h.free, h.left)) in
            let zero_left : sub_size new_length (g'.left * 512 % 2 ^ 32) ≡ new_length =
              omega (arith, z) in
            (
              g'.store,
              g'.inode,
              rw (run, ne→false f.left 0 nz, run', zero_left),
              record {
                fit = x.fit;
                grown = Grown-trans back g x.grown;
                more = omega (arith, x.more, more, h.left);
                single = x.single;
              },
            )
      ]

  -- The test on the number of new sectors.
  pub expand-by :
      (fm : Store) (i : Inode) (new_length : ℕ) {n : ℕ}
      → sub_size (bytes_to_data_sectors new_length) (bytes_to_data_sectors i.length) ≡ n
      → n ≢ 0
      → expand bitmap_write uninit fm i new_length ≡ expand_by bitmap_write uninit fm i new_length n
  unfolding expand
  expand-by fm i new_length {n} e nz = rw (e, ne→false n 0 nz)

  pub expand-none :
      (fm : Store) (i : Inode) (new_length : ℕ) {n : ℕ}
      → sub_size (bytes_to_data_sectors new_length) (bytes_to_data_sectors i.length) ≡ n
      → n ≡ 0
      → expand bitmap_write uninit fm i new_length ≡ ok (fm, i, new_length)
  unfolding expand
  expand-none fm i new_length {n} e z = rw (e, eq→== n 0 z)

  -- Where the disk fits the map and writes of the map file are complete: `inode_expand` to a longer
  -- length, of a file whose sectors end within the indirect blocks, with nine sectors free beside
  -- those that it needs, neither panics nor loops for ever: it returns the new length.  The
  -- places of the inode have advanced by the number of sectors that the new length needs, and no
  -- sector that was in use looks different, but for the map file's and the block of pointers that
  -- was filled in part.
  pub expand-Expanded :
      (fm : Store) (i : Inode) (new_length : ℕ)
      → let n = bytes_to_data_sectors new_length - bytes_to_data_sectors i.length in
        Fit Good Own fm
        → length fm.bits ≤ 2 ^ 32
        → IsSingle Own fm i
        → i.length ≤ new_length
        → new_length + 511 < 2 ^ 31
        → place i + n ≤ 1156
        → n + 9 ≤ free_count fm.bits
        → (fm' : Store) × (i' : Inode) × (expand bitmap_write uninit fm i new_length
            ≡ ok (fm', i', new_length))
          × Expanded Good Own fm fm' i i' n
  expand-Expanded fm i new_length fit small s le max room enough =
      let n = bytes_to_data_sectors new_length - bytes_to_data_sectors i.length in
      let e : sub_size (bytes_to_data_sectors new_length) (bytes_to_data_sectors i.length) ≡ n =
        new_sectors i.length new_length le (omega arith) in
      elim (ℕ_discrete n 0) [
        | yes z ↦ (fm, i, expand-none fm i new_length e z, Expanded-none fm i n fit s z)
        | no nz ↦
            let (fm', i', run, x) =
              expand_by-Expanded fm i new_length n fit small s (omega arith)
                (omega (arith, new_sectors-lt i.length new_length (omega arith))) (omega arith) room
                enough in
            (fm', i', expand-by fm i new_length e nz ∙ run, x)
      ]
