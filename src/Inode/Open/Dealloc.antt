-- ===== src/Inode/Open/Dealloc.antt =====
-- What `inode_dealloc` frees.
use os_labratory_spring.Prelude.{
  ℕ, zero, suc, min, ◌+◌, ◌-◌, ◌≤◌, ◌<◌, ◌≡◌, ◌≢◌, refl, ◌∙◌, sym, Bool, true, false, length,
  Result, ok, arith, dec_lt, ℕ_discrete,
}
use os_labratory_spring.Bitmap.{Bitmap, bit}
use os_labratory_spring.Bitmap.Loops.{Assigned}
use os_labratory_spring.Cache.{Cache}
use os_labratory_spring.FreeMap.Laws.{Saves, release-Assigned}
use os_labratory_spring.Inode.{
  Inode, direct_bytes, bytes_to_data_sectors, bytes_to_indirect_sectors,
  bytes_to_double_indirect_sector,
}
use os_labratory_spring.Inode.Expand.{Store}
use os_labratory_spring.Inode.Open.{release_ptrs, dealloc, dealloc_blocks}

-- The `n` pointers from `i` on name sectors in use, no two the same.
pub record AllHeld (store : Store) (ptr : ℕ → ℕ) (i n : ℕ) : Type 0 where
  pub in_range : (j : ℕ) → i ≤ j → j < i + n → ptr j < length store.bits
  pub used : (j : ℕ) → i ≤ j → j < i + n → bit store.bits (ptr j) ≡ true
  pub distinct : (j k : ℕ) → i ≤ j → j < k → k < i + n → ptr j ≢ ptr k

-- Their sectors are free, and no other bit has changed.
pub record Freed (Good : Cache → Type 0) (store store' : Store) (ptr : ℕ → ℕ) (i n : ℕ)
    : Type 0 where
  pub good : Good store'.disk
  pub file : store'.open_file ≡ store.open_file
  pub size : length store'.bits ≡ length store.bits
  pub free : (j : ℕ) → i ≤ j → j < i + n → bit store'.bits (ptr j) ≡ false
  pub kept :
      (t : ℕ) → ((j : ℕ) → i ≤ j → j < i + n → ptr j ≢ t) → bit store'.bits t ≡ bit store.bits t

-- A bit that one release does not touch.
released_other :
    {b b' : Bitmap} {i : ℕ} (t : ℕ) → Assigned b i 1 false b' → i ≢ t → bit b' t ≡ bit b t
released_other {i = i} t a ne = elim (dec_lt t i) [
  | yes l ↦ a.below t l
  | no nl ↦ a.above t (omega arith)
]

AllHeld-released :
    {store store' : Store} {ptr : ℕ → ℕ} {i n : ℕ}
    → AllHeld store ptr i (suc n)
    → Assigned store.bits (ptr i) 1 false store'.bits
    → AllHeld store' ptr (i + 1) n
AllHeld-released {ptr = ptr} {i} h a = record {
  in_range = λ j p q. rw a.size (h.in_range j (omega arith) (omega arith));
  used = λ j p q.
      released_other (ptr j) a (h.distinct i j (omega arith) (omega arith) (omega arith))
      ∙ h.used j (omega arith) (omega arith);
  distinct = λ j k p q r. h.distinct j k (omega arith) q (omega arith);
}

Freed-suc :
    {Good : Cache → Type 0} {store store' store'' : Store} {ptr : ℕ → ℕ} {i n : ℕ}
    → AllHeld store ptr i (suc n)
    → Assigned store.bits (ptr i) 1 false store'.bits
    → store'.open_file ≡ store.open_file
    → Freed Good store' store'' ptr (i + 1) n
    → Freed Good store store'' ptr i (suc n)
Freed-suc {ptr = ptr} {i} {n} h a file f = record {
  good = f.good;
  file = f.file ∙ file;
  size = f.size ∙ a.size;
  free = λ j p q. elim (ℕ_discrete j i) [
    | yes e ↦ rw e (
        f.kept (ptr i)
          (λ k r s e'. h.distinct i k (omega arith) (omega arith) (omega arith) (sym e'))
        ∙ a.inside (ptr i) (omega arith) (omega arith))
    | no ne ↦ f.free j (omega arith) (omega arith)
  ];
  kept = λ t o.
      f.kept t (λ j p q. o j (omega arith) (omega arith))
      ∙ released_other t a (o i (omega arith) (omega arith));
}

-- The counts of `inode_dealloc` for a file in the direct blocks.
direct_counts :
    (size : ℕ)
    → size ≤ direct_bytes
    → (min (bytes_to_data_sectors size) 4 ≡ bytes_to_data_sectors size)
      × (min (bytes_to_indirect_sectors size) (13 - min (bytes_to_data_sectors size) 4) ≡ 0)
      × (bytes_to_double_indirect_sector size ≡ 0)
unfolding bytes_to_data_sectors bytes_to_indirect_sectors bytes_to_double_indirect_sector
direct_counts size h = (omega arith, ground arith, ground arith)

module _ (bitmap_write : Bitmap → Cache → Result (Bool × Cache)) {Good : Cache → Type 0} {size : ℕ}
    (saves : Saves bitmap_write Good size) where
  release_ptrs-Freed :
      (n i : ℕ) (ptr : ℕ → ℕ) (store : Store)
      → length store.bits ≡ size
      → Good store.disk
      → store.open_file ≡ true
      → AllHeld store ptr i n
      → (store' : Store) × (release_ptrs bitmap_write n i ptr store ≡ ok store')
        × Freed Good store store' ptr i n
  unfolding release_ptrs
  release_ptrs-Freed zero i ptr store covers good opened h = (
    store,
    refl,
    record {
      good = good;
      file = refl;
      size = refl;
      free = λ j p q. absurd (omega arith);
      kept = λ t o. refl;
    },
  )
  release_ptrs-Freed (suc n) i ptr store covers good opened h =
      let (store', w, run, a, file, _, good') =
        release-Assigned bitmap_write saves store (ptr i) 1 covers good opened
          (omega (arith, h.in_range i (omega arith) (omega arith)))
          (λ j p q.
            let e : j ≡ ptr i = omega arith in rw e (h.used i (omega arith) (omega arith))) in
      let (store'', rest, f) =
        release_ptrs-Freed n (i + 1) ptr store' (a.size ∙ covers) good' (file ∙ opened)
          (AllHeld-released h a) in
      (store'', rw (run, rest), Freed-suc h a file f)

  dealloc-direct :
      (store : Store) (inode : Inode) {store' : Store}
      → inode.length ≤ direct_bytes
      → release_ptrs bitmap_write (bytes_to_data_sectors inode.length) 0 inode.ptr store ≡ ok store'
      → dealloc bitmap_write store inode ≡ ok store'
  unfolding dealloc dealloc_blocks
  dealloc-direct store inode {store'} small run =
      let (one, two, three) = direct_counts inode.length small in rw (two, three, one, run)

  -- For a file in the direct blocks alone, with the map file open and writes of it returning:
  -- if the pointers of its sectors name sectors in use, no two the same, then `inode_dealloc` does
  -- not panic, frees those sectors, and changes no other bit of the map.
  pub dealloc-Freed :
      (store : Store) (inode : Inode)
      → inode.length ≤ direct_bytes
      → length store.bits ≡ size
      → Good store.disk
      → store.open_file ≡ true
      → AllHeld store inode.ptr 0 (bytes_to_data_sectors inode.length)
      → (store' : Store) × (dealloc bitmap_write store inode ≡ ok store')
        × Freed Good store store' inode.ptr 0 (bytes_to_data_sectors inode.length)
  dealloc-Freed store inode small covers good opened h =
      let (store', run, f) =
        release_ptrs-Freed (bytes_to_data_sectors inode.length) 0 inode.ptr store covers good opened
          h in
      (store', dealloc-direct store inode small run, f)
