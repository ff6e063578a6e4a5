-- ===== src/Inode/Expand/Fill.antt =====
-- The loop that gives a sector of zeros to one pointer after another.
use os_labratory_spring.Prelude.{
  ℕ, zero, suc, subst, min, ne→false, ◌^◌, ◌+◌, ◌-◌, ◌≤◌, ◌<◌, ◌≡◌, ◌≢◌, refl, ap, ◌∙◌, inl, inr,
  Bool, true, false, length, Result, ok, arith, none, Bool-cases, ℕ_discrete, eq→==,
}
use os_labratory_spring.Bitmap.{Bitmap, bit}
use os_labratory_spring.Bitmap.Count.{free_count}
use os_labratory_spring.Device.{Block}
use os_labratory_spring.Cache.{Cache}
use os_labratory_spring.Cache.View.{slot, view}
use os_labratory_spring.FreeMap.{Allocation, allocate}
use os_labratory_spring.Inode.Expand.{Store, Filling, zeros, put, sub_size, fill, disk_write}
use os_labratory_spring.Inode.Expand.Disk.{
  MapFile, Fit, Grown, Grown-refl, Grown-trans, Nowhere, allocate-Given, disk_write-Grown,
}

pub sub_size-one : (n : ℕ) → 0 < n → n < 2 ^ 32 → sub_size n 1 ≡ n - 1
sub_size-one n h h' = omega arith

-- A sector that was free and is now in use, with the bytes `b`.
pub record Fresh (Own : ℕ → Type 0) (fm fm' : Store) (b : Block) (s : ℕ) : Type 0 where
  pub was : bit fm.bits s ≡ false
  pub now : bit fm'.bits s ≡ true
  pub in_range : s < length fm'.bits
  pub foreign : ¬ Own s
  pub uncached : slot fm'.disk.entries s ≡ none
  pub seen : view fm'.disk s ≡ b

-- The next `k` pointers name `k` sectors that were free, each at one place and full of zeros; no
-- other pointer and no sector that was in use is changed.
pub record Filled (Good : Cache → Type 0) (Own : ℕ → Type 0) (f f' : Filling) (k : ℕ) : Type 0 where
  pub fit : Fit Good Own f'.store
  pub grown : Grown Own Nowhere f.store f'.store
  pub index : f'.index ≡ f.index + k
  pub left : f'.left + k ≡ f.left
  pub free : free_count f.store.bits ≡ free_count f'.store.bits + k
  pub below : (j : ℕ) → j < f.index → f'.ptr j ≡ f.ptr j
  pub above : (j : ℕ) → f.index + k ≤ j → f'.ptr j ≡ f.ptr j
  pub fresh : (j : ℕ) → f.index ≤ j → j < f.index + k → Fresh Own f.store f'.store zeros (f'.ptr j)
  pub distinct : (i j : ℕ) → f.index ≤ i → i < j → j < f.index + k → f'.ptr i ≢ f'.ptr j

pub Filled-cast :
    {Good : Cache → Type 0} {Own : ℕ → Type 0} {f f' : Filling} {k k' : ℕ}
    → k ≡ k'
    → Filled Good Own f f' k
    → Filled Good Own f f' k'
Filled-cast {Good} {Own} {f} {f'} e = subst (Filled Good Own f f') e

-- A fresh sector stays so while others are taken.
pub Fresh-Grown :
    {Own X : ℕ → Type 0} {fm fm' fm'' : Store} {b : Block} {s : ℕ}
    → Fresh Own fm fm' b s
    → Grown Own X fm' fm''
    → ¬ X s
    → Fresh Own fm fm'' b s
Fresh-Grown {s = s} f g x = record {
  was = f.was;
  now = g.marks s f.now;
  in_range = omega (arith, f.in_range, g.size);
  foreign = f.foreign;
  uncached = g.absent s f.foreign f.uncached;
  seen = g.kept s f.now f.foreign x ∙ f.seen;
}

-- A sector that was free after others were taken was free before.
pub bit-Grown :
    {Own X : ℕ → Type 0} {fm fm' : Store} (s : ℕ)
    → Grown Own X fm fm'
    → bit fm'.bits s ≡ false
    → bit fm.bits s ≡ false
bit-Grown {fm = fm} s g e = elim (Bool-cases (bit fm.bits s)) [
  | inl used ↦ absurd (let used' = g.marks s used in cc)
  | inr free ↦ free
]

pub Fresh-back :
    {Own X : ℕ → Type 0} {fm fm' fm'' : Store} {b : Block} {s : ℕ}
    → Grown Own X fm fm'
    → Fresh Own fm' fm'' b s
    → Fresh Own fm fm'' b s
Fresh-back {s = s} g f = record {
  was = bit-Grown s g f.was;
  now = f.now;
  in_range = f.in_range;
  foreign = f.foreign;
  uncached = f.uncached;
  seen = f.seen;
}

module _ {bitmap_write : Bitmap → Cache → Result (Bool × Cache)} {Good : Cache → Type 0}
    {Own : ℕ → Type 0} (file : MapFile bitmap_write Good Own) (uninit : ℕ → ℕ) where
  -- An allocation and the write of a block to the sector that it gives.
  pub take-Fresh :
      (fm : Store) (old : ℕ) (b : Block)
      → Fit Good Own fm
      → 0 < free_count fm.bits
      → (a : Allocation Cache) × (store : Store) × (allocate bitmap_write fm 1 old ≡ ok a)
        × (disk_write a.map a.sector b ≡ ok store)
        × Fit Good Own store
        × Grown Own Nowhere fm store
        × Fresh Own fm store b a.sector
        × (free_count fm.bits ≡ suc (free_count store.bits))
  take-Fresh fm old b fit enough =
      let (a, run, given) = allocate-Given file fm old fit enough in
      let lt : a.sector < length a.map.bits = omega (arith, given.grown.size, given.in_range) in
      let (store, run', fit', g, bits, seen) =
        disk_write-Grown file a.map a.sector b given.fit lt given.foreign given.uncached in
      (
        a,
        store,
        run,
        run',
        fit',
        Grown-trans (λ t h e. cc (given.was, ap (bit fm.bits) e)) given.grown g,
        record {
          was = given.was;
          now = g.marks a.sector given.now;
          in_range = omega (arith, g.size, lt);
          foreign = given.foreign;
          uncached = g.absent a.sector given.foreign given.uncached;
          seen = seen;
        },
        rw bits given.free,
      )

  pub Filled-none : (f : Filling) → Fit Good Own f.store → Filled Good Own f f 0
  Filled-none f fit = record {
    fit = fit;
    grown = Grown-refl f.store;
    index = omega arith;
    left = omega arith;
    free = omega arith;
    below = λ j h. refl;
    above = λ j h. refl;
    fresh = λ j h h'. absurd (omega arith);
    distinct = λ i j h h' h''. absurd (omega arith);
  }

  -- One sector, and then `k` more.
  Filled-suc :
      {f f' : Filling} {store : Store} {s k : ℕ}
      → Grown Own Nowhere f.store store
      → Fresh Own f.store store zeros s
      → free_count f.store.bits ≡ suc (free_count store.bits)
      → 0 < f.left
      → f.left < 2 ^ 32
      → Filled Good Own
          (record {
            store = store;
            ptr = put f.ptr f.index s;
            index = f.index + 1;
            left = sub_size f.left 1;
          })
          f'
          k
      → Filled Good Own f f' (suc k)
  Filled-suc {f} {f'} {store} {s} {k} g new free pos lt h =
      let here : f'.ptr f.index ≡ s = ground (arith, h.below f.index (omega arith)) in
      record {
        fit = h.fit;
        grown = Grown-trans (λ t b x. x) g h.grown;
        index = omega (arith, h.index);
        left = omega (arith, h.left, sub_size-one f.left pos lt);
        free = omega (arith, h.free);
        below = λ j l. ground (arith, h.below j (omega arith));
        above = λ j l. ground (arith, h.above j (omega arith));
        fresh = λ j l l'. elim (ℕ_discrete j f.index) [
          | yes e ↦ rw (e, here) (Fresh-Grown new h.grown (λ x. x))
          | no ne ↦ Fresh-back g (h.fresh j (omega arith) (omega arith))
        ];
        distinct = λ i j l l' l''. elim (ℕ_discrete i f.index) [
          | yes e ↦
              rw (e, here)
                (λ e'.
                  let later = (h.fresh j (omega arith) (omega arith)).was in
                  let now = new.now in
                  absurd (let again : bit store.bits s ≡ false = rw e' later in cc))
          | no ne ↦ h.distinct i j (omega arith) l' (omega arith)
        ];
      }

  -- With enough free sectors, on a disk that fits the map, a loop that gives sectors to pointers
  -- runs until its rounds or the sectors asked for are over.  Each pointer that it fills names a
  -- sector of its own that was free and is now in use and full of zeros; the other pointers are as
  -- before, and so is every sector that was in use, but for the map file's.
  pub fill-Filled :
      (rounds : ℕ) (f : Filling)
      → Fit Good Own f.store
      → 0 < f.left
      → f.left < 2 ^ 32
      → min rounds f.left ≤ free_count f.store.bits
      → (f' : Filling) × (fill bitmap_write uninit rounds f ≡ ok f')
        × Filled Good Own f f' (min rounds f.left)
  unfolding fill
  fill-Filled zero f fit pos lt enough =
      let e : min 0 f.left ≡ 0 = omega arith in (f, refl, rw e (Filled-none f fit))
  fill-Filled (suc rounds) f fit pos lt enough =
      let (a, store, run, run', fit', g, new, free) =
        take-Fresh f.store (f.ptr f.index) zeros fit (omega arith) in
      let f1 : Filling = record {
        store = store;
        ptr = put f.ptr f.index a.sector;
        index = f.index + 1;
        left = sub_size f.left 1;
      } in
      let one : f1.left ≡ f.left - 1 = sub_size-one f.left pos lt in
      elim (ℕ_discrete f1.left 0) [
        | yes e ↦ (
          f1,
          ground (arith, run, run', eq→== f1.left 0 e),
          Filled-cast (omega arith) (Filled-suc g new free pos lt (Filled-none f1 fit')),
        )
        | no more ↦
            let (f', rest, h) =
              fill-Filled rounds f1 fit' (omega arith) (omega arith) (omega arith) in
            (
              f',
              ground (arith, run, run', ne→false f1.left 0 more, rest),
              Filled-cast (omega arith) (Filled-suc g new free pos lt h),
            )
      ]
