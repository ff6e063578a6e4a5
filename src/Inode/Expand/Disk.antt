-- ===== src/Inode/Expand/Disk.antt =====
-- The disk behind the free map while an inode grows: one allocation, and one write past the cache.
use os_labratory_spring.Prelude.{
  ℕ, suc, subst, ◌<◌, ◌≡◌, ◌≢◌, refl, ◌∙◌, sym, ◌⊎◌, inl, inr, Bool, true, false, length, Result,
  ok, arith, none, Bool-cases, dec_lt, ℕ_discrete,
}
use os_labratory_spring.Bitmap.{Bitmap, bit}
use os_labratory_spring.Bitmap.Loops.{Assigned}
use os_labratory_spring.Bitmap.Count.{free_count, free_count-Assigned, not-NoGroup}
use os_labratory_spring.Device.{Block, written, block_write-lt}
use os_labratory_spring.Cache.{Cache}
use os_labratory_spring.Cache.View.{slot, view}
use os_labratory_spring.FreeMap.{Allocation, allocate}
use os_labratory_spring.FreeMap.Laws.{Saves, Taken, allocate-cases}
use os_labratory_spring.Inode.Expand.{Store, disk_write}

-- No sector but those of `Own` looks different or has come into the cache.
pub record Spared (Own : ℕ → Type 0) (s s' : Cache) : Type 0 where
  pub size : s'.dev.size ≡ s.dev.size
  pub kept : (t : ℕ) → ¬ Own t → view s' t ≡ view s t
  pub absent : (t : ℕ) → ¬ Own t → slot s.entries t ≡ none → slot s'.entries t ≡ none

-- What the growth of an inode needs of the free map file: a write to it of a map of the device is
-- complete, and touches no sector but the file's `Own` ones.  `Good` are the states of the disk in which
-- that holds; a write to a sector that is neither the file's nor cached leads to another.
pub record MapFile (bitmap_write : Bitmap → Cache → Result (Bool × Cache)) (Good : Cache → Type 0)
    (Own : ℕ → Type 0) : Type 0 where
  pub saves :
      (b : Bitmap) (s : Cache)
      → length b ≡ s.dev.size
      → Good s
      → (s' : Cache) × (bitmap_write b s ≡ ok (true, s')) × Good s' × Spared Own s s'
  pub direct :
      (s : Cache) (t : ℕ) (b : Block)
      → Good s
      → t < s.dev.size
      → ¬ Own t
      → slot s.entries t ≡ none
      → Good (record s { dev = written s.dev t b })

-- The map covers the device, and no free sector belongs to the map file or is in the cache.
pub record Fit (Good : Cache → Type 0) (Own : ℕ → Type 0) (fm : Store) : Type 0 where
  pub good : Good fm.disk
  pub size : length fm.bits ≡ fm.disk.dev.size
  pub spare :
      (t : ℕ)
      → t < length fm.bits
      → bit fm.bits t ≡ false
      → (¬ Own t) × (slot fm.disk.entries t ≡ none)

-- No sector is freed, and those that were in use look as before, but for the map file's and
-- those of `X`.
pub record Grown (Own X : ℕ → Type 0) (fm fm' : Store) : Type 0 where
  pub size : length fm'.bits ≡ length fm.bits
  pub marks : (t : ℕ) → bit fm.bits t ≡ true → bit fm'.bits t ≡ true
  pub kept : (t : ℕ) → bit fm.bits t ≡ true → ¬ Own t → ¬ X t → view fm'.disk t ≡ view fm.disk t
  pub absent : (t : ℕ) → ¬ Own t → slot fm.disk.entries t ≡ none → slot fm'.disk.entries t ≡ none

pub Grown-refl : {Own X : ℕ → Type 0} (fm : Store) → Grown Own X fm fm
Grown-refl fm = record {
  size = refl;
  marks = λ t h. h;
  kept = λ t h o x. refl;
  absent = λ t o h. h;
}

pub Grown-trans :
    {Own X Y : ℕ → Type 0} {fm fm' fm'' : Store}
    → ((t : ℕ) → bit fm.bits t ≡ true → Y t → X t)
    → Grown Own X fm fm'
    → Grown Own Y fm' fm''
    → Grown Own X fm fm''
Grown-trans sub g h = record {
  size = h.size ∙ g.size;
  marks = λ t b. h.marks t (g.marks t b);
  kept = λ t b o x. h.kept t (g.marks t b) o (λ y. x (sub t b y)) ∙ g.kept t b o x;
  absent = λ t o e. h.absent t o (g.absent t o e);
}

abbrev pub Nowhere : ℕ → Type 0
Nowhere _ = ⊥

-- The allocation of a sector that was free, in the map before and after.
pub record Given (Good : Cache → Type 0) (Own : ℕ → Type 0) (fm fm' : Store) (s : ℕ) : Type 0 where
  pub fit : Fit Good Own fm'
  pub grown : Grown Own Nowhere fm fm'
  pub free : free_count fm.bits ≡ suc (free_count fm'.bits)
  pub was : bit fm.bits s ≡ false
  pub now : bit fm'.bits s ≡ true
  pub in_range : s < length fm.bits
  pub foreign : ¬ Own s
  pub uncached : slot fm'.disk.entries s ≡ none

-- A bit that is set after an allocation of one sector, and one that is not.
marked-cases :
    {b b' : Bitmap} {i : ℕ} (t : ℕ)
    → Assigned b i 1 true b'
    → ((t ≡ i) × (bit b' t ≡ true)) ⊎ ((t ≢ i) × (bit b' t ≡ bit b t))
marked-cases {b} {b'} {i} t a = elim (ℕ_discrete t i) [
  | yes e ↦ inl (e, a.inside t (omega arith) (omega arith))
  | no ne ↦ inr (ne, elim (dec_lt t i) [ yes l ↦ a.below t l | no nl ↦ a.above t (omega arith) ])
]

module _ {bitmap_write : Bitmap → Cache → Result (Bool × Cache)} {Good : Cache → Type 0}
    {Own : ℕ → Type 0} (file : MapFile bitmap_write Good Own) where
  MapFile-Saves : (n : ℕ) → Saves bitmap_write (λ s. Good s × (s.dev.size ≡ n)) n
  MapFile-Saves n = record {
    returns = λ b s size good.
        let (s', run, good', spared) = file.saves b s (size ∙ sym good.1) good.0 in
        (true, s', run, (good', spared.size ∙ good.1));
  }

  -- An allocation leaves the disk good, and touches the map file alone.
  Taken-Spared :
      (fm : Store) (a : Allocation Cache)
      → Fit Good Own fm
      → Taken bitmap_write fm 1 a
      → Good a.map.disk × Spared Own fm.disk a.map.disk
  Taken-Spared fm a fit t = elim (Bool-cases fm.open_file) [
    | inl opened ↦
        let (s', run, good', spared) =
          file.saves a.map.bits fm.disk (t.marked.size ∙ fit.size) fit.good in
        let run' : bitmap_write a.map.bits fm.disk ≡ ok (true, a.map.disk) = t.saved opened in
        let e : s' ≡ a.map.disk = cc in (subst Good e good', subst (Spared Own fm.disk) e spared)
    | inr closed ↦
        rw (t.unsaved closed)
          (fit.good, record { size = refl; kept = λ t o. refl; absent = λ t o e. e })
  ]

  Taken-Given :
      (fm : Store) (a : Allocation Cache)
      → Fit Good Own fm
      → Taken bitmap_write fm 1 a
      → Given Good Own fm a.map a.sector
  Taken-Given fm a fit t =
      let was : bit fm.bits a.sector ≡ false = t.first.group a.sector (omega arith) (omega arith) in
      let now : bit a.map.bits a.sector ≡ true =
        t.marked.inside a.sector (omega arith) (omega arith) in
      let lt : a.sector < length fm.bits = omega (arith, t.first.fits) in
      let (own, absent) = fit.spare a.sector lt was in
      let (good, spared) = Taken-Spared fm a fit t in
      record {
        fit = record {
          good = good;
          size = t.marked.size ∙ fit.size ∙ sym spared.size;
          spare = λ s l e. elim (marked-cases s t.marked) [
            | inl (_, set_s) ↦ absurd (cc)
            | inr (_, old) ↦
                let (o, n) = fit.spare s (omega (arith, t.marked.size)) (sym old ∙ e) in
                (o, spared.absent s o n)
          ];
        };
        grown = record {
          size = t.marked.size;
          marks = λ s h. elim (marked-cases s t.marked) [
            | inl (_, set_s) ↦ set_s
            | inr (_, old) ↦ old ∙ h
          ];
          kept = λ s h o x. spared.kept s o;
          absent = spared.absent;
        };
        free = free_count-Assigned lt was t.marked;
        was = was;
        now = now;
        in_range = lt;
        foreign = own;
        uncached = spared.absent a.sector own absent;
      }

  -- Where a sector is free, `free_map_allocate` of one sector gives a free one.
  pub allocate-Given :
      (fm : Store) (old : ℕ)
      → Fit Good Own fm
      → 0 < free_count fm.bits
      → (a : Allocation Cache) × (allocate bitmap_write fm 1 old ≡ ok a)
        × Given Good Own fm a.map a.sector
  allocate-Given fm old fit h =
      let (a, run, good, answer) =
        allocate-cases bitmap_write (MapFile-Saves (length fm.bits)) fm 1 old refl
          (fit.good, sym fit.size) in
      elim answer [
        | inl t ↦ (a, run, Taken-Given fm a fit t)
        | inr r ↦ absurd (elim r.reason [
          | inl (ng, _) ↦ not-NoGroup fm.bits h ng
          | inr (bits, size, _, short) ↦
              let (s', whole, _, _) = file.saves bits fm.disk (size ∙ fit.size) fit.good in cc
        ])
      ]

  -- The state after a write past the cache.
  abbrev after_write : Store → ℕ → Block → Store
  after_write fm s b = record fm { disk = record (fm.disk) { dev = written fm.disk.dev s b } }

  -- A write past the cache to a sector that is neither cached nor the map file's is seen at once,
  -- and no other sector looks different.
  pub disk_write-Grown :
      (fm : Store) (s : ℕ) (b : Block)
      → Fit Good Own fm
      → s < length fm.bits
      → ¬ Own s
      → slot fm.disk.entries s ≡ none
      → (fm' : Store) × (disk_write fm s b ≡ ok fm')
        × Fit Good Own fm'
        × Grown Own (λ t. t ≡ s) fm fm'
        × (fm'.bits ≡ fm.bits)
        × (view fm'.disk s ≡ b)
  unfolding disk_write
  disk_write-Grown fm s b fit lt own absent =
      let lt' : s < fm.disk.dev.size = omega (arith, fit.size) in
      (
        after_write fm s b,
        ground (arith, block_write-lt fm.disk.dev s b lt'),
        record {
          good = file.direct fm.disk s b fit.good lt' own absent;
          size = fit.size;
          spare = fit.spare;
        },
        record {
          size = refl;
          marks = λ t h. h;
          kept = λ t h o ne. ground arith;
          absent = λ t o e. e;
        },
        refl,
        ground (arith, absent),
      )
