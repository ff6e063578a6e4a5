-- ===== src/Inode/Expand/Table.antt =====
-- What the growth of one block of pointers leaves.
use os_labratory_spring.Prelude.{
  ℕ, ne→false, ◌^◌, ◌+◌, ◌≤◌, ◌<◌, ◌≡◌, ◌≢◌, refl, ap, ◌∙◌, Bool, true, false, length, ◌==◌,
  if◌then◌else◌, arith, none, ℕ_discrete, eq→==,
}
use os_labratory_spring.Bitmap.{bit}
use os_labratory_spring.Bitmap.Count.{free_count}
use os_labratory_spring.Words.{word}
use os_labratory_spring.Cache.{Cache}
use os_labratory_spring.Cache.View.{slot, view}
use os_labratory_spring.Inode.{Inode, indirect_block_ptrs}
use os_labratory_spring.Inode.Expand.{Store, Filling, Growing, zeros}
use os_labratory_spring.Inode.Expand.Disk.{Fit, Grown, Grown-trans, Nowhere}
use os_labratory_spring.Inode.Expand.Fill.{Fresh, Fresh-back}

-- A sector in use that is not the map file's and not in the cache: one that may be read and
-- written past the cache.
pub record Held (Own : ℕ → Type 0) (fm : Store) (s : ℕ) : Type 0 where
  pub used : bit fm.bits s ≡ true
  pub in_range : s < length fm.bits
  pub foreign : ¬ Own s
  pub uncached : slot fm.disk.entries s ≡ none

pub Held-Grown :
    {Own X : ℕ → Type 0} {fm fm' : Store} (s : ℕ)
    → Held Own fm s
    → Grown Own X fm fm'
    → Held Own fm' s
Held-Grown s h g = record {
  used = g.marks s h.used;
  in_range = omega (arith, h.in_range, g.size);
  foreign = h.foreign;
  uncached = g.absent s h.foreign h.uncached;
}

-- The number of sectors for pointers that a growing block costs.
abbrev pub new_block : Bool → ℕ
new_block true = 1
new_block false = 0

-- A block of pointers is at hand in memory, and its sector is known.
pub record Begun (Good : Cache → Type 0) (Own : ℕ → Type 0) (uninit : ℕ → ℕ) (fresh : Bool)
    (fm : Store) (ptr : ℕ → ℕ) (i : ℕ) (fm' : Store) (ptr' block : ℕ → ℕ) : Type 0 where
  pub fit : Fit Good Own fm'
  pub grown : Grown Own Nowhere fm fm'
  pub held : Held Own fm' (ptr' i)
  pub others : (j : ℕ) → j ≢ i → ptr' j ≡ ptr j
  pub free : free_count fm.bits ≡ free_count fm'.bits + new_block fresh
  pub kept : fresh ≡ false → (ptr' i ≡ ptr i) × (block ≡ word (view fm.disk (ptr i)))
  pub new : fresh ≡ true → bit fm.bits (ptr' i) ≡ false

-- The block of pointers in sector `s` has `k` more, from `index` on, that name sectors of zeros
-- that were free; no other sector that was in use looks different.
pub record Tabled (Good : Cache → Type 0) (Own : ℕ → Type 0) (fm fm' : Store) (s : ℕ)
    (block : ℕ → ℕ) (index k : ℕ) : Type 0 where
  pub fit : Fit Good Own fm'
  pub grown : Grown Own (λ t. t ≡ s) fm fm'
  pub free : free_count fm.bits ≡ free_count fm'.bits + k
  pub new : (j : ℕ) → index ≤ j → j < index + k → Fresh Own fm fm' zeros (word (view fm'.disk s) j)
  pub old : (j : ℕ) → j < index → block j < 2 ^ 32 → word (view fm'.disk s) j ≡ block j

-- The sector of the block of pointers that is filled in part, if there is one.
abbrev pub Partial : Inode → ℕ → Type 0
Partial i t = (i.indirect_index ≢ 0) × (t ≡ i.ptr i.direct_index)

-- The growth of an indirect block by `k` sectors.
pub record Extended (Good : Cache → Type 0) (Own : ℕ → Type 0) (g g' : Growing) (k : ℕ)
    : Type 0 where
  pub fit : Fit Good Own g'.store
  pub grown : Grown Own (Partial g.inode) g.store g'.store
  pub left : g'.left + k ≡ g.left
  pub free :
      free_count g.store.bits
      ≡ free_count g'.store.bits + (k + new_block (g.inode.indirect_index == 0))
  pub held : Held Own g'.store (g'.inode.ptr g.inode.direct_index)
  pub others : (j : ℕ) → j ≢ g.inode.direct_index → g'.inode.ptr j ≡ g.inode.ptr j
  pub new :
      (j : ℕ)
      → g.inode.indirect_index ≤ j
      → j < g.inode.indirect_index + k
      → Fresh Own g.store g'.store zeros
          (word (view g'.store.disk (g'.inode.ptr g.inode.direct_index)) j)
  pub old :
      (j : ℕ)
      → j < g.inode.indirect_index
      → let before = word (view g.store.disk (g.inode.ptr g.inode.direct_index)) j in
        before < 2 ^ 32 → word (view g'.store.disk (g'.inode.ptr g.inode.direct_index)) j ≡ before
  pub full :
      g.inode.indirect_index + k ≡ indirect_block_ptrs
      → (g'.inode.direct_index ≡ g.inode.direct_index + 1) × (g'.inode.indirect_index ≡ 0)
  pub open_block :
      g.inode.indirect_index + k ≢ indirect_block_ptrs
      → (g'.inode.direct_index ≡ g.inode.direct_index)
        × (g'.inode.indirect_index ≡ g.inode.indirect_index + k)
  pub double : g'.inode.double_indirect_index ≡ g.inode.double_indirect_index

-- The state after `inode_expand_indirect_block`, by its parts.
abbrev pub after_indirect : Growing → Store → (ℕ → ℕ) → Filling → Growing
after_indirect g fm ptr f =
    let full = f.index == indirect_block_ptrs in
    record g {
      store = fm;
      inode = record (g.inode) {
        ptr = ptr;
        indirect_index = if full then 0 else f.index;
        direct_index = if full then g.inode.direct_index + 1 else g.inode.direct_index;
      };
      left = f.left;
    }

-- Only a block that was there before is rewritten.
Begun-rewritten :
    {Good : Cache → Type 0} {Own : ℕ → Type 0} {uninit : ℕ → ℕ} (i : Inode) {fm fm' : Store}
    {ptr' block : ℕ → ℕ}
    → Begun Good Own uninit (i.indirect_index == 0) fm i.ptr i.direct_index fm' ptr' block
    → (t : ℕ) → bit fm.bits t ≡ true
    → t ≡ ptr' i.direct_index
    → Partial i t
Begun-rewritten i b t used e = elim (ℕ_discrete i.indirect_index 0) [
  | yes z ↦ absurd (cc (b.new (eq→== i.indirect_index 0 z), used, e))
  | no nz ↦ (nz, e ∙ (b.kept (ne→false i.indirect_index 0 nz)).0)
]

pub Extended-intro :
    {Good : Cache → Type 0} {Own : ℕ → Type 0} {uninit : ℕ → ℕ} {g : Growing} {fm fm' : Store}
    {ptr block : ℕ → ℕ} {k : ℕ} (f : Filling)
    → Begun Good Own uninit
        (g.inode.indirect_index == 0)
        g.store
        g.inode.ptr
        g.inode.direct_index
        fm
        ptr
        block
    → Tabled Good Own fm fm' (ptr g.inode.direct_index) block g.inode.indirect_index k
    → f.index ≡ g.inode.indirect_index + k
    → f.left + k ≡ g.left
    → Extended Good Own g (after_indirect g fm' ptr f) k
Extended-intro {g = g} {fm} {ptr = ptr} {block = block_word} {k = k} f b t index left = record {
  fit = t.fit;
  grown =
      Grown-trans (Begun-rewritten g.inode b)
        (record {
          size = b.grown.size;
          marks = b.grown.marks;
          kept = λ x used o _. b.grown.kept x used o (λ n. n);
          absent = b.grown.absent;
        })
        t.grown;
  left = left;
  free = omega (arith, b.free, t.free);
  held = Held-Grown (ptr g.inode.direct_index) b.held t.grown;
  others = b.others;
  new = λ j l l'. Fresh-back b.grown (t.new j l l');
  old = λ j l in_word.
      let (_, e) = b.kept (ne→false g.inode.indirect_index 0 (omega arith)) in
      let e' : block_word j ≡ word (view g.store.disk (g.inode.ptr g.inode.direct_index)) j =
        ap (λ (w : ℕ → ℕ). w j) e in
      t.old j l (rw e' in_word) ∙ e';
  full = λ e. ground (arith, index, e);
  open_block = λ ne. ground (arith, index, ne);
  double = refl;
}
