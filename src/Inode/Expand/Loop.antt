-- ===== src/Inode/Expand/Loop.antt =====
-- The loop of `inode_expand` over the indirect blocks.
use os_labratory_spring.Prelude.{
  ℕ, zero, suc, min, ne→false, ◌^◌, ◌+◌, ◌-◌, ◌*◌, ◌≤◌, ◌<◌, ◌≡◌, ◌≢◌, ap, ◌∙◌, Bool, true, false,
  length, ◌==◌, Result, ok, arith, lt→ltb, ℕ_discrete, eq→==, ne→==,
}
use os_labratory_spring.Bitmap.{Bitmap}
use os_labratory_spring.Bitmap.Count.{free_count}
use os_labratory_spring.Cache.{Cache}
use os_labratory_spring.Inode.{indirect_block_ptrs, double_indirect_index_start}
use os_labratory_spring.Inode.Expand.{Growing, expand_indirect_block, indirect_loop}
use os_labratory_spring.Inode.Expand.Disk.{MapFile, Fit, Grown, Grown-trans}
use os_labratory_spring.Inode.Expand.Table.{Held, Partial, new_block, Extended}
use os_labratory_spring.Inode.Expand.Indirect.{expand_indirect_block-Tabled}

-- The loop over the indirect blocks has placed all the sectors that were left.
pub record Placed (Good : Cache → Type 0) (Own : ℕ → Type 0) (g g' : Growing) : Type 0 where
  pub fit : Fit Good Own g'.store
  pub grown : Grown Own (Partial g.inode) g.store g'.store
  pub left : g'.left ≡ 0
  pub place :
      g'.inode.direct_index * indirect_block_ptrs + g'.inode.indirect_index
      ≡ g.inode.direct_index * indirect_block_ptrs + g.inode.indirect_index + g.left
  pub index : g'.inode.indirect_index < indirect_block_ptrs
  pub after : g.inode.direct_index ≤ g'.inode.direct_index
  pub double : g'.inode.double_indirect_index ≡ g.inode.double_indirect_index

new_block-le : (b : Bool) → new_block b ≤ 1
new_block-le true = omega arith
new_block-le false = omega arith

-- A growth that places everything.
Placed-last :
    {Good : Cache → Type 0} {Own : ℕ → Type 0} {g g' : Growing} {k : ℕ}
    → Extended Good Own g g' k
    → g'.left ≡ 0
    → g.inode.indirect_index + k ≤ indirect_block_ptrs
    → Placed Good Own g g'
Placed-last {g = g} {g'} {k} e z le =
    elim (ℕ_discrete (g.inode.indirect_index + k) indirect_block_ptrs) [
      | yes f ↦
          let (d, i) = e.full f in
          record {
            fit = e.fit;
            grown = e.grown;
            left = z;
            place = omega (arith, e.left);
            index = omega arith;
            after = omega arith;
            double = e.double;
          }
      | no nf ↦
          let (d, i) = e.open_block nf in
          record {
            fit = e.fit;
            grown = e.grown;
            left = z;
            place = omega (arith, e.left, ap (λ (n : ℕ). n * indirect_block_ptrs) d);
            index = omega arith;
            after = omega arith;
            double = e.double;
          }
    ]

-- A growth that fills its block, and then the rest.
Placed-suc :
    {Good : Cache → Type 0} {Own : ℕ → Type 0} {g g1 g' : Growing} {k : ℕ}
    → Extended Good Own g g1 k
    → g.inode.indirect_index + k ≡ indirect_block_ptrs
    → Placed Good Own g1 g'
    → Placed Good Own g g'
Placed-suc {g = g} {g1} {g'} {k} e f p =
    let (d, i) = e.full f in
    record {
      fit = p.fit;
      grown = Grown-trans (λ t used x. absurd (x.0 i)) e.grown p.grown;
      left = p.left;
      place = omega (arith, p.place, e.left, ap (λ (n : ℕ). n * indirect_block_ptrs) d);
      index = p.index;
      after = omega (arith, p.after);
      double = p.double ∙ e.double;
    }

module _ {bitmap_write : Bitmap → Cache → Result (Bool × Cache)} {Good : Cache → Type 0}
    {Own : ℕ → Type 0} (file : MapFile bitmap_write Good Own) (uninit : ℕ → ℕ) where
  -- One round of the loop, the last or not.
  indirect_loop-last :
      (rounds : ℕ) (g : Growing) {g1 : Growing}
      → g.inode.direct_index < double_indirect_index_start
      → expand_indirect_block bitmap_write uninit g ≡ ok g1
      → g1.left ≡ 0
      → indirect_loop bitmap_write uninit (suc rounds) g ≡ ok g1
  unfolding indirect_loop
  indirect_loop-last rounds g {g1} lt run z = rw (lt→ltb _ _ lt, run, eq→== g1.left 0 z)

  indirect_loop-more :
      (rounds : ℕ) (g : Growing) {g1 : Growing}
      → g.inode.direct_index < double_indirect_index_start
      → expand_indirect_block bitmap_write uninit g ≡ ok g1
      → g1.left ≢ 0
      → indirect_loop bitmap_write uninit (suc rounds) g
        ≡ indirect_loop bitmap_write uninit rounds g1
  unfolding indirect_loop
  indirect_loop-more rounds g {g1} lt run nz = rw (lt→ltb _ _ lt, run, ne→false g1.left 0 nz)

  pub indirect_loop-Placed :
      (rounds : ℕ) (g : Growing)
      → Fit Good Own g.store
      → length g.store.bits ≤ 2 ^ 32
      → g.inode.indirect_index < indirect_block_ptrs
      → ((g.inode.indirect_index == 0) ≡ false
          → Held Own g.store (g.inode.ptr g.inode.direct_index))
      → 0 < g.left
      → g.left < 2 ^ 32
      → g.inode.direct_index * indirect_block_ptrs + g.inode.indirect_index + g.left
        ≤ double_indirect_index_start * indirect_block_ptrs
      → double_indirect_index_start ≤ g.inode.direct_index + rounds
      → g.left + (double_indirect_index_start - g.inode.direct_index) ≤ free_count g.store.bits
      → (g' : Growing) × (indirect_loop bitmap_write uninit rounds g ≡ ok g') × Placed Good Own g g'
  indirect_loop-Placed zero g fit small lt held pos max room rounds_left enough =
      absurd (omega arith)
  indirect_loop-Placed (suc rounds) g fit small lt held pos max room rounds_left enough =
      let k = min (indirect_block_ptrs - g.inode.indirect_index) g.left in
      let d_lt : g.inode.direct_index < double_indirect_index_start = omega arith in
      let (g1, run, e) =
        expand_indirect_block-Tabled file uninit g fit small lt held pos max
          (omega (arith, new_block-le (g.inode.indirect_index == 0))) in
      elim (ℕ_discrete g1.left 0) [
        | yes z ↦ (g1, indirect_loop-last rounds g d_lt run z, Placed-last e z (omega arith))
        | no more ↦
            let f : g.inode.indirect_index + k ≡ indirect_block_ptrs = omega (arith, e.left) in
            let (d, i) = e.full f in
            let (g', rest, p) =
              indirect_loop-Placed rounds g1 e.fit (omega (arith, e.grown.size)) (omega arith)
                (λ nz. absurd (ne→== g1.inode.indirect_index 0 nz i)) (omega arith)
                (omega (arith, e.left)) (omega (arith, e.left)) (omega arith)
                (omega (arith, e.left, e.free, new_block-le (g.inode.indirect_index == 0))) in
            (g', indirect_loop-more rounds g d_lt run more ∙ rest, Placed-suc e f p)
      ]
