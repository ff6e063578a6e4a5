-- ===== src/Bitmap/Count.antt =====
-- How many bits of a map are free, and how an allocation of one changes that.
use os_labratory_spring.Prelude.{
  ℕ, zero, suc, ◌<◌, ◌≡◌, refl, ap, ◌∙◌, sym, Bool, true, false, [], ◌∷◌, length, set, arith,
  length-set, get_or-set_self, get_or-set_ne, dec_lt, ℕ_discrete, eq_of_get_or,
}
use os_labratory_spring.Bitmap.{Bitmap, bit}
use os_labratory_spring.Bitmap.Loops.{Assigned}
use os_labratory_spring.Bitmap.Scan.{NoGroup}

-- The number of bits that are false.
unfoldable pub free_count : Bitmap → ℕ
free_count [] = 0
free_count (true ∷ b) = free_count b
free_count (false ∷ b) = suc (free_count b)

free_count-set :
    (b : Bitmap) (i : ℕ)
    → i < length b
    → bit b i ≡ false
    → free_count b ≡ suc (free_count (set b i true))
unfolding free_count
free_count-set [] i h e = absurd (omega arith)
free_count-set (true ∷ b) zero h e = absurd (cc)
free_count-set (false ∷ b) zero h e = refl
free_count-set (true ∷ b) (suc i) h e = free_count-set b i (omega arith) e
free_count-set (false ∷ b) (suc i) h e = ap suc (free_count-set b i (omega arith) e)

Assigned-eq-set :
    {b b' : Bitmap} {i : ℕ} {value : Bool}
    → i < length b
    → Assigned b i 1 value b'
    → b' ≡ set b i value
Assigned-eq-set {b} {b'} {i} {value} h a =
    eq_of_get_or b' (set b i value) false (a.size ∙ sym (length-set b i value)) λ j lt.
      elim (ℕ_discrete j i) [
        | yes e ↦ rw (e, get_or-set_self b i value false h) (a.inside i (omega arith) (omega arith))
        | no ne ↦ elim (dec_lt j i) [
          | yes l ↦ a.below j l ∙ sym (get_or-set_ne b i j value false (omega arith))
          | no nl ↦ a.above j (omega arith) ∙ sym (get_or-set_ne b i j value false (omega arith))
        ]
      ]

-- The allocation of one free sector leaves one free sector less.
pub free_count-Assigned :
    {b b' : Bitmap} {i : ℕ}
    → i < length b
    → bit b i ≡ false
    → Assigned b i 1 true b'
    → free_count b ≡ suc (free_count b')
free_count-Assigned {b} {b'} {i} h e a = rw (Assigned-eq-set h a) (free_count-set b i h e)

free_bit : (b : Bitmap) → 0 < free_count b → (i : ℕ) × (i < length b) × (bit b i ≡ false)
unfolding free_count
free_bit [] h = absurd (omega arith)
free_bit (false ∷ b) h = (0, omega arith, refl)
free_bit (true ∷ b) h = let (i, lt, e) = free_bit b h in (suc i, omega arith, e)

-- Where a sector is free, a scan for one does not fail.
pub not-NoGroup : (b : Bitmap) → 0 < free_count b → ¬ NoGroup b 0 1 false
not-NoGroup b h ng =
    let (i, lt, e) = free_bit b h in
    ng i (omega arith) (omega arith) (λ j p q. let k : j ≡ i = omega arith in rw k e)
