-- ===== src/Cache/View.antt =====
-- What the entries of the cache hold of each sector, and how the parts of the code change it.
use os_labratory_spring.Prelude.{
  ℕ, zero, suc, ◌≡◌, refl, ◌⊎◌, inl, inr, Bool, List, [], ◌∷◌, ◌++◌, length, get_elem?, set, ◌==◌,
  if◌then◌else◌, arith, none, some, Option, Bool-cases,
}
use os_labratory_spring.Device.{Block, Device}
use os_labratory_spring.Cache.{Entry, Cache, block_in_cache, modify, pass}

-- The block of a sector that is in the cache, and whether it is dirty.
abbrev pub slot : List Entry → ℕ → Option (Block × Bool)
slot [] t = none
slot (c ∷ cs) t = if c.sector == t then some (c.block, c.dirty) else slot cs t

-- No sector is in the cache twice.
abbrev pub Distinct : List Entry → Type 0
Distinct [] = Unit
Distinct (c ∷ cs) = (slot cs c.sector ≡ none) × Distinct cs

-- What a reader of sector `t` sees: the cached block, or else the one on the device.
abbrev pub held : Option (Block × Bool) → Block → Block
held none b = b
held (some (b, d)) _ = b

abbrev pub view_of : List Entry → Device → ℕ → Block
view_of cs dev t = held (slot cs t) (dev.stored t)

abbrev pub view : Cache → ℕ → Block
view st t = view_of st.entries st.dev t

pub slot-pass : (cs : List Entry) (t : ℕ) → slot (pass cs).0 t ≡ slot cs t
unfolding pass
slot-pass [] t = refl
slot-pass (c ∷ cs) t = ground (arith, slot-pass cs t)

pub length-pass : (cs : List Entry) → length (pass cs).0 ≡ length cs
unfolding pass
length-pass [] = refl
length-pass (c ∷ cs) = ground (arith, length-pass cs)

pub Distinct-pass : (cs : List Entry) → Distinct cs → Distinct (pass cs).0
unfolding pass
Distinct-pass [] h = tt
Distinct-pass (c ∷ cs) h = ground (arith, Distinct-pass cs h.1, slot-pass cs c.sector)

pub slot_of_get_elem? :
    (cs : List Entry) (i : ℕ) (c : Entry)
    → Distinct cs
    → get_elem? cs i ≡ some c
    → slot cs c.sector ≡ some (c.block, c.dirty)
slot_of_get_elem? [] i c d h = absurd (cc)
slot_of_get_elem? (x ∷ cs) zero c d h = ground arith
slot_of_get_elem? (x ∷ cs) (suc i) c d h = ground (arith, slot_of_get_elem? cs i c d.1 h)

-- Replacing the entry at `i` by one for a sector that is not cached.
pub slot-set :
    (cs : List Entry) (i : ℕ) (c c' : Entry) (t : ℕ)
    → Distinct cs
    → get_elem? cs i ≡ some c
    → slot cs c'.sector ≡ none
    → slot (set cs i c') t ≡ (
        if c'.sector == t
        then some (c'.block, c'.dirty)
        else if c.sector == t
        then none
        else slot cs t)
slot-set [] i c c' t d h f = absurd (cc)
slot-set (x ∷ cs) zero c c' t d h f = ground arith
slot-set (x ∷ cs) (suc i) c c' t d h f =
    ground (arith, slot-set cs i c c' t d.1 h, slot_of_get_elem? cs i c d.1 h)

pub Distinct-set :
    (cs : List Entry) (i : ℕ) (c c' : Entry)
    → Distinct cs
    → get_elem? cs i ≡ some c
    → slot cs c'.sector ≡ none
    → Distinct (set cs i c')
Distinct-set [] i c c' d h f = absurd (cc)
Distinct-set (x ∷ cs) zero c c' d h f = ground arith
Distinct-set (x ∷ cs) (suc i) c c' d h f =
    ground (arith, Distinct-set cs i c c' d.1 h, slot-set cs i c c' x.sector d.1 h)

pub get_elem?-set_self :
    (cs : List Entry) (i : ℕ) (c c' : Entry)
    → get_elem? cs i ≡ some c
    → get_elem? (set cs i c') i ≡ some c'
get_elem?-set_self [] i c c' h = absurd (cc)
get_elem?-set_self (x ∷ cs) zero c c' h = refl
get_elem?-set_self (x ∷ cs) (suc i) c c' h = get_elem?-set_self cs i c c' h

pub slot-append :
    (cs : List Entry) (c : Entry) (t : ℕ)
    → slot cs c.sector ≡ none
    → slot (cs ++ (c ∷ [])) t ≡ (if c.sector == t then some (c.block, c.dirty) else slot cs t)
slot-append [] c t f = refl
slot-append (x ∷ cs) c t f = ground (arith, slot-append cs c t)

pub Distinct-append :
    (cs : List Entry) (c : Entry)
    → Distinct cs
    → slot cs c.sector ≡ none
    → Distinct (cs ++ (c ∷ []))
Distinct-append [] c d f = (refl, tt)
Distinct-append (x ∷ cs) c d f = ground (arith, Distinct-append cs c d.1, slot-append cs c x.sector)

pub get_elem?-append_last :
    (cs : List Entry) (c : Entry) → get_elem? (cs ++ (c ∷ [])) (length cs) ≡ some c
get_elem?-append_last [] c = refl
get_elem?-append_last (x ∷ cs) c = get_elem?-append_last cs c

-- `block_in_cache` finds the entry of a sector exactly if it is cached.
pub block_in_cache-cases :
    (cs : List Entry) (s : ℕ)
    → ((block_in_cache cs s ≡ none) × (slot cs s ≡ none))
      ⊎ ((i : ℕ) × (c : Entry) × (block_in_cache cs s ≡ some i)
          × (get_elem? cs i ≡ some c)
          × (c.sector ≡ s)
          × (slot cs s ≡ some (c.block, c.dirty)))
unfolding block_in_cache
block_in_cache-cases [] s = inl (refl, refl)
block_in_cache-cases (x ∷ cs) s = elim (Bool-cases (x.sector == s)) [
  | inl e ↦ inr (0, x, ground arith, refl, ground arith, ground arith)
  | inr ne ↦ elim (block_in_cache-cases cs s) [
    | inl (p, q) ↦ inl (ground arith, ground arith)
    | inr (i, c, p, q, r, v) ↦ inr (suc i, c, ground arith, q, r, ground arith)
  ]
]

pub modify-eq-set :
    (f : Entry → Entry) (i : ℕ) (cs : List Entry) (c : Entry)
    → get_elem? cs i ≡ some c
    → modify f i cs ≡ set cs i (f c)
unfolding modify
modify-eq-set f i [] c h = absurd (cc)
modify-eq-set f zero (x ∷ cs) c h = ground arith
modify-eq-set f (suc i) (x ∷ cs) c h = ground (arith, modify-eq-set f i cs c h)

-- Replacing an entry by one for the same sector.
pub slot-set_same :
    (cs : List Entry) (i : ℕ) (c c' : Entry) (t : ℕ)
    → Distinct cs
    → get_elem? cs i ≡ some c
    → c'.sector ≡ c.sector
    → slot (set cs i c') t ≡ (if c.sector == t then some (c'.block, c'.dirty) else slot cs t)
slot-set_same [] i c c' t d h e = absurd (cc)
slot-set_same (x ∷ cs) zero c c' t d h e = ground arith
slot-set_same (x ∷ cs) (suc i) c c' t d h e =
    ground (arith, slot-set_same cs i c c' t d.1 h, slot_of_get_elem? cs i c d.1 h)

pub Distinct-set_same :
    (cs : List Entry) (i : ℕ) (c c' : Entry)
    → Distinct cs
    → get_elem? cs i ≡ some c
    → c'.sector ≡ c.sector
    → Distinct (set cs i c')
Distinct-set_same [] i c c' d h e = absurd (cc)
Distinct-set_same (x ∷ cs) zero c c' d h e = ground arith
Distinct-set_same (x ∷ cs) (suc i) c c' d h e = ground (
  arith,
  Distinct-set_same cs i c c' d.1 h,
  slot-set_same cs i c c' x.sector d.1 h,
  slot_of_get_elem? cs i c d.1 h,
)
