-- ===== src/Dir/Slots.antt =====
-- The bytes of an entry of a directory.
use os_labratory_spring.Prelude.{
  ℕ, zero, suc, ◌+◌, ◌-◌, ◌^◌, ◌≤◌, ◌<◌, ◌≡◌, refl, ap, ◌∙◌, true, List, [], ◌∷◌, ◌++◌, length,
  get_or, take, drop, All, ltb, if◌then◌else◌, arith, length-append,
}
use os_labratory_spring.Words.{byte_of, four_bytes}
use os_labratory_spring.Text.{Text, c_string, strlen, strlcpy}
use os_labratory_spring.Dir.{inode_sector, entry_name, in_use, fill_entry, name_max, entry_size}

-- A name of a file: 1 to NAME_MAX bytes, none of them null.
pub record IsName (name : Text) : Type 0 where
  pub some_byte : 0 < length name
  pub short : length name ≤ name_max
  pub no_null : All (λ c. 0 < c) name

strlen-eq-length : (s : Text) → strlen s ≡ length s
unfolding strlen
strlen-eq-length [] = refl
strlen-eq-length (c ∷ cs) = omega (arith, strlen-eq-length cs)

pub strlen-IsName : (name : Text) → IsName name → (0 < strlen name) × (strlen name ≤ name_max)
strlen-IsName name h = omega (arith, strlen-eq-length name, h.some_byte, h.short)

c_string-append : (name rest : Text) → All (λ c. 0 < c) name → c_string (name ++ (0 ∷ rest)) ≡ name
unfolding c_string
c_string-append [] rest h = refl
c_string-append (c ∷ cs) rest (p, h) = ground (arith, c_string-append cs rest h)

take-length : (xs : List ℕ) → take (length xs) xs ≡ xs
take-length [] = refl
take-length (x ∷ xs) = ap (λ (ys : List ℕ). x ∷ ys) (take-length xs)

append-regroup : (xs ys zs : List ℕ) (y : ℕ) → (xs ++ (y ∷ ys)) ++ zs ≡ xs ++ (y ∷ (ys ++ zs))
append-regroup [] ys zs y = refl
append-regroup (x ∷ xs) ys zs y = ap (λ (r : List ℕ). x ∷ r) (append-regroup xs ys zs y)

short_length : (n : ℕ) → n ≤ 14 → (if ltb n 14 then n else 14) ≡ n
short_length n h = ground arith

-- A name that fits is copied whole.
strlcpy-name :
    (dst name : Text) → IsName name → strlcpy dst name 15 ≡ name ++ (0 ∷ drop (length name + 1) dst)
unfolding strlcpy
strlcpy-name dst name h =
    rw (strlen-eq-length name, short_length (length name) h.short, take-length name)

length-drop : (n : ℕ) (xs : List ℕ) → length (drop n xs) ≡ length xs - n
length-drop zero xs = omega arith
length-drop (suc n) [] = omega arith
length-drop (suc n) (x ∷ xs) = omega (arith, length-drop n xs)

length-take : (n : ℕ) (xs : List ℕ) → n ≤ length xs → length (take n xs) ≡ n
length-take zero xs h = refl
length-take (suc n) [] h = absurd (omega arith)
length-take (suc n) (x ∷ xs) h = omega (arith, length-take n xs)

get_or-append : (xs ys : List ℕ) (i : ℕ) → get_or (xs ++ ys) (length xs + i) 0 ≡ get_or ys i 0
get_or-append [] ys i = let e : 0 + i ≡ i = omega arith in rw e
get_or-append (x ∷ xs) ys i =
    let e : suc (length xs) + i ≡ suc (length xs + i) = omega arith in rw e (get_or-append xs ys i)

-- What `fill_entry` writes, by the parts of the entry.
abbrev filled : Text → ℕ → List ℕ → List ℕ
filled name sector tail =
    byte_of sector 0
    ∷ byte_of sector 1
    ∷ byte_of sector 2
    ∷ byte_of sector 3
    ∷ (name ++ (0 ∷ (tail ++ (1 ∷ []))))

abbrev tail_of : List ℕ → Text → List ℕ
tail_of e name = drop (length name + 1) (take 15 (drop 4 e))

length-tail_of :
    (e : List ℕ) (name : Text)
    → length e ≡ entry_size
    → IsName name
    → length name + length (tail_of e name) ≡ 14
length-tail_of e name size h =
    let field : length (take 15 (drop 4 e)) ≡ 15 =
      length-take 15 (drop 4 e) (omega (arith, length-drop 4 e)) in
    omega (arith, length-drop (length name + 1) (take 15 (drop 4 e)), h.short)

fill_entry-filled :
    (e : List ℕ) (name : Text) (sector : ℕ)
    → IsName name
    → fill_entry e name sector ≡ filled name sector (tail_of e name)
unfolding fill_entry
fill_entry-filled e name sector h =
    rw (strlcpy-name (take 15 (drop 4 e)) name h, append-regroup name (tail_of e name) (1 ∷ []) 0)

length-filled :
    (name : Text) (sector : ℕ) (tail : List ℕ)
    → length name + length tail ≡ 14
    → length (filled name sector tail) ≡ entry_size
length-filled name sector tail h =
    omega (arith, length-append name (0 ∷ (tail ++ (1 ∷ []))), length-append tail (1 ∷ []))

last_byte :
    (name : Text) (tail : List ℕ)
    → length name + length tail ≡ 14
    → get_or (name ++ (0 ∷ (tail ++ (1 ∷ [])))) 15 0 ≡ 1
last_byte name tail h =
    let past : length name + suc (length tail + 0) ≡ 15 = omega arith in
    let here = get_or-append name (0 ∷ (tail ++ (1 ∷ []))) (suc (length tail + 0)) in
    let there = get_or-append tail (1 ∷ []) 0 in rw past at here ∙ there

inode_sector-filled :
    (name : Text) (sector : ℕ) (tail : List ℕ)
    → sector < 2 ^ 32
    → inode_sector (filled name sector tail) ≡ sector
unfolding inode_sector
inode_sector-filled name sector tail h = omega (arith, four_bytes sector h)

-- A slot that is in use, for one name and one inode.
pub record Holds (e : List ℕ) (name : Text) (sector : ℕ) : Type 0 where
  pub size : length e ≡ entry_size
  pub used : in_use e ≡ true
  pub called : entry_name e ≡ name
  pub refers : inode_sector e ≡ sector

filled-Holds :
    (name : Text) (sector : ℕ) (tail : List ℕ)
    → length name + length tail ≡ 14
    → All (λ c. 0 < c) name
    → sector < 2 ^ 32
    → Holds (filled name sector tail) name sector
unfolding in_use entry_name
filled-Holds name sector tail h nonzero lt = record {
  size = length-filled name sector tail h;
  used = rw (last_byte name tail h);
  called = c_string-append name (tail ++ (1 ∷ [])) nonzero;
  refers = inode_sector-filled name sector tail lt;
}

-- The slot that `dir_add` writes is in use, with the name and the sector that it is given.
pub fill_entry-Holds :
    (e : List ℕ) (name : Text) (sector : ℕ)
    → length e ≡ entry_size
    → IsName name
    → sector < 2 ^ 32
    → Holds (fill_entry e name sector) name sector
fill_entry-Holds e name sector size h lt =
    rw (fill_entry-filled e name sector h)
      (filled-Holds name sector (tail_of e name) (length-tail_of e name size h) h.no_null lt)
