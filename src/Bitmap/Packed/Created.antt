-- ===== src/Bitmap/Packed/Created.antt =====
-- `bitmap_create` of lib/kernel/bitmap.c clears words that hold anything.
use os_labratory_spring.Prelude.{
  ℕ, zero, suc, ◌+◌, ◌*◌, ◌≤◌, ◌<◌, ◌^◌, ◌%◌, ◌≡◌, refl, sym, ◌∙◌, subst, Bool, true, false, Option,
  none, some, List, [], ◌∷◌, length, ltb, Result, ok, panic, leb, arith, inl, inr, ◌⊎◌, Bool-cases,
  ltb→lt, eq→==, ne→false, ap, ℕ_discrete, Option-cases, length-replicate, replicate, eq_of_get_or,
}
use os_labratory_spring.Bitmap
use os_labratory_spring.Bitmap.{Bitmap, bit}
use os_labratory_spring.Bitmap.Digits.{test_bit}
use os_labratory_spring.Bitmap.Loops.{Assigned, set_multiple-Assigned}
use os_labratory_spring.Bitmap.Packed
use os_labratory_spring.Bitmap.Packed.{
  Packed, elem, byte_cnt, elem_cnt, bitmap_set_all, cleared, fill_created, bitmap_create,
  bitmap_create_in_buf, bitmap_buf_size,
}
use os_labratory_spring.Bitmap.Packed.Refines.{Packs, Both, Both.returned}
use os_labratory_spring.Bitmap.Packed.Scans.{set_multiple-Packs}

unfoldable tabulate : (ℕ → Bool) → ℕ → Bitmap
tabulate f zero = []
tabulate f (suc n) = f 0 ∷ tabulate (λ i. f (suc i)) n

length-tabulate : (f : ℕ → Bool) (n : ℕ) → length (tabulate f n) ≡ n
unfolding tabulate
length-tabulate f zero = refl
length-tabulate f (suc n) = omega (arith, length-tabulate (λ i. f (suc i)) n)

bit-tabulate : (f : ℕ → Bool) (n i : ℕ) → i < n → bit (tabulate f n) i ≡ f i
unfolding tabulate
bit-tabulate f zero i h = absurd (omega arith)
bit-tabulate f (suc n) zero h = refl
bit-tabulate f (suc n) (suc i) h = bit-tabulate (λ i. f (suc i)) n i (omega arith)

-- The bits that words hold, whatever they are.
unfoldable pub unpacked : Packed → Bitmap
unfolding tabulate
unpacked p = tabulate (λ i. test_bit (i % 32) (elem p i)) p.bit_cnt

pub unpacked-Packs : (p : Packed) → p.bit_cnt ≤ length p.bits * 32 → Packs p (unpacked p)
unfolding unpacked
unpacked-Packs p h = record {
  size = length-tabulate _ p.bit_cnt;
  room = h;
  agree = λ i q. sym (bit-tabulate _ p.bit_cnt i q);
}

-- A map all of whose bits are false is the one that `create` gives.
bit-replicate : (n i : ℕ) → bit (replicate n false) i ≡ false
bit-replicate zero i = refl
bit-replicate (suc n) zero = refl
bit-replicate (suc n) (suc i) = bit-replicate n i

Assigned-create :
    (b b' : Bitmap) (cnt : ℕ) → length b ≡ cnt → Assigned b 0 cnt false b' → b' ≡ Bitmap.create cnt
unfolding Bitmap.create
Assigned-create b b' cnt e a =
    eq_of_get_or b' (replicate cnt false) false (a.size ∙ e ∙ sym (length-replicate cnt false))
      (λ i h. a.inside i (omega arith) (omega (arith, a.size, e)) ∙ sym (bit-replicate cnt i))

bitmap_set_all-Packs :
    (p : Packed)
    → p.bit_cnt ≤ length p.bits * 32
    → (p' : Packed) × (bitmap_set_all p false ≡ ok p') × Packs p' (Bitmap.create p.bit_cnt)
unfolding bitmap_set_all
bitmap_set_all-Packs p h =
    let q = unpacked-Packs p h in
    let (b', done, a) =
      set_multiple-Assigned (unpacked p) 0 p.bit_cnt false (omega (arith, q.size)) in
    from_Both (Packed.set_multiple p 0 p.bit_cnt false) b'
      (subst (Both Packs (Packed.set_multiple p 0 p.bit_cnt false)) done
        (set_multiple-Packs p (unpacked p) 0 p.bit_cnt false q))
      (Assigned-create (unpacked p) b' p.bit_cnt q.size a)
  where
    from_Both :
        (x : Result Packed) (b' : Bitmap)
        → Both Packs x (ok b')
        → b' ≡ Bitmap.create p.bit_cnt
        → (p' : Packed) × (x ≡ ok p') × Packs p' (Bitmap.create p.bit_cnt)
    from_Both x b' (returned {a} r) e = (a, refl, subst (Packs a) e r)

-- What `malloc` is documented to give: at least as many bytes as asked for, and nothing for none.
pub record Allocates (malloc : ℕ → Option (List ℕ)) : Type 0 where
  pub enough : (n : ℕ) (words : List ℕ) → malloc n ≡ some words → n ≤ length words * 4
  pub no_bytes : malloc 0 ≡ none

cleared-Packs :
    (cnt : ℕ) (words : List ℕ)
    → cnt ≤ length words * 32
    → (p : Packed) × (cleared cnt words ≡ ok (some p)) × Packs p (Bitmap.create cnt)
unfolding cleared
cleared-Packs cnt words h =
    let (p, done, q) = bitmap_set_all-Packs (record { bit_cnt = cnt; bits = words }) h in
    (p, rw done refl, q)

-- The sum in `DIV_ROUND_UP` wraps around only where it leaves no word, and then no words are given.
words_suffice :
    (malloc : ℕ → Option (List ℕ)) (cnt : ℕ) (words : List ℕ)
    → Allocates malloc
    → cnt < 2 ^ 32
    → malloc (byte_cnt cnt) ≡ some words
    → cnt ≤ length words * 32
words_suffice malloc cnt words h bound given = elim (Bool-cases (ltb (cnt + 31) (2 ^ 32))) [
  | inl small ↦ omega (arith, h.enough (byte_cnt cnt) words given, ltb→lt (cnt + 31) (2 ^ 32) small)
  | inr wraps ↦
      let nothing : byte_cnt cnt ≡ 0 = ground arith in
      absurd (nothing_given (sym (ap malloc nothing ∙ h.no_bytes) ∙ given))
]
  where
    nothing_given : ¬ (none ≡ some words)
    nothing_given e = absurd cc

-- Where `malloc` keeps to its documentation, `bitmap_create` of fewer than 2 ^ 32 bits does not
-- panic.  It gives words that hold as many false bits, whatever the words held before, or NULL, and
-- then `malloc` found no room for the struct, or none for the words of a map that is not empty.
pub bitmap_create-Packs :
    (room : Bool) (malloc : ℕ → Option (List ℕ)) (cnt : ℕ)
    → Allocates malloc
    → cnt < 2 ^ 32
    → ((p : Packed) × (bitmap_create room malloc cnt ≡ ok (some p)) × Packs p (Bitmap.create cnt))
      ⊎ ((bitmap_create room malloc cnt ≡ ok none)
          × ((room ≡ false) ⊎ ((0 < cnt) × (malloc (byte_cnt cnt) ≡ none))))
unfolding bitmap_create fill_created
bitmap_create-Packs false malloc cnt h bound = inr (refl, inl refl)
bitmap_create-Packs true malloc cnt h bound = elim (Option-cases (malloc (byte_cnt cnt))) [
  | inr (words, given) ↦
      let (p, done, q) = cleared-Packs cnt words (words_suffice malloc cnt words h bound given) in
      inl (p, rw given done, q)
  | inl nothing ↦ elim (ℕ_discrete cnt 0) [
    | yes e ↦
        let (p, done, q) = cleared-Packs cnt [] (omega arith) in
        inl (p, rw (nothing, eq→== cnt 0 e) done, q)
    | no ne ↦ inr (rw (nothing, ne→false cnt 0 ne) refl, inr (omega arith, nothing))
  ]
]

-- A block with room for the struct and the words, as `bitmap_create_in_buf` asserts, is enough.
pub bitmap_create_in_buf-Packs :
    (cnt block_size : ℕ) (words : List ℕ)
    → cnt + 31 < 2 ^ 32
    → block_size ≤ 8 + length words * 4
    → ((bitmap_buf_size cnt ≤ block_size)
        × (p : Packed) × (bitmap_create_in_buf cnt words block_size ≡ ok p)
        × Packs p (Bitmap.create cnt))
      ⊎ ((block_size < bitmap_buf_size cnt) × (bitmap_create_in_buf cnt words block_size ≡ panic))
unfolding bitmap_create_in_buf
bitmap_create_in_buf-Packs cnt block_size words bound given =
    elim (Bool-cases (leb (bitmap_buf_size cnt) block_size)) [
      | inl fits ↦
          let enough : bitmap_buf_size cnt ≤ block_size = ground (arith, fits) in
          let (p, done, q) =
            bitmap_set_all-Packs (record { bit_cnt = cnt; bits = words }) (omega arith) in
          inl (enough, p, rw fits done, q)
      | inr short ↦ inr (ground (arith, short), rw short refl)
    ]
