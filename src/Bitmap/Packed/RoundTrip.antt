-- ===== src/Bitmap/Packed/RoundTrip.antt =====
-- What `bitmap_write` of lib/kernel/bitmap.c has written, `bitmap_read` reads back.
use Prim.Native.Nat.{bit_and}
use os_labratory_spring.Prelude.{
  ℕ, zero, suc, ◌+◌, ◌-◌, ◌*◌, ◌/◌, ◌%◌, ◌^◌, ◌≤◌, ◌<◌, ◌≡◌, refl, sym, ap, ◌∙◌, Bool, true, false,
  not, ◌&&◌, List, [], ◌∷◌, length, get_or, ltb, Result, ok, arith, inl, inr, ℕ_discrete,
  length-set, get_or-set_self, get_or-set_ne, eq→==, ne→false, Bool-cases, ltb→lt, bind-ok,
}
use os_labratory_spring.Words.{word, word-block_of}
use os_labratory_spring.Bitmap.{Bitmap}
use os_labratory_spring.Bitmap.Digits.{
  test_bit, test_bit-bit_and, test_bit-complement, test_bit-zero,
}
use os_labratory_spring.Bitmap.Packed.{Packed, elem, elem_cnt, byte_cnt}
use os_labratory_spring.Bitmap.Packed.Refines.{Packs}
use os_labratory_spring.Bitmap.Packed.Files.{
  last_mask, packed_bytes, with_bytes, mask_last, bitmap_read, bitmap_write,
}

length-with_bytes :
    (buffer : ℕ → ℕ) (i : ℕ) (ws : List ℕ) → length (with_bytes buffer i ws) ≡ length ws
unfolding with_bytes
length-with_bytes buffer i [] = refl
length-with_bytes buffer i (w ∷ ws) = ap suc (length-with_bytes buffer (i + 1) ws)

get_or-with_bytes :
    (buffer : ℕ → ℕ) (i : ℕ) (ws : List ℕ) (j : ℕ)
    → j < length ws
    → get_or (with_bytes buffer i ws) j 0 ≡ word buffer (i + j)
unfolding with_bytes
get_or-with_bytes buffer i [] j h = absurd (omega arith)
get_or-with_bytes buffer i (w ∷ ws) zero h = ap (word buffer) (omega arith)
get_or-with_bytes buffer i (w ∷ ws) (suc j) h =
    get_or-with_bytes buffer (i + 1) ws j (omega arith) ∙ ap (word buffer) (omega arith)

-- `2 ^ n - 1` has all of the `n` lowest bits.
test_bit-ones : (j n : ℕ) → j < n → test_bit j (2 ^ n - 1) ≡ true
test_bit-ones j n h =
    let same_number : 2 ^ n - 1 - 0 ≡ 2 ^ n - 1 = omega arith in
    ap (test_bit j) (sym same_number)
    ∙ test_bit-complement j n 0 h (positive n)
    ∙ ap not (test_bit-zero j)
  where
    positive : (n : ℕ) → 0 < 2 ^ n
    positive zero = omega arith
    positive (suc n) = omega (arith, positive n)

last_mask-used :
    (b : Packed) (i : ℕ)
    → i < b.bit_cnt
    → (b.bit_cnt - 1) / 32 ≡ i / 32
    → test_bit (i % 32) (last_mask b) ≡ true
last_mask-used b i h e = elim (ℕ_discrete (b.bit_cnt % 32) 0) [
  | yes z ↦ rw (eq→== (b.bit_cnt % 32) 0 z) (test_bit-ones (i % 32) 32 (omega arith))
  | no nz ↦
      rw (ne→false (b.bit_cnt % 32) 0 nz) (test_bit-ones (i % 32) (b.bit_cnt % 32) (omega arith))
]

-- The mask of the last word leaves the bits of the map.
mask_last-elem :
    (b : Packed) (i : ℕ)
    → i < b.bit_cnt
    → b.bit_cnt + 31 < 2 ^ 32
    → b.bit_cnt ≤ length b.bits * 32
    → test_bit (i % 32) (elem (mask_last b) i) ≡ test_bit (i % 32) (elem b i)
unfolding mask_last
mask_last-elem b i h bound room =
    let last : (elem_cnt b.bit_cnt + 2 ^ 32 - 1) % 2 ^ 32 ≡ (b.bit_cnt - 1) / 32 = omega arith in
    rw last (elim (ℕ_discrete ((b.bit_cnt - 1) / 32) (i / 32)) [
      | yes e ↦
          rw (e, get_or-set_self b.bits (i / 32) (bit_and (elem b i) (last_mask b)) 0 (omega arith))
            (test_bit-bit_and (i % 32) (elem b i) (last_mask b)
              ∙ rw (last_mask-used b i h e) (and_true (test_bit (i % 32) (elem b i))))
      | no ne ↦ ap (test_bit (i % 32)) (get_or-set_ne b.bits _ (i / 32) _ 0 ne)
    ])
  where
    and_true : (x : Bool) → x && true ≡ x
    and_true true = refl
    and_true false = refl

words_of_bytes :
    (c d : ℕ → ℕ) (i : ℕ)
    → c (4 * i) ≡ d (4 * i)
    → c (4 * i + 1) ≡ d (4 * i + 1)
    → c (4 * i + 2) ≡ d (4 * i + 2)
    → c (4 * i + 3) ≡ d (4 * i + 3)
    → word c i ≡ word d i
unfolding word
words_of_bytes c d i e0 e1 e2 e3 = omega (arith, e0, e1, e2, e3)

-- Words made of the bytes of `p` are the words of `p`.
word-packed_bytes :
    (p : Packed) (buffer : ℕ → ℕ) (i : ℕ)
    → ((k : ℕ) → k < 4 * i + 4 → buffer k ≡ packed_bytes p k)
    → get_or p.bits i 0 < 2 ^ 32
    → word buffer i ≡ get_or p.bits i 0
word-packed_bytes p buffer i h small = same_words ∙ word-block_of (λ i. get_or p.bits i 0) i small
  where
    same_words : word buffer i ≡ word (packed_bytes p) i
    same_words =
        words_of_bytes buffer (packed_bytes p) i (h (4 * i) (omega arith))
          (h (4 * i + 1) (omega arith)) (h (4 * i + 2) (omega arith)) (h (4 * i + 3) (omega arith))

-- On good states of a file, a read of the first `size` bytes behind a write of all of them gives
-- the bytes that were written.
pub record Stores {F : Type 0} (file_read_at : F → (ℕ → ℕ) → ℕ → ℕ → Result (ℕ × (ℕ → ℕ) × F))
    (file_write_at : F → (ℕ → ℕ) → ℕ → ℕ → Result (ℕ × F)) (Good : F → Type 0) (size : ℕ)
    : Type 0 where
  pub reads_back :
      (file file' : F) (out held : ℕ → ℕ)
      → Good file
      → file_write_at file out size 0 ≡ ok (size, file')
      → (buffer : ℕ → ℕ) × (file'' : F) × (file_read_at file' held size 0
          ≡ ok (size, buffer, file''))
        × ((k : ℕ) → k < size → buffer k ≡ out k)

-- The words of a map that was read are those that were written, but for bits not in use.
read_words-Packs :
    (p q : Packed) (b : Bitmap) (buffer : ℕ → ℕ)
    → Packs p b
    → ((i : ℕ) → get_or p.bits i 0 < 2 ^ 32)
    → q.bit_cnt ≡ p.bit_cnt
    → q.bit_cnt ≤ length q.bits * 32
    → 0 < p.bit_cnt
    → p.bit_cnt + 31 < 2 ^ 32
    → ((k : ℕ) → k < byte_cnt p.bit_cnt → buffer k ≡ packed_bytes p k)
    → Packs (mask_last (record q { bits = with_bytes buffer 0 q.bits })) b
unfolding mask_last
read_words-Packs p q b buffer h small cnt room positive bound stored =
    let filled : Packed = record q { bits = with_bytes buffer 0 q.bits } in
    let same_length : length (with_bytes buffer 0 q.bits) ≡ length q.bits =
      length-with_bytes buffer 0 q.bits in
    record {
      size = h.size ∙ sym cnt;
      room = omega (
        arith,
        room,
        same_length,
        length-set (with_bytes buffer 0 q.bits) ((elem_cnt q.bit_cnt + 2 ^ 32 - 1) % 2 ^ 32) (
            bit_and
              (get_or (with_bytes buffer 0 q.bits) ((elem_cnt q.bit_cnt + 2 ^ 32 - 1) % 2 ^ 32) 0)
              (last_mask filled)),
      );
      agree = λ i r.
          mask_last-elem filled i r (omega arith) (omega arith)
          ∙ ap (test_bit (i % 32)) (
              get_or-with_bytes buffer 0 q.bits (i / 32) (omega arith)
              ∙ ap (word buffer) (omega arith)
              ∙ word-packed_bytes p buffer (i / 32) (λ k s. stored k (omega arith))
                  (small (i / 32)))
          ∙ h.agree i (omega arith);
    }

-- Over functions on files that store what is written, of words below 2 ^ 32 that hold the bits `b`,
-- fewer than 2 ^ 32 - 31 of them: what `bitmap_write` has written of them, `bitmap_read` into a map
-- of the same size, with room for the words, reads back.
pub bitmap_read-bitmap_write :
    {F : Type 0} (file_read_at : F → (ℕ → ℕ) → ℕ → ℕ → Result (ℕ × (ℕ → ℕ) × F))
    (file_write_at : F → (ℕ → ℕ) → ℕ → ℕ → Result (ℕ × F)) {Good : F → Type 0} (p q : Packed)
    (b : Bitmap) (file file' : F)
    → Stores file_read_at file_write_at Good (byte_cnt p.bit_cnt)
    → Good file
    → Packs p b
    → ((i : ℕ) → get_or p.bits i 0 < 2 ^ 32)
    → q.bit_cnt ≡ p.bit_cnt
    → q.bit_cnt ≤ length q.bits * 32
    → p.bit_cnt + 31 < 2 ^ 32
    → bitmap_write file_write_at p file ≡ ok (true, file')
    → (q' : Packed) × (file'' : F) × (bitmap_read file_read_at q file' ≡ ok (true, q', file''))
      × Packs q' b
unfolding bitmap_write bitmap_read
bitmap_read-bitmap_write read_at write_at p q b file file' stores good h small cnt room bound
      written =
    elim (Bool-cases (ltb 0 q.bit_cnt)) [
      | inl positive ↦
          let ((n, file1), run, rest) =
            bind-ok (write_at file (packed_bytes p) (byte_cnt p.bit_cnt) 0) _ _ written in
          let full : n ≡ byte_cnt p.bit_cnt = ground (arith, rest) in
          let same_file : file1 ≡ file' = cc in
          let (buffer, file'', done, stored) =
            stores.reads_back file file' (packed_bytes p) (packed_bytes q) good cc in
          (
            mask_last (record q { bits = with_bytes buffer 0 q.bits }),
            file'',
            rw (positive, cnt, done, eq→== (byte_cnt p.bit_cnt) (byte_cnt p.bit_cnt) refl) refl,
            read_words-Packs p q b buffer h small cnt room
                (omega (arith, ltb→lt 0 q.bit_cnt positive)) bound stored,
          )
      | inr empty ↦ (
        q,
        file',
        rw empty refl,
        record { size = h.size ∙ sym cnt; room = room; agree = λ i r. absurd (ground arith) },
      )
    ]

-- Where all bytes are written, `bitmap_write` reports success.
pub bitmap_write-full :
    {F : Type 0} (file_write_at : F → (ℕ → ℕ) → ℕ → ℕ → Result (ℕ × F)) (b : Packed)
    (file file' : F)
    → file_write_at file (packed_bytes b) (byte_cnt b.bit_cnt) 0 ≡ ok (byte_cnt b.bit_cnt, file')
    → bitmap_write file_write_at b file ≡ ok (true, file')
unfolding bitmap_write
bitmap_write-full file_write_at b file file' run =
    rw (run, eq→== (byte_cnt b.bit_cnt) (byte_cnt b.bit_cnt) refl) refl
