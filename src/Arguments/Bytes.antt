-- ===== src/Arguments/Bytes.antt =====
-- What a push leaves in the memory.
use os_labratory_spring.Prelude.{
  ℕ, ◌+◌, ◌-◌, ◌*◌, ◌^◌, ◌≤◌, ◌<◌, ◌≡◌, refl, ap, ◌∙◌, true, false, List, length, get_or, ltb, leb,
  arith,
}
use os_labratory_spring.Words.{byte_of, four_bytes}
use os_labratory_spring.Inode.Data.{copy_out}
use os_labratory_spring.Inode.WriteAt.{copy_out-list}
use os_labratory_spring.Arguments.{Stack, poke, push, word_bytes}

-- The word at an address.
abbrev pub word_at : (ℕ → ℕ) → ℕ → ℕ
word_at memory a =
    memory a + 256 * memory (a + 1) + 65536 * memory (a + 2) + 16777216 * memory (a + 3)

poke-here :
    (memory : ℕ → ℕ) (a : ℕ) (bytes : List ℕ) (k : ℕ)
    → k < length bytes
    → poke memory a bytes (a + k) ≡ get_or bytes k 0
poke-here memory a bytes k h =
    let e : leb a (a + k) ≡ true = ground arith in
    let e' : ltb (a + k) (a + length bytes) ≡ true = ground arith in
    let e'' : a + k - a ≡ k = omega arith in rw (e, e', e'') refl

poke-behind :
    (memory : ℕ → ℕ) (a : ℕ) (bytes : List ℕ) (x : ℕ)
    → a + length bytes ≤ x
    → poke memory a bytes x ≡ memory x
poke-behind memory a bytes x h =
    let e : leb a x ≡ true = ground arith in
    let e' : ltb x (a + length bytes) ≡ false = ground arith in rw (e, e') refl

-- A push that fits leaves the bytes from the old stack pointer on.
pub push-kept :
    (s : Stack) (bytes : List ℕ) (x : ℕ)
    → length bytes ≤ s.esp
    → s.esp ≤ x
    → (push s bytes).memory x ≡ s.memory x
unfolding push
push-kept s bytes x fits h = poke-behind s.memory (s.esp - length bytes) bytes x (omega arith)

pub push-here :
    (s : Stack) (bytes : List ℕ) (k : ℕ)
    → k < length bytes
    → (push s bytes).memory ((push s bytes).esp + k) ≡ get_or bytes k 0
unfolding push
push-here s bytes k h = poke-here s.memory (s.esp - length bytes) bytes k h

pub push-bytes :
    (s : Stack) (bytes : List ℕ)
    → copy_out (push s bytes).memory (push s bytes).esp (length bytes) ≡ bytes
push-bytes s bytes =
    copy_out-list ((push s bytes).memory) ((push s bytes).esp) bytes
      (λ k lt. push-here s bytes k lt)

pub push-esp : (s : Stack) (bytes : List ℕ) → (push s bytes).esp ≡ s.esp - length bytes
unfolding push
push-esp s bytes = refl

pub push-word :
    (s : Stack) (w : ℕ)
    → w < 2 ^ 32
    → word_at (push s (word_bytes w)).memory (push s (word_bytes w)).esp ≡ w
push-word s w h =
    let a = (push s (word_bytes w)).esp in
    let m = (push s (word_bytes w)).memory in
    let first : m a ≡ byte_of w 0 =
      ap m (omega arith) ∙ push-here s (word_bytes w) 0 (omega arith) in
    omega (
      arith,
      first,
      push-here s (word_bytes w) 1 (omega arith),
      push-here s (word_bytes w) 2 (omega arith),
      push-here s (word_bytes w) 3 (omega arith),
      four_bytes w h,
    )
