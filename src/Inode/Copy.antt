-- ===== src/Inode/Copy.antt =====
-- The bytes that `inode_read_at` copies, round after round.
use os_labratory_spring.Prelude.{
  ℕ, zero, suc, min, ◌+◌, ◌-◌, ◌/◌, ◌%◌, ◌≤◌, ◌<◌, ◌≡◌, refl, ap, ◌∙◌, List, ◌∷◌, ◌++◌, ok, arith,
  ◌^◌,
}
use mathlib.Core.List.{append-nil, append_assoc}
use os_labratory_spring.Device.{Block, Device, block_sector_size}
use os_labratory_spring.Cache.{Cache}
use os_labratory_spring.Cache.View.{view}
use os_labratory_spring.Inode.{Inode, byte_to_sector}
use os_labratory_spring.Inode.Data.{copy_out}
use os_labratory_spring.Inode.Layout.{content}

pub copy_out-append :
    (f : Block) (a n m : ℕ) → copy_out f a n ++ copy_out f (a + n) m ≡ copy_out f a (n + m)
unfolding copy_out
copy_out-append f a zero m =
    let e : a + 0 ≡ a = omega arith in let e' : 0 + m ≡ m = omega arith in rw (e, e')
copy_out-append f a (suc n) m =
    let e : a + suc n ≡ a + 1 + n = omega arith in
    let e' : suc n + m ≡ suc (n + m) = omega arith in
    rw (e, e') (ap (◌∷◌ (f a)) (copy_out-append f (a + 1) n m))

-- Two ranges with the same bytes.
pub copy_out_eq :
    (f g : Block) (a b n : ℕ)
    → ((k : ℕ) → k < n → f (a + k) ≡ g (b + k))
    → copy_out f a n ≡ copy_out g b n
unfolding copy_out
copy_out_eq f g a b zero h = refl
copy_out_eq f g a b (suc n) h =
    let first : f a ≡ g b =
      let e : a + 0 ≡ a = omega arith in
      let e' : b + 0 ≡ b = omega arith in rw e at (rw e' at (h 0 (omega arith))) in
    let rest : copy_out f (a + 1) n ≡ copy_out g (b + 1) n =
      copy_out_eq f g (a + 1) (b + 1) n (λ k p.
        let e : a + 1 + k ≡ a + suc k = omega arith in
        let e' : b + 1 + k ≡ b + suc k = omega arith in rw (e, e') (h (suc k) (omega arith))) in
    cc

-- The bytes of one round are those of the file.
pub copy_out-content :
    (st : Cache) (sec : ℕ → ℕ) (pos n : ℕ) (b : Block)
    → b ≡ view st (sec (pos / block_sector_size))
    → pos % block_sector_size + n ≤ block_sector_size
    → copy_out b (pos % block_sector_size) n ≡ copy_out (content st sec) pos n
copy_out-content st sec pos n b e h = rw e (
    copy_out_eq (view st (sec (pos / block_sector_size))) (content st sec) (pos % block_sector_size)
      pos n
      (λ k p.
        let q : (pos + k) / block_sector_size ≡ pos / block_sector_size = omega arith in
        let m : (pos + k) % block_sector_size ≡ pos % block_sector_size + k = omega arith in
        rw (q, m)))

pub copy_out-kept :
    (st st' : Cache) (sec : ℕ → ℕ) (a n : ℕ)
    → ((t : ℕ) → view st' t ≡ view st t)
    → copy_out (content st' sec) a n ≡ copy_out (content st sec) a n
copy_out-kept st st' sec a n h = copy_out_eq (content st' sec) (content st sec) a a n (λ k p.
    ap (λ (b : Block). b ((a + k) % block_sector_size)) (h (sec ((a + k) / block_sector_size))))

-- A round that moves no byte ends the loop.
pub append-copy_out_zero :
    (bytes : List ℕ) (f : Block) (a n : ℕ) → n ≡ 0 → bytes ++ copy_out f a n ≡ bytes
unfolding copy_out
append-copy_out_zero bytes f a n e = rw (e, append-nil)

pub byte_to_sector-past :
    (inode : Inode) (dev : Device) (len pos : ℕ)
    → len ≤ pos
    → byte_to_sector inode dev len pos ≡ ok (2 ^ 32 - 1)
unfolding byte_to_sector
byte_to_sector-past inode dev len pos h = ground arith

-- The bytes of a round and of the rounds after it.
pub copy_out-rounds :
    (st st' : Cache) (sec : ℕ → ℕ) (len size offset n : ℕ) (bytes : List ℕ)
    → n ≤ size
    → offset + n ≤ len
    → ((t : ℕ) → view st' t ≡ view st t)
    → (bytes ++ copy_out (content st sec) offset n)
        ++ copy_out (content st' sec) (offset + n) (min (size - n) (len - (offset + n)))
      ≡ bytes ++ copy_out (content st sec) offset (min size (len - offset))
copy_out-rounds st st' sec len size offset n bytes h h' kept =
    let m = min (size - n) (len - (offset + n)) in
    let e : n + m ≡ min size (len - offset) = omega arith in
    append_assoc bytes (copy_out (content st sec) offset n)
      (copy_out (content st' sec) (offset + n) m)
    ∙ ap (λ t. bytes ++ t)
        (ap (λ t. copy_out (content st sec) offset n ++ t)
            (copy_out-kept st st' sec (offset + n) m kept)
          ∙ copy_out-append (content st sec) offset n m
          ∙ ap (copy_out (content st sec) offset) e)
