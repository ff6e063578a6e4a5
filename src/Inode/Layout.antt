-- ===== src/Inode/Layout.antt =====
-- Which sectors hold the bytes of a file, and which its pointers.
use os_labratory_spring.Prelude.{
  ℕ, ◌+◌, ◌-◌, ◌*◌, ◌/◌, ◌%◌, ◌<◌, ◌≡◌, ◌≢◌, refl, ◌∙◌, sym, ok, arith, none, dec_lt,
}
use os_labratory_spring.Device.{Block, Device, block_read, block_sector_size}
use os_labratory_spring.Words.{word}
use os_labratory_spring.Cache.{Cache}
use os_labratory_spring.Cache.View.{slot, view}
use os_labratory_spring.Cache.Use.{Closed, Closed-stored}
use os_labratory_spring.Inode.{
  Inode, byte_to_sector, direct_bytes, single_bytes, indirect_bytes, direct_blocks,
  double_indirect_index_start,
}

-- The sectors of the pointers that `byte_to_sector` follows for the first `len` bytes.
pub data IsMeta (inode : Inode) (len : ℕ) (dev : Device) (m : ℕ) : Type 0 where
  single :
      (k : ℕ)
      → k < 9
      → direct_bytes + k * indirect_bytes < len
      → m ≡ inode.ptr (k + direct_blocks)
      → IsMeta inode len dev m
  outer : single_bytes < len → m ≡ inode.ptr double_indirect_index_start → IsMeta inode len dev m
  inner :
      (k : ℕ)
      → single_bytes + k * indirect_bytes < len
      → m ≡ word (dev.stored (inode.ptr double_indirect_index_start)) k
      → IsMeta inode len dev m

-- The pointers are on the device, and so are the sectors of the data: `sec k` is that of the
-- bytes from `512 * k` on.  No pointer is in the cache or in a sector of the data.
pub record Layout (inode : Inode) (len : ℕ) (st : Cache) (sec : ℕ → ℕ) : Type 0 where
  pub finds :
      (pos : ℕ)
      → pos < len
      → byte_to_sector inode st.dev len pos ≡ ok (sec (pos / block_sector_size))
  pub in_range : (pos : ℕ) → pos < len → sec (pos / block_sector_size) < st.dev.size
  pub uncached : (m : ℕ) → IsMeta inode len st.dev m → slot st.entries m ≡ none
  pub apart :
      (m pos : ℕ) → IsMeta inode len st.dev m → pos < len → sec (pos / block_sector_size) ≢ m

-- The two devices have the same pointers.
abbrev pub SameMeta : Inode → ℕ → Device → Device → Type 0
SameMeta inode len dev dev' = (m : ℕ) → IsMeta inode len dev m → dev'.stored m ≡ dev.stored m

IsMeta-back :
    {inode : Inode} {len : ℕ} {dev dev' : Device} {m : ℕ}
    → SameMeta inode len dev dev'
    → IsMeta inode len dev' m
    → IsMeta inode len dev m
IsMeta-back h (single k lt used e) = single k lt used e
IsMeta-back h (outer used e) = outer used e
IsMeta-back {inode} h (inner k used e) =
    inner k used (rw (← h (inode.ptr double_indirect_index_start) (outer (omega arith) refl)) e)

pub byte_to_sector-frame :
    (inode : Inode) (len pos : ℕ) {dev dev' : Device}
    → dev'.size ≡ dev.size
    → SameMeta inode len dev dev'
    → pos < len
    → byte_to_sector inode dev' len pos ≡ byte_to_sector inode dev len pos
unfolding byte_to_sector block_read
byte_to_sector-frame inode len pos {dev} {dev'} size h lt = elim (dec_lt pos direct_bytes) [
  | yes direct ↦ ground arith
  | no far ↦ elim (dec_lt pos single_bytes) [
    | yes one ↦
        let k = (pos - direct_bytes) / indirect_bytes in
        let e = h (inode.ptr (k + direct_blocks)) (single k (omega arith) (omega arith) refl) in
        ground (arith, e)
    | no two ↦
        let k = (pos - single_bytes) / indirect_bytes in
        let root = inode.ptr double_indirect_index_start in
        let e = h root (outer (omega arith) refl) in
        let e' = h (word (dev.stored root) k) (inner k (omega arith) refl) in ground (arith, e, e')
  ]
]

-- The use of one sector of the data leaves the layout as it is.
pub Layout-Closed :
    {inode : Inode} {len pos : ℕ} {st st' : Cache} {sec : ℕ → ℕ} {b : Block}
    → pos < len
    → Layout inode len st sec
    → Closed st st' (sec (pos / block_sector_size)) b
    → Layout inode len st' sec
Layout-Closed {inode} {len} {pos} {st} {st'} {sec} lt l c =
    let stays : SameMeta inode len st.dev st'.dev =
      λ m x. Closed-stored m c (λ e. l.apart m pos x lt (sym e)) (l.uncached m x) in
    record {
      finds = λ p h. byte_to_sector-frame inode len p c.device stays h ∙ l.finds p h;
      in_range = λ p h. rw c.device (l.in_range p h);
      uncached = λ m x.
          let old = IsMeta-back stays x in
          c.absent m (λ e. l.apart m pos old lt (sym e)) (l.uncached m old);
      apart = λ m p x h. l.apart m p (IsMeta-back stays x) h;
    }

-- Byte `pos` of the file, as a reader sees it.
abbrev pub content : Cache → (ℕ → ℕ) → ℕ → ℕ
content st sec pos = view st (sec (pos / block_sector_size)) (pos % block_sector_size)
