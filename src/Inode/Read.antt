-- ===== src/Inode/Read.antt =====
-- `inode_read_at`: how many bytes it gives, and which.
use os_labratory_spring.Prelude.{
  ℕ, zero, suc, min, ◌+◌, ◌-◌, ◌/◌, ◌%◌, ◌≤◌, ◌<◌, ◌≡◌, refl, ap, ◌∙◌, inr, true, false, List, [],
  ◌∷◌, ◌++◌, get_elem?, ok, arith, some, dec_lt, ℕ_discrete, ne→false,
}
use os_labratory_spring.Device.{block_sector_size}
use os_labratory_spring.Cache.{Cache, Entry, modify, get}
use os_labratory_spring.Cache.View.{view, modify-eq-set}
use os_labratory_spring.Cache.Valid.{IsValid, HasRoom}
use os_labratory_spring.Cache.Get.{get-Served}
use os_labratory_spring.Cache.Use.{Closes, Served-Closed}
use os_labratory_spring.Inode.{Inode}
use os_labratory_spring.Inode.Data.{copy_out, chunk_size, finish_read, block_at, read_loop, read_at}
use os_labratory_spring.Inode.Copy.{
  copy_out-content, append-copy_out_zero, copy_out-rounds, byte_to_sector-past,
}
use os_labratory_spring.Inode.Layout.{Layout, Layout-Closed, content}

pub block_at_of_get_elem? :
    (cs : List Entry) (i : ℕ) (c : Entry) → get_elem? cs i ≡ some c → block_at cs i ≡ c.block
block_at_of_get_elem? [] i c h = absurd (cc)
block_at_of_get_elem? (x ∷ cs) zero c h = ground arith
block_at_of_get_elem? (x ∷ cs) (suc i) c h = block_at_of_get_elem? cs i c h

-- A round moves a byte or more, stays in the sector and in the file, and moves no more than asked.
pub chunk_bounds :
    (len size offset : ℕ)
    → offset < len
    → 0 < size
    → (0 < chunk_size len size offset)
      × (offset % block_sector_size + chunk_size len size offset ≤ block_sector_size)
      × (chunk_size len size offset ≤ size)
      × (offset + chunk_size len size offset ≤ len)
chunk_bounds len size offset h p = ground arith

-- Nothing is left in the file.
pub chunk_end : (len size offset : ℕ) → len ≤ offset → chunk_size len size offset ≡ 0
chunk_end len size offset h = ground arith

-- What a read leaves: it gives the bytes `bytes`, and no sector looks different.
pub record Read (inode : Inode) (len : ℕ) (st st' : Cache) (sec : ℕ → ℕ) : Type 0 where
  pub valid : IsValid st'
  pub room : HasRoom st'
  pub layout : Layout inode len st' sec
  pub kept : (t : ℕ) → view st' t ≡ view st t

-- The state after one round of `inode_read_at`.
abbrev after_read : Cache → ℕ → Cache
after_read st i = record st { entries = modify finish_read i st.entries }

round-Read :
    (inode : Inode) (len pos : ℕ) (st : Cache) (sec : ℕ → ℕ)
    → pos < len
    → IsValid st
    → HasRoom st
    → Layout inode len st sec
    → (st' : Cache) × (i : ℕ) × (get st (sec (pos / block_sector_size)) false true ≡ ok (i, st'))
      × (block_at st'.entries i ≡ view st (sec (pos / block_sector_size)))
      × Read inode len st (after_read st' i) sec
round-Read inode len pos st sec lt v r l =
    let s = sec (pos / block_sector_size) in
    let (st', i, run, served) = get-Served st s false v (l.in_range pos lt) r in
    let o = served.opened in
    let c' = finish_read o.entry in
    let closes : Closes o.entry c' = record {
      sector = refl;
      count = omega (arith, o.pinned);
      bytes = inr (refl, refl);
    } in
    let c = Served-Closed c' r served closes in
    (
      st',
      i,
      run,
      block_at_of_get_elem? st'.entries i o.entry o.at ∙ o.block,
      rw (modify-eq-set finish_read i st'.entries o.entry o.at) (record {
        valid = c.valid;
        room = c.room;
        layout = Layout-Closed lt l c;
        kept = λ t. elim (ℕ_discrete t s) [ yes e ↦ rw e (c.seen ∙ o.block) | no ne ↦ c.kept t ne ];
      }),
    )

read_loop-Read :
    (inode : Inode) (len fuel size offset : ℕ) (bytes : List ℕ) (st : Cache) (sec : ℕ → ℕ)
    → size ≤ fuel
    → IsValid st
    → HasRoom st
    → Layout inode len st sec
    → (st' : Cache) × (read_loop true inode len fuel size offset bytes st
        ≡ ok (bytes ++ copy_out (content st sec) offset (min size (len - offset)), st'))
      × Read inode len st st' sec
unfolding read_loop
read_loop-Read inode len zero size offset bytes st sec h v r l = (
  st,
  ground (arith, append-copy_out_zero bytes (content st sec) offset (min size (len - offset))),
  record { valid = v; room = r; layout = l; kept = λ t. refl },
)
read_loop-Read inode len (suc fuel) size offset bytes st sec h v r l = elim (ℕ_discrete size 0) [
  | yes e ↦ (
    st,
    ground (arith, append-copy_out_zero bytes (content st sec) offset (min size (len - offset))),
    record { valid = v; room = r; layout = l; kept = λ t. refl },
  )
  | no more ↦ elim (dec_lt offset len) [
    | no past ↦ (
      st,
      ground (
        arith,
        byte_to_sector-past inode st.dev len offset,
        chunk_end len size offset,
        append-copy_out_zero bytes (content st sec) offset (min size (len - offset)),
      ),
      record { valid = v; room = r; layout = l; kept = λ t. refl },
    )
    | yes lt ↦
        let n = chunk_size len size offset in
        let (pos_n, fits, asked, left) = chunk_bounds len size offset lt (omega arith) in
        let (st1, i, run, block, rd) = round-Read inode len offset st sec lt v r l in
        let bytes1 = copy_out (block_at st1.entries i) (offset % block_sector_size) n in
        let e1 : bytes1 ≡ copy_out (content st sec) offset n =
          copy_out-content st sec offset n (block_at st1.entries i) block fits in
        let (st', run', rd') =
          read_loop-Read inode len fuel (size - n) (offset + n) (bytes ++ bytes1) (after_read st1 i)
            sec (omega arith) rd.valid rd.room rd.layout in
        (
          st',
          rw (ne→false size 0 more, l.finds offset lt, ne→false n 0 (λ z. omega arith), run, run')
              (ap (λ (b : List ℕ). ok (b, st'))
                (rw e1 (
                  copy_out-rounds st (after_read st1 i) sec len size offset n bytes asked left
                    rd.kept))),
          record {
            valid = rd'.valid;
            room = rd'.room;
            layout = rd'.layout;
            kept = λ t. rd'.kept t ∙ rd.kept t;
          },
        )
  ]
]

-- With the bytes of the file where `byte_to_sector` finds them, apart from its pointers, with a
-- valid cache that has room, and where `malloc` finds room, `inode_read_at` neither panics nor loops for ever.  It gives as many of the
-- `size` bytes from `offset` on as the file has, those that a reader of its sectors sees; the cache
-- stays valid, and no sector looks different.
pub read_at-Read :
    (inode : Inode) (size offset : ℕ) (st : Cache) (sec : ℕ → ℕ)
    → IsValid st
    → HasRoom st
    → Layout inode inode.read_length st sec
    → (st' : Cache) × (read_at true inode size offset st
        ≡ ok (copy_out (content st sec) offset (min size (inode.read_length - offset)), st'))
      × Read inode inode.read_length st st' sec
unfolding read_at
read_at-Read inode size offset st sec v r l = elim (dec_lt offset inode.read_length) [
  | no past ↦ (
    st,
    ground (
      arith,
      append-copy_out_zero [] (content st sec) offset (min size (inode.read_length - offset)),
    ),
    record { valid = v; room = r; layout = l; kept = λ t. refl },
  )
  | yes lt ↦
      let (st', run, rd) =
        read_loop-Read inode inode.read_length size size offset [] st sec (omega arith) v r l in
      (st', ground (arith, run), rd)
]
