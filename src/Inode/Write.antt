-- ===== src/Inode/Write.antt =====
-- The loop of `inode_write_at`: how many bytes it writes, and where.
use os_labratory_spring.Prelude.{
  none, ℕ, zero, suc, min, ne→false, ◌+◌, ◌-◌, ◌/◌, ◌%◌, ◌≤◌, ◌<◌, ◌≡◌, ◌≢◌, refl, ap, ◌∙◌, sym,
  inl, true, false, ◌&&◌, List, get_or, ltb, leb, if◌then◌else◌, ok, arith, dec_lt, ℕ_discrete,
}
use os_labratory_spring.Device.{Block, block_sector_size}
use os_labratory_spring.Cache.{Cache, modify, get}
use os_labratory_spring.Cache.View.{slot, view, modify-eq-set}
use os_labratory_spring.Cache.Valid.{IsValid, HasRoom}
use os_labratory_spring.Cache.Get.{get-Served}
use os_labratory_spring.Cache.Use.{Closes, Served-Closed}
use os_labratory_spring.Inode.{Inode}
use os_labratory_spring.Inode.Data.{copy_in, chunk_size, finish_write, write_loop}
use os_labratory_spring.Inode.Layout.{Layout, Layout-Closed, content}
use os_labratory_spring.Inode.Read.{chunk_bounds, chunk_end}
use os_labratory_spring.Inode.Copy.{byte_to_sector-past}

-- No two sectors of the data are one.
abbrev pub Separate : ℕ → (ℕ → ℕ) → Type 0
Separate len sec =
    (p q : ℕ)
    → p < len
    → q < len
    → sec (p / block_sector_size) ≡ sec (q / block_sector_size)
    → p / block_sector_size ≡ q / block_sector_size

-- `n` bytes of the buffer, from `from` on, are in the file from `offset` on, and nothing else is
-- changed.
pub record Wrote (inode : Inode) (st st' : Cache) (sec : ℕ → ℕ) (buffer : List ℕ)
    (from offset n : ℕ) : Type 0 where
  pub valid : IsValid st'
  pub room : HasRoom st'
  pub layout : Layout inode inode.length st' sec
  pub bytes :
      (p : ℕ)
      → p < inode.length
      → content st' sec p ≡ (
          if leb offset p && ltb p (offset + n)
          then get_or buffer (from + (p - offset)) 0
          else content st sec p)
  pub others :
      (t : ℕ)
      → ((p : ℕ) → p < inode.length → sec (p / block_sector_size) ≢ t)
      → view st' t ≡ view st t
  pub size : st'.dev.size ≡ st.dev.size
  pub absent :
      (t : ℕ)
      → ((p : ℕ) → p < inode.length → sec (p / block_sector_size) ≢ t)
      → slot st.entries t ≡ none
      → slot st'.entries t ≡ none

-- A position in the sector of `offset`, and one in another sector, against the bytes of a round.
in_same_sector :
    (p offset n : ℕ)
    → p / block_sector_size ≡ offset / block_sector_size
    → (leb (offset % block_sector_size) (p % block_sector_size)
        && ltb (p % block_sector_size) (offset % block_sector_size + n))
      ≡ (leb offset p && ltb p (offset + n))
in_same_sector p offset n e = ground arith

in_other_sector :
    (p offset n : ℕ)
    → offset % block_sector_size + n ≤ block_sector_size
    → p / block_sector_size ≢ offset / block_sector_size
    → (leb offset p && ltb p (offset + n)) ≡ false
in_other_sector p offset n h ne = ground arith

copy_in-same :
    (b : Block) (buffer : List ℕ) (from p offset n : ℕ)
    → p / block_sector_size ≡ offset / block_sector_size
    → copy_in b (offset % block_sector_size) buffer from n (p % block_sector_size) ≡ (
        if leb offset p && ltb p (offset + n)
        then get_or buffer (from + (p - offset)) 0
        else b (p % block_sector_size))
unfolding copy_in
copy_in-same b buffer from p offset n e =
    let d : p % block_sector_size - offset % block_sector_size ≡ p - offset = omega arith in
    rw (in_same_sector p offset n e, d)

abbrev after_write : Cache → ℕ → List ℕ → ℕ → ℕ → ℕ → Cache
after_write st i buffer from offset n = record st {
  entries = modify (finish_write (offset % block_sector_size) buffer from n) i st.entries;
}

round-Wrote :
    (inode : Inode) (st : Cache) (sec : ℕ → ℕ) (buffer : List ℕ) (from offset n : ℕ)
    → offset < inode.length
    → offset % block_sector_size + n ≤ block_sector_size
    → Separate inode.length sec
    → IsValid st
    → HasRoom st
    → Layout inode inode.length st sec
    → (st' : Cache) × (i : ℕ) × (get st (sec (offset / block_sector_size)) true true ≡ ok (i, st'))
      × Wrote inode st (after_write st' i buffer from offset n) sec buffer from offset n
round-Wrote inode st sec buffer from offset n lt fits sep v r l =
    let s = sec (offset / block_sector_size) in
    let (st', i, run, served) = get-Served st s true v (l.in_range offset lt) r in
    let o = served.opened in
    let f = finish_write (offset % block_sector_size) buffer from n in
    let c' = f o.entry in
    let closes : Closes o.entry c' = record {
      sector = refl;
      count = omega (arith, o.pinned);
      bytes = inl refl;
    } in
    let c = Served-Closed c' r served closes in
    (
      st',
      i,
      run,
      rw (modify-eq-set f i st'.entries o.entry o.at) (record {
        valid = c.valid;
        room = c.room;
        layout = Layout-Closed lt l c;
        bytes = λ p h. elim (ℕ_discrete (p / block_sector_size) (offset / block_sector_size)) [
          | yes e ↦ rw (e, c.seen, ← o.block) (copy_in-same o.entry.block buffer from p offset n e)
          | no ne ↦ rw (
            c.kept (sec (p / block_sector_size)) (λ e. ne (sep p offset h lt e)),
            in_other_sector p offset n fits ne,
          )
        ];
        others = λ t h. c.kept t (λ e. h offset lt (sym e));
        size = c.device;
        absent = λ t h. c.absent t (λ e. h offset lt (sym e));
      }),
    )

Wrote-nothing :
    (inode : Inode) (st : Cache) (sec : ℕ → ℕ) (buffer : List ℕ) (from offset n : ℕ)
    → IsValid st
    → HasRoom st
    → Layout inode inode.length st sec
    → n ≡ 0
    → Wrote inode st st sec buffer from offset n
Wrote-nothing inode st sec buffer from offset n v r l e = record {
  valid = v;
  room = r;
  layout = l;
  bytes = λ p h. ground arith;
  others = λ t h. refl;
  size = refl;
  absent = λ t h e. e;
}

-- The bytes of a round and of the rounds after it.
Wrote-rounds :
    {inode : Inode} {st st1 st2 : Cache} {sec : ℕ → ℕ} {buffer : List ℕ} {from offset n m k : ℕ}
    → Wrote inode st st1 sec buffer from offset n
    → Wrote inode st1 st2 sec buffer (from + n) (offset + n) m
    → n + m ≡ k
    → Wrote inode st st2 sec buffer from offset k
Wrote-rounds {inode} {st} {st1} {st2} {sec} {buffer} {from} {offset} {n} {m} {k} w w' e = record {
  valid = w'.valid;
  room = w'.room;
  layout = w'.layout;
  bytes = λ p h. elim (dec_lt p (offset + n)) [
    | yes early ↦ ground (arith, w'.bytes p h, w.bytes p h)
    | no late ↦
        let d : from + n + (p - (offset + n)) ≡ from + (p - offset) = omega arith in
        ground (arith, w'.bytes p h, w.bytes p h, ap (λ i. get_or buffer i 0) d)
  ];
  others = λ t h. w'.others t h ∙ w.others t h;
  size = w'.size ∙ w.size;
  absent = λ t h e. w'.absent t h (w.absent t h e);
}

-- With the bytes of the file where `byte_to_sector` finds them, each sector at one place, apart
-- from its pointers, with a valid cache that has room, where `malloc` finds room, and with as many
-- rounds as bytes, the loop of `inode_write_at` neither panics nor loops for ever.  It writes as many of the `size` bytes of the buffer as fit before the end of the
-- file.  Afterwards a reader sees them from `offset` on, every other byte of the file and every
-- sector outside it look as before, and the cache is valid.
pub write_loop-Wrote :
    (inode : Inode) (buffer : List ℕ) (fuel size offset done : ℕ) (st : Cache) (sec : ℕ → ℕ)
    → size ≤ fuel
    → Separate inode.length sec
    → IsValid st
    → HasRoom st
    → Layout inode inode.length st sec
    → (st' : Cache) × (write_loop true inode buffer fuel size offset done st
        ≡ ok (done + min size (inode.length - offset), st'))
      × Wrote inode st st' sec buffer done offset (min size (inode.length - offset))
unfolding write_loop
write_loop-Wrote inode buffer zero size offset done st sec h sep v r l =
    let e : done ≡ done + min size (inode.length - offset) = omega arith in
    (st, ground (arith, e), Wrote-nothing inode st sec buffer done offset _ v r l (omega arith))
write_loop-Wrote inode buffer (suc fuel) size offset done st sec h sep v r l =
    elim (ℕ_discrete size 0) [
      | yes e ↦
          let e' : done ≡ done + min size (inode.length - offset) = omega arith in
          (
            st,
            ground (arith, e'),
            Wrote-nothing inode st sec buffer done offset _ v r l (omega arith),
          )
      | no more ↦ elim (dec_lt offset inode.length) [
        | no past ↦
            let e' : done ≡ done + min size (inode.length - offset) = omega arith in
            (
              st,
              ground (
                arith,
                e',
                byte_to_sector-past inode st.dev inode.length offset,
                chunk_end inode.length size offset,
              ),
              Wrote-nothing inode st sec buffer done offset _ v r l (omega arith),
            )
        | yes lt ↦
            let n = chunk_size inode.length size offset in
            let (pos_n, fits, asked, left) =
              chunk_bounds inode.length size offset lt (omega arith) in
            let (st1, i, run, w) =
              round-Wrote inode st sec buffer done offset n lt fits sep v r l in
            let (st', run', w') =
              write_loop-Wrote inode buffer fuel (size - n) (offset + n) (done + n)
                (after_write st1 i buffer done offset n) sec (omega arith) sep w.valid w.room
                w.layout in
            let e : done + n + min (size - n) (inode.length - (offset + n))
                ≡ done + min size (inode.length - offset) =
              omega arith in
            (
              st',
              rw (
                ne→false size 0 more,
                l.finds offset lt,
                ne→false n 0 (λ z. omega arith),
                run,
                run',
                e,
              ),
              Wrote-rounds w w' (omega arith),
            )
      ]
    ]
