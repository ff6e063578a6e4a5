-- ===== src/Dir/Search.antt =====
-- What the loops over the entries of a directory find.
use os_labratory_spring.Prelude.{
  ℕ, zero, suc, min, ◌+◌, ◌-◌, ◌*◌, ◌/◌, ◌%◌, ◌≤◌, ◌<◌, ◌≡◌, refl, ap, sym, ◌∙◌, fun_ext, ◌⊎◌, inl,
  inr, Bool, true, false, List, [], ◌∷◌, length, drop, leb, ok, arith, ℕ_discrete, Bool-cases,
  eq→==,
}
use mathlib.Core.List.{append-nil}
use os_labratory_spring.Device.{Block, block_sector_size}
use os_labratory_spring.Cache.{Cache}
use os_labratory_spring.Cache.View.{view}
use os_labratory_spring.Cache.Valid.{IsValid, HasRoom}
use os_labratory_spring.Inode.{Inode}
use os_labratory_spring.Inode.Data.{copy_out, read_at}
use os_labratory_spring.Inode.Layout.{Layout, content}
use os_labratory_spring.Inode.Read.{read_at-Read}
use os_labratory_spring.Text.{Text}
use os_labratory_spring.Dir.{Scan, scan, lookup, named, overlay, entry_size, rounds}

-- The bytes of slot `i` in a file whose bytes are `f`.
abbrev pub slot_at : Block → ℕ → List ℕ
slot_at f i = copy_out f (entry_size * i) entry_size

pub length-copy_out : (f : Block) (a n : ℕ) → length (copy_out f a n) ≡ n
unfolding copy_out
length-copy_out f a zero = refl
length-copy_out f a (suc n) = ap suc (length-copy_out f (a + 1) n)

-- A directory of `n` slots that can be read, and whose bytes are `f`.
pub record Readable (inode : Inode) (n : ℕ) (sec : ℕ → ℕ) (f : Block) (st : Cache) : Type 0 where
  pub valid : IsValid st
  pub room : HasRoom st
  pub layout : Layout inode inode.read_length st sec
  pub whole : inode.read_length ≡ entry_size * n
  pub bytes : content st sec ≡ f

pub content-kept :
    (st st' : Cache) (sec : ℕ → ℕ)
    → ((t : ℕ) → view st' t ≡ view st t)
    → content st' sec ≡ content st sec
content-kept st st' sec h =
    fun_ext
      λ pos. ap (λ (b : Block). b (pos % block_sector_size)) (h (sec (pos / block_sector_size)))

-- One read of the loop: a slot, or nothing at the end.
pub read-slot :
    {inode : Inode} {n : ℕ} {sec : ℕ → ℕ} {f : Block} {st : Cache} (k ofs : ℕ)
    → Readable inode n sec f st
    → ofs ≡ entry_size * k
    → k < n
    → (st' : Cache) × (read_at true inode entry_size ofs st ≡ ok (slot_at f k, st'))
      × Readable inode n sec f st'
      × ((t : ℕ) → view st' t ≡ view st t)
read-slot {inode} {n} {sec} {f} {st} k ofs r ho lt =
    let (st', run, rd) = read_at-Read inode entry_size ofs st sec r.valid r.room r.layout in
    let all : min entry_size (inode.read_length - ofs) ≡ entry_size = omega (arith, r.whole) in
    (
      st',
      run
          ∙ ap (λ (m : ℕ). ok (copy_out (content st sec) ofs m, st')) all
          ∙ ap (λ (o : ℕ). ok (copy_out (content st sec) o entry_size, st')) ho
          ∙ ap (λ (g : Block). ok (slot_at g k, st')) r.bytes,
      record {
        valid = rd.valid;
        room = rd.room;
        layout = rd.layout;
        whole = r.whole;
        bytes = content-kept st st' sec rd.kept ∙ r.bytes;
      },
      rd.kept,
    )

read_at-past :
    (inode : Inode) (offset : ℕ) (st : Cache)
    → inode.read_length ≤ offset
    → read_at true inode entry_size offset st ≡ ok ([], st)
unfolding read_at
read_at-past inode offset st h = let e : leb inode.read_length offset ≡ true = ground arith in rw e

read-end :
    {inode : Inode} {n : ℕ} {sec : ℕ → ℕ} {f : Block} {st : Cache}
    → Readable inode n sec f st
    → read_at true inode entry_size (entry_size * n) st ≡ ok ([], st)
read-end {inode} {n} {st = st} r = read_at-past inode (entry_size * n) st (omega (arith, r.whole))

drop-all : (n : ℕ) (xs : List ℕ) → length xs ≤ n → drop n xs ≡ []
drop-all zero [] h = refl
drop-all zero (x ∷ xs) h = absurd (omega arith)
drop-all (suc n) [] h = refl
drop-all (suc n) (x ∷ xs) h = drop-all n xs (omega arith)

-- Where a scan from slot `k` on stops: at the first slot that is accepted, or behind the last.
pub record Stops (stop : List ℕ → Bool) (n : ℕ) (f : Block) (k : ℕ) (s : Scan) : Type 0 where
  pub at : ℕ
  pub after : k ≤ at
  pub ofs : s.ofs ≡ entry_size * at
  pub least : (j : ℕ) → k ≤ j → j < at → stop (slot_at f j) ≡ false
  pub answer :
      ((s.found ≡ true) × (at < n) × (s.e ≡ slot_at f at) × (stop (slot_at f at) ≡ true))
      ⊎ ((s.found ≡ false) × (at ≡ n))

Stops-suc :
    {stop : List ℕ → Bool} {n : ℕ} {f : Block} {k : ℕ} {s : Scan}
    → stop (slot_at f k) ≡ false
    → Stops stop n f (k + 1) s
    → Stops stop n f k s
Stops-suc {k = k} refused h = record {
  at = h.at;
  after = omega (arith, h.after);
  ofs = h.ofs;
  least =
      λ j p q. elim (ℕ_discrete j k) [ yes e ↦ rw e refused | no ne ↦ h.least j (omega arith) q ];
  answer = h.answer;
}

overlay-full : (b e : List ℕ) → length b ≡ length e → overlay b e ≡ b
overlay-full b e h = rw (drop-all (length b) e (omega (arith, h)), append-nil)

-- The rounds of `scan`, by what the read gives.
scan-stop :
    (inode : Inode) (stop : List ℕ → Bool) (fuel : ℕ) (e : List ℕ) (ofs : ℕ) (st st' : Cache)
    (b : List ℕ)
    → length e ≡ entry_size
    → length b ≡ entry_size
    → read_at true inode entry_size ofs st ≡ ok (b, st')
    → stop b ≡ true
    → scan true inode stop (suc fuel) e ofs st
      ≡ ok (record { found = true; e = b; ofs = ofs; disk = st' })
unfolding scan
scan-stop inode stop fuel e ofs st st' b he hb run accepted =
    rw (run, eq→== (length b) entry_size hb, overlay-full b e (hb ∙ sym he), accepted)

scan-on :
    (inode : Inode) (stop : List ℕ → Bool) (fuel : ℕ) (e : List ℕ) (ofs : ℕ) (st st' : Cache)
    (b : List ℕ)
    → length e ≡ entry_size
    → length b ≡ entry_size
    → read_at true inode entry_size ofs st ≡ ok (b, st')
    → stop b ≡ false
    → scan true inode stop (suc fuel) e ofs st ≡ scan true inode stop fuel b (ofs + entry_size) st'
unfolding scan
scan-on inode stop fuel e ofs st st' b he hb run refused =
    rw (run, eq→== (length b) entry_size hb, overlay-full b e (hb ∙ sym he), refused)

scan-short :
    (inode : Inode) (stop : List ℕ → Bool) (fuel : ℕ) (e : List ℕ) (ofs : ℕ) (st : Cache)
    → read_at true inode entry_size ofs st ≡ ok ([], st)
    → scan true inode stop (suc fuel) e ofs st
      ≡ ok (record { found = false; e = e; ofs = ofs; disk = st })
unfolding scan
scan-short inode stop fuel e ofs st run = rw run refl

-- A scan from slot `k` on, with more rounds than slots, stops where it should, and no sector looks
-- different.
pub scan-Stops :
    {inode : Inode} {n : ℕ} {sec : ℕ → ℕ} {f : Block} (stop : List ℕ → Bool) (fuel k : ℕ)
    (e : List ℕ) (ofs : ℕ) (st : Cache)
    → Readable inode n sec f st
    → length e ≡ entry_size
    → ofs ≡ entry_size * k
    → k ≤ n
    → n < k + fuel
    → (s : Scan) × (scan true inode stop fuel e ofs st ≡ ok s)
      × Stops stop n f k s
      × (length s.e ≡ entry_size)
      × Readable inode n sec f s.disk
      × ((t : ℕ) → view s.disk t ≡ view st t)
scan-Stops stop zero k e ofs st r he ho le lt = absurd (omega arith)
scan-Stops {inode} {n} {sec} {f} stop (suc fuel) k e ofs st r he ho le lt = elim (ℕ_discrete k n) [
  | yes last ↦
      let end : ofs ≡ entry_size * n = omega arith in
      (
        record { found = false; e = e; ofs = ofs; disk = st },
        scan-short inode stop fuel e ofs st (rw end (read-end r)),
        record {
          at = n;
          after = omega arith;
          ofs = end;
          least = λ j p q. absurd (omega arith);
          answer = inr (refl, refl);
        },
        he,
        r,
        λ t. refl,
      )
  | no more ↦
      let (st', here, r', kept) = read-slot k ofs r ho (omega arith) in
      let hb = length-copy_out f (entry_size * k) entry_size in
      elim (Bool-cases (stop (slot_at f k))) [
        | inl accepted ↦ (
          record { found = true; e = slot_at f k; ofs = ofs; disk = st' },
          scan-stop inode stop fuel e ofs st st' (slot_at f k) he hb here accepted,
          record {
            at = k;
            after = omega arith;
            ofs = ho;
            least = λ j p q. absurd (omega arith);
            answer = inl (refl, omega arith, refl, accepted);
          },
          hb,
          r',
          kept,
        )
        | inr refused ↦
            let (s, rest, h, size, r'', kept') =
              scan-Stops stop fuel (k + 1) (slot_at f k) (ofs + entry_size) st' r' hb (omega arith)
                (omega arith) (omega arith) in
            (
              s,
              scan-on inode stop fuel e ofs st st' (slot_at f k) he hb here refused ∙ rest,
              Stops-suc refused h,
              size,
              r'',
              λ t. kept' t ∙ kept t,
            )
      ]
]

-- A readable directory of `n` slots, with a cache that has room and where `malloc` finds room:
-- `lookup` neither panics nor loops for ever, finds the first slot in use with that name, or tells
-- that there is none, and no sector looks different.
pub lookup-Stops :
    {inode : Inode} {n : ℕ} {sec : ℕ → ℕ} {f : Block} (name : Text) (e0 : List ℕ) (st : Cache)
    → Readable inode n sec f st
    → length e0 ≡ entry_size
    → (s : Scan) × (lookup true inode name e0 st ≡ ok s)
      × Stops (named name) n f 0 s
      × (length s.e ≡ entry_size)
      × Readable inode n sec f s.disk
      × ((t : ℕ) → view s.disk t ≡ view st t)
unfolding lookup
lookup-Stops {inode} name e0 st r he =
    scan-Stops (named name) (rounds inode) 0 e0 0 st r he (omega arith) (omega arith)
      (omega (arith, r.whole))
