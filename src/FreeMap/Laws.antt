-- ===== src/FreeMap/Laws.antt =====
-- What allocation and release do to the map, and that release undoes allocation.
use os_labratory_spring.Prelude.{
  ℕ, subst, ◌+◌, ◌≤◌, ◌≡◌, refl, ◌∙◌, sym, ◌⊎◌, inl, inr, Bool, true, false, not, length, Result,
  ok, panic, arith, some, Bool-cases, dec_lt, eq_of_get_or,
}
use os_labratory_spring.Bitmap.{Bitmap, bit}
use os_labratory_spring.Bitmap.Loops.{Group, Assigned, set_multiple-Assigned}
use os_labratory_spring.Bitmap.Scan.{First, NoGroup, scan_and_flip-cases, all-cases, Hit}
use os_labratory_spring.FreeMap.{
  FreeMap, Allocation, keep_allocated, allocate_found, allocate, release,
}

-- Two assignments of one group undo one another where the group had the second value.
Assigned-undo :
    {b b' b'' : Bitmap} {start cnt : ℕ} {value : Bool}
    → Group b start cnt value
    → Assigned b start cnt (not value) b'
    → Assigned b' start cnt value b''
    → b'' ≡ b
Assigned-undo {b} {b'} {b''} {start} {cnt} g p q = eq_of_get_or b'' b false (q.size ∙ p.size) λ i h.
    elim (dec_lt i start) [
      | yes l ↦ q.below i l ∙ p.below i l
      | no nl ↦ elim (dec_lt i (start + cnt)) [
        | yes l ↦ q.inside i (omega arith) l ∙ sym (g i (omega arith) l)
        | no nl' ↦ q.above i (omega arith) ∙ p.above i (omega arith)
      ]
    ]

-- On every good state of the disk the write of a map of `n` bits returns, and leaves a good state.
pub record Saves {S : Type 0} (bitmap_write : Bitmap → S → Result (Bool × S)) (Good : S → Type 0)
    (n : ℕ) : Type 0 where
  pub returns :
      (b : Bitmap) (s : S)
      → length b ≡ n
      → Good s
      → (w : Bool) × (s' : S) × (bitmap_write b s ≡ ok (w, s')) × Good s'

module _ {S : Type 0} (bitmap_write : Bitmap → S → Result (Bool × S)) where
  -- `free_map_allocate` took the first free group, and saved the new map if the file is open.
  pub record Taken (fm : FreeMap S) (cnt : ℕ) (a : Allocation S) : Type 0 where
    pub success : a.success ≡ true
    pub first : First fm.bits 0 cnt false a.sector
    pub marked : Assigned fm.bits a.sector cnt true a.map.bits
    pub file : a.map.open_file ≡ fm.open_file
    pub saved : fm.open_file ≡ true → bitmap_write a.map.bits fm.disk ≡ ok (true, a.map.disk)
    pub unsaved : fm.open_file ≡ false → a.map.disk ≡ fm.disk

  -- `free_map_allocate` took nothing: there is no free group, or the map was not written whole.
  pub record Refused (fm : FreeMap S) (cnt old : ℕ) (a : Allocation S) : Type 0 where
    pub failure : a.success ≡ false
    pub kept : a.map.bits ≡ fm.bits
    pub file : a.map.open_file ≡ fm.open_file
    pub sector : a.sector ≡ old
    pub reason :
        (NoGroup fm.bits 0 cnt false × (a.map.disk ≡ fm.disk))
        ⊎ ((bits : Bitmap) × (length bits ≡ length fm.bits)
            × (fm.open_file ≡ true)
            × (bitmap_write bits fm.disk ≡ ok (false, a.map.disk)))

  module _ {Good : S → Type 0} {n : ℕ} (saves : Saves bitmap_write Good n) where
    found-cases :
        (fm : FreeMap S) (cnt old i : ℕ) (b : Bitmap)
        → length fm.bits ≡ n
        → Good fm.disk
        → First fm.bits 0 cnt false i
        → Assigned fm.bits i cnt true b
        → (a : Allocation S) × (allocate_found bitmap_write fm cnt old (some i, b) ≡ ok a)
          × Good a.map.disk
          × (Taken fm cnt a ⊎ Refused fm cnt old a)
    unfolding allocate_found keep_allocated
    found-cases fm cnt old i b size good first marked = elim (Bool-cases fm.open_file) [
      | inr closed ↦ (
        record { map = record fm { bits = b }; sector = i; success = true },
        ground arith,
        good,
        inl (record {
          success = refl;
          first = first;
          marked = marked;
          file = refl;
          saved = λ e. absurd (cc);
          unsaved = λ _. refl;
        }),
      )
      | inl opened ↦
          let (w, s, run, good') = saves.returns b fm.disk (marked.size ∙ size) good in
          elim (Bool-cases w) [
            | inl whole ↦ (
              record { map = record fm { bits = b; disk = s }; sector = i; success = true },
              ground arith,
              good',
              inl (record {
                success = refl;
                first = first;
                marked = marked;
                file = refl;
                saved = λ _. ground arith;
                unsaved = λ e. absurd (cc);
              }),
            )
            | inr short ↦
                let (b', back, undo) =
                  set_multiple-Assigned b i cnt false (omega (arith, first.fits, marked.size)) in
                (
                  record { map = record fm { bits = b'; disk = s }; sector = old; success = false },
                  ground arith,
                  good',
                  inr (record {
                    failure = refl;
                    kept = Assigned-undo first.group marked undo;
                    file = refl;
                    sector = refl;
                    reason = inr (b, marked.size, opened, ground arith);
                  }),
                )
          ]
    ]

    -- Where writes of the map file return, `free_map_allocate` does too.  Either it reports
    -- success, has marked the first group of `cnt` free sectors and no other, gives the first of
    -- them, and has saved the new map if the file is open; or it reports failure, leaves the map
    -- and `*sectorp` as they were, and there was no such group or the file took no complete copy.
    pub allocate-cases :
        (fm : FreeMap S) (cnt old : ℕ)
        → length fm.bits ≡ n
        → Good fm.disk
        → (a : Allocation S) × (allocate bitmap_write fm cnt old ≡ ok a)
          × Good a.map.disk
          × (Taken fm cnt a ⊎ Refused fm cnt old a)
    unfolding allocate allocate_found
    allocate-cases fm cnt old size good =
        elim (scan_and_flip-cases fm.bits 0 cnt false (omega arith)) [
          | inl (i, b, run, first, marked) ↦
              let (a, found, good', answer) = found-cases fm cnt old i b size good first marked in
              (a, ground (arith, found), good', answer)
          | inr (run, ng) ↦ (
            record { map = fm; sector = old; success = false },
            ground arith,
            good,
            inr (record {
              failure = refl;
              kept = refl;
              file = refl;
              sector = refl;
              reason = inl (ng, refl);
            }),
          )
        ]

    -- With the map file open, `free_map_release` of sectors in use does not panic: it frees the
    -- group and no other sector, and writes the map to the file.
    pub release-Assigned :
        (fm : FreeMap S) (sector cnt : ℕ)
        → length fm.bits ≡ n
        → Good fm.disk
        → fm.open_file ≡ true
        → sector + cnt ≤ length fm.bits
        → Group fm.bits sector cnt true
        → (fm' : FreeMap S) × (w : Bool) × (release bitmap_write fm sector cnt ≡ ok fm')
          × Assigned fm.bits sector cnt false fm'.bits
          × (fm'.open_file ≡ fm.open_file)
          × (bitmap_write fm'.bits fm.disk ≡ ok (w, fm'.disk))
          × Good fm'.disk
    unfolding release
    release-Assigned fm sector cnt size good opened h g =
        let (b', run, a) = set_multiple-Assigned fm.bits sector cnt false h in
        let (w, s, written, good') = saves.returns b' fm.disk (a.size ∙ size) good in
        elim (all-cases fm.bits sector cnt h) [
          | inl (all, _) ↦
              (record fm { bits = b'; disk = s }, w, ground arith, a, refl, written, good')
          | inr (_, (j, p, q, v)) ↦ absurd (let t : bit fm.bits j ≡ true = g j p q in cc)
        ]

    -- A reported success is one.
    pub Taken-of_success :
        (fm : FreeMap S) (cnt old : ℕ) {a : Allocation S}
        → length fm.bits ≡ n
        → Good fm.disk
        → allocate bitmap_write fm cnt old ≡ ok a
        → a.success ≡ true
        → Taken fm cnt a × Good a.map.disk
    Taken-of_success fm cnt old {a} size good run done =
        let (b, run', good', answer) = allocate-cases fm cnt old size good in
        let e : b ≡ a = cc in
        elim answer [
          | inl t ↦
              (subst (Taken fm cnt) e t, subst (λ (x : Allocation S). Good x.map.disk) e good')
          | inr r ↦ absurd (let refused : b.success ≡ false = r.failure in cc)
        ]

    -- With the map file open, sectors that `free_map_allocate` has given can be released, and the
    -- map is then the one before the allocation.
    pub release-allocate :
        (fm : FreeMap S) (cnt old : ℕ) {a : Allocation S}
        → length fm.bits ≡ n
        → Good fm.disk
        → fm.open_file ≡ true
        → allocate bitmap_write fm cnt old ≡ ok a
        → a.success ≡ true
        → (fm' : FreeMap S) × (release bitmap_write a.map a.sector cnt ≡ ok fm')
          × (fm'.bits ≡ fm.bits)
    release-allocate fm cnt old {a} size good opened run done =
        let (t, good') = Taken-of_success fm cnt old size good run done in
        let (fm', w, run', undo, _, _, _) =
          release-Assigned a.map a.sector cnt (t.marked.size ∙ size) good' (t.file ∙ opened)
            (omega (arith, t.first.fits, t.marked.size)) t.marked.inside in
        (fm', run', Assigned-undo t.first.group t.marked undo)

  -- A group within the map with a free sector makes `free_map_release` panic.
  pub release-free :
      (fm : FreeMap S) (sector cnt : ℕ)
      → sector + cnt ≤ length fm.bits
      → Hit fm.bits sector cnt false
      → release bitmap_write fm sector cnt ≡ panic
  unfolding release
  release-free fm sector cnt h (j, p, q, v) = elim (all-cases fm.bits sector cnt h) [
    | inl (all, g) ↦ absurd (let t : bit fm.bits j ≡ true = g j p q in cc)
    | inr (all, _) ↦ ground arith
  ]
