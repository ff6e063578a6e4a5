-- ===== src/Dir/Names.antt =====
-- The names of a directory, and what `lookup` finds after a slot is written.
use os_labratory_spring.Prelude.{
  ℕ, ◌^◌, ◌<◌, ◌≡◌, ◌≢◌, refl, ap, sym, ◌∙◌, inl, inr, Bool, true, false, ◌&&◌, List, length,
  Result, ok, arith, Bool-cases, ℕ_discrete,
}
use os_labratory_spring.Bitmap.{Bitmap}
use os_labratory_spring.Device.{Block}
use os_labratory_spring.Cache.{Cache}
use os_labratory_spring.Inode.{Inode}
use os_labratory_spring.Text.{Text, same_text}
use os_labratory_spring.Text.Compare.{same_text_refl, eq_of_same_text}
use os_labratory_spring.Fs.{Fs, deref}
use os_labratory_spring.Dir.{
  Dir, Scan, in_use, inode_sector, entry_name, named, lookup, write_slot, entry_size,
}
use os_labratory_spring.Dir.Slots.{IsName}
use os_labratory_spring.Dir.Search.{Readable, slot_at, lookup-Stops}
use os_labratory_spring.Dir.Place.{Writable}
use os_labratory_spring.Dir.Add.{Entered, write_slot-Entered}

-- No slot in use has the name: `lookup` in `dir_add` has found none.
abbrev pub Absent : Text → ℕ → Block → Type 0
Absent name n f = (j : ℕ) → j < n → named name (slot_at f j) ≡ false

-- The names of the slots in use are distinct.
abbrev pub Unique : ℕ → Block → Type 0
Unique n f =
    (i j : ℕ)
    → i < n
    → j < n
    → in_use (slot_at f i) ≡ true
    → in_use (slot_at f j) ≡ true
    → entry_name (slot_at f i) ≡ entry_name (slot_at f j)
    → i ≡ j

pub named-used :
    (e : List ℕ) (name : Text) → in_use e ≡ true → entry_name e ≡ name → named name e ≡ true
unfolding named
named-used e name used called = rw (used, called, same_text_refl name) refl

pub named-free : (e : List ℕ) (name : Text) → in_use e ≡ false → named name e ≡ false
unfolding named
named-free e name free = rw free refl

named-other :
    (e : List ℕ) (name other : Text) → entry_name e ≡ name → other ≢ name → named other e ≡ false
unfolding named
named-other e name other called ne = elim (Bool-cases (named other e)) [
  | inr refused ↦ refused
  | inl accepted ↦ absurd (
      ne (
        eq_of_same_text other (entry_name e)
          (second (in_use e) (same_text other (entry_name e)) accepted)
        ∙ called))
]
  where
    second : (a b : Bool) → (a && b) ≡ true → b ≡ true
    second true b h = h
    second false b h = absurd cc

Entered-Unique :
    {n : ℕ} {f f' : Block} {name : Text} {sector : ℕ}
    → Entered n f f' name sector
    → Absent name n f
    → Unique n f
    → Unique n f'
Entered-Unique {n} {f} {f'} {name} en absent unique i j il jl iu ju same =
    elim (ℕ_discrete i en.at) [
      | yes ie ↦ elim (ℕ_discrete j en.at) [
        | yes je ↦ ie ∙ sym je
        | no jn ↦ absurd (
            clash j jl jn ju
              (sym same ∙ ap (λ (k : ℕ). entry_name (slot_at f' k)) ie ∙ en.holds.called))
      ]
      | no in' ↦ elim (ℕ_discrete j en.at) [
        | yes je ↦ absurd (
            clash i il in' iu
              (same ∙ ap (λ (k : ℕ). entry_name (slot_at f' k)) je ∙ en.holds.called))
        | no jn ↦
            let oi = en.others i il in' in
            let oj = en.others j jl jn in
            unique i j il jl (sym (ap in_use oi) ∙ iu) (sym (ap in_use oj) ∙ ju)
              (sym (ap entry_name oi) ∙ same ∙ ap entry_name oj)
      ]
    ]
  where
    clash :
        (k : ℕ)
        → k < n
        → k ≢ en.at
        → in_use (slot_at f' k) ≡ true
        → entry_name (slot_at f' k) ≡ name
        → ⊥
    clash k kl ne used called =
        let o = en.others k kl ne in
        let yes_named =
          named-used (slot_at f k) name (sym (ap in_use o) ∙ used)
            (sym (ap entry_name o) ∙ called) in
        let not_named = absent k kl in cc

-- A name that is entered is found, and no other slot is taken for it.
Entered-found :
    {inode : Inode} {n : ℕ} {sec : ℕ → ℕ} {f f' : Block} {name : Text} {sector : ℕ} {st : Cache}
    (e : List ℕ)
    → Entered n f f' name sector
    → Absent name n f
    → Readable inode n sec f' st
    → length e ≡ entry_size
    → (s : Scan) × (lookup true inode name e st ≡ ok s)
      × (s.found ≡ true)
      × (inode_sector s.e ≡ sector)
Entered-found {n = n} {f = f} {f' = f'} {name = name} {st = st} e en absent r he =
    let (s, run, stops, _, _, _) = lookup-Stops name e st r he in
    let here = named-used (slot_at f' en.at) name en.holds.used en.holds.called in
    elim stops.answer [
      | inl (found, inside, same_entry, accepted) ↦ elim (ℕ_discrete stops.at en.at) [
        | yes at ↦
            (s, run, found, ap inode_sector (same_entry ∙ ap (slot_at f') at) ∙ en.holds.refers)
        | no ne ↦
            let before : named name (slot_at f stops.at) ≡ true =
              sym (ap (named name) (en.others stops.at inside ne)) ∙ accepted in
            let refused = absent stops.at inside in absurd cc
      ]
      | inr (missed, end) ↦
          let refused = stops.least en.at (omega arith) (omega (arith, end, en.inside)) in absurd cc
    ]

Entered-other :
    {n : ℕ} {f f' : Block} {name : Text} {sector : ℕ} (other : Text)
    → Entered n f f' name sector
    → other ≢ name
    → (j : ℕ) → j < n
    → named other (slot_at f' j) ≡ named other (slot_at f j)
Entered-other {f = f} {f'} {name} other en ne j jl = elim (ℕ_discrete j en.at) [
  | yes e ↦
      ap (λ (k : ℕ). named other (slot_at f' k)) e
      ∙ named-other (slot_at f' en.at) name other en.holds.called ne
      ∙ sym (named-free (slot_at f en.at) other en.free)
      ∙ sym (ap (λ (k : ℕ). named other (slot_at f k)) e)
  | no away ↦ ap (named other) (en.others j jl away)
]

-- A name can be entered into an open directory of `n` slots: it can be written, the name is one and
-- is absent, the sector is a word, and a slot is free.
pub record CanEnter (fs : Fs) (dir : Dir) (inode : Inode) (n : ℕ) (sec : ℕ → ℕ) (f : Block)
    (name : Text) (sector : ℕ) : Type 0 where
  pub opened : deref fs dir.inode ≡ ok inode
  pub same : inode.sector ≡ dir.inode
  pub writable : Writable inode n sec f fs.store.disk
  pub is_name : IsName name
  pub word : sector < 2 ^ 32
  pub free : ℕ
  pub inside : free < n
  pub unused : in_use (slot_at f free) ≡ false
  pub absent : Absent name n f

module _ (bitmap_write : Bitmap → Cache → Result (Bool × Cache)) (uninit : ℕ → ℕ) where
  -- Where a name can be entered, the part of `dir_add` that writes the slot succeeds; `lookup` of
  -- the name then finds the sector, and every other name is in the slots where it was before.
  pub lookup-write_slot :
      (fs : Fs) (dir : Dir) {inode : Inode} {n : ℕ} {sec : ℕ → ℕ} {f : Block} (name : Text)
      (sector : ℕ) (e0 : List ℕ)
      → CanEnter fs dir inode n sec f name sector
      → length e0 ≡ entry_size
      → (fs' : Fs) × (inode' : Inode) × (f' : Block) × (write_slot bitmap_write uninit true fs dir
            name sector e0
          ≡ ok (true, fs'))
        × (deref fs' dir.inode ≡ ok inode')
        × Writable inode' n sec f' fs'.store.disk
        × ((s : Scan) × (lookup true inode' name e0 fs'.store.disk ≡ ok s)
            × (s.found ≡ true)
            × (inode_sector s.e ≡ sector))
        × ((other : Text)
            → other ≢ name
            → (j : ℕ) → j < n
            → named other (slot_at f' j) ≡ named other (slot_at f j))
  lookup-write_slot fs dir name sector e0 c he =
      let (fs', inode', f', run, at, wr, en) =
        write_slot-Entered bitmap_write uninit fs dir name sector e0 c.free c.opened c.same
          c.writable c.is_name c.word he c.inside c.unused in
      (
        fs',
        inode',
        f',
        run,
        at,
        wr,
        Entered-found e0 en c.absent wr.readable he,
        λ other ne. Entered-other other en ne,
      )

  -- Where a name can be entered and the names in use are distinct, they are distinct after the part
  -- of `dir_add` that writes the slot.
  pub write_slot-Unique :
      (fs : Fs) (dir : Dir) {inode : Inode} {n : ℕ} {sec : ℕ → ℕ} {f : Block} (name : Text)
      (sector : ℕ) (e0 : List ℕ)
      → CanEnter fs dir inode n sec f name sector
      → length e0 ≡ entry_size
      → Unique n f
      → (fs' : Fs) × (inode' : Inode) × (f' : Block) × (write_slot bitmap_write uninit true fs dir
            name sector e0
          ≡ ok (true, fs'))
        × (deref fs' dir.inode ≡ ok inode')
        × Writable inode' n sec f' fs'.store.disk
        × Unique n f'
  write_slot-Unique fs dir name sector e0 c he unique =
      let (fs', inode', f', run, at, wr, en) =
        write_slot-Entered bitmap_write uninit fs dir name sector e0 c.free c.opened c.same
          c.writable c.is_name c.word he c.inside c.unused in
      (fs', inode', f', run, at, wr, Entered-Unique en c.absent unique)
