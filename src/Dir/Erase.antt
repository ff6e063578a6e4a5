-- ===== src/Dir/Erase.antt =====
-- The part of `dir_remove` that erases the entry of a file.
use os_labratory_spring.Prelude.{
  ℕ, ◌*◌, ◌<◌, ◌≡◌, ◌≢◌, refl, ap, sym, subst, ◌∙◌, inl, inr, Bool, some, true, false, ◌&&◌, List,
  length, Result, ok, arith, eq→==, Bool-cases, ℕ_discrete, get_or-set_self, length-set,
}
use os_labratory_spring.Bitmap.{Bitmap}
use os_labratory_spring.Device.{Block}
use os_labratory_spring.Cache.{Cache}
use os_labratory_spring.Inode.{Inode}
use os_labratory_spring.Inode.WriteAt.{write_at}
use os_labratory_spring.Text.{Text, same_text}
use os_labratory_spring.Text.Compare.{eq_of_same_text}
use os_labratory_spring.Fs.{Fs, find_inode, put_inode, deref, or_fault, fs_write, fs_remove}
use os_labratory_spring.Fs.Pointers.{
  find_inode-sector, find_inode-put_inode, find_inode-put_inode_ne, removed_of, fs_remove-removed,
}
use os_labratory_spring.Dir.{Dir, Scan, in_use, entry_name, named, clear_entry, erase, entry_size}
use os_labratory_spring.Dir.Search.{slot_at, length-copy_out}
use os_labratory_spring.Dir.Place.{Writable, Placed, write_at-Placed}
use os_labratory_spring.Dir.Add.{fs_write-run, deref-put_inode}
use os_labratory_spring.Dir.Names.{Unique, Absent, named-free}

pub named-cases :
    (name : Text) (e : List ℕ) → named name e ≡ true → (in_use e ≡ true) × (entry_name e ≡ name)
unfolding named
named-cases name e h = elim (Bool-cases (in_use e)) [
  | inr free ↦
      let refused : (in_use e && same_text name (entry_name e)) ≡ false = rw free refl in absurd cc
  | inl used ↦
      let called : (in_use e && same_text name (entry_name e)) ≡ same_text name (entry_name e) =
        rw used refl in
      (used, sym (eq_of_same_text name (entry_name e) (sym called ∙ h)))
]

cleared_free : (e : List ℕ) → length e ≡ entry_size → in_use (clear_entry e) ≡ false
unfolding in_use
cleared_free e h = rw (get_or-set_self e 19 0 0 (omega (arith, h))) refl

-- The slots after the entry of a name is erased.
pub record Erased (n : ℕ) (f f' : Block) (name : Text) : Type 0 where
  pub at : ℕ
  pub inside : at < n
  pub was : named name (slot_at f at) ≡ true
  pub free : in_use (slot_at f' at) ≡ false
  pub others : (j : ℕ) → j < n → j ≢ at → slot_at f' j ≡ slot_at f j

pub Placed-Erased :
    {n : ℕ} {f f' : Block} {at : ℕ} (name : Text)
    → at < n
    → named name (slot_at f at) ≡ true
    → Placed n f f' at (clear_entry (slot_at f at))
    → Erased n f f' name
Placed-Erased {f = f} {at = at} name lt was placed = record {
  at = at;
  inside = lt;
  was = was;
  free =
      ap in_use placed.here
      ∙ cleared_free (slot_at f at) (length-copy_out f (entry_size * at) entry_size);
  others = placed.others;
}

-- With distinct names no slot has the name any more.
pub Erased-Absent :
    {n : ℕ} {f f' : Block} {name : Text} → Erased n f f' name → Unique n f → Absent name n f'
Erased-Absent {n} {f} {f'} {name} er unique j jl = elim (ℕ_discrete j er.at) [
  | yes e ↦ ap (λ (k : ℕ). named name (slot_at f' k)) e ∙ named-free (slot_at f' er.at) name er.free
  | no ne ↦ elim (Bool-cases (named name (slot_at f j))) [
    | inr refused ↦ ap (named name) (er.others j jl ne) ∙ refused
    | inl accepted ↦
        let (used, called) = named-cases name (slot_at f j) accepted in
        let (used', called') = named-cases name (slot_at f er.at) er.was in
        absurd (ne (unique j er.at jl er.inside used used' (called ∙ sym called')))
  ]
]

-- Any other name is in the slots where it was.
pub Erased-other :
    {n : ℕ} {f f' : Block} {name : Text} (other : Text)
    → Erased n f f' name
    → other ≢ name
    → (j : ℕ) → j < n
    → named other (slot_at f' j) ≡ named other (slot_at f j)
Erased-other {f = f} {f'} {name} other er ne j jl = elim (ℕ_discrete j er.at) [
  | no away ↦ ap (named other) (er.others j jl away)
  | yes e ↦ elim (Bool-cases (named other (slot_at f er.at))) [
    | inr refused ↦
        ap (λ (k : ℕ). named other (slot_at f' k)) e
        ∙ named-free (slot_at f' er.at) other er.free
        ∙ sym refused
        ∙ sym (ap (λ (k : ℕ). named other (slot_at f k)) e)
    | inl accepted ↦
        let (used, called) = named-cases other (slot_at f er.at) accepted in
        let (used', called') = named-cases name (slot_at f er.at) er.was in
        absurd (ne (sym called ∙ called'))
  ]
]

pub Erased-Unique :
    {n : ℕ} {f f' : Block} {name : Text} → Erased n f f' name → Unique n f → Unique n f'
Erased-Unique {n} {f} {f'} er unique i j il jl iu ju same_name =
    let oi = er.others i il (still_used i iu) in
    let oj = er.others j jl (still_used j ju) in
    unique i j il jl (sym (ap in_use oi) ∙ iu) (sym (ap in_use oj) ∙ ju)
      (sym (ap entry_name oi) ∙ same_name ∙ ap entry_name oj)
  where
    still_used : (k : ℕ) → in_use (slot_at f' k) ≡ true → k ≢ er.at
    still_used k used e =
        let free : in_use (slot_at f' k) ≡ false =
          ap (λ (m : ℕ). in_use (slot_at f' m)) e ∙ er.free in
        absurd cc

module _ (bitmap_write : Bitmap → Cache → Result (Bool × Cache)) (uninit : ℕ → ℕ) where
  -- The entry of a file is erased: the write succeeds, and the file is marked.
  erase-run :
      (fs fs2 fs3 : Fs) (dir : Dir) (s : Scan) (sector m : ℕ) (e0 : List ℕ) (child : Inode)
      → deref fs sector ≡ ok child
      → child.isdir ≡ false
      → fs_write bitmap_write uninit true fs dir.inode (clear_entry s.e) entry_size s.ofs
        ≡ ok (m, fs2)
      → m ≡ entry_size
      → fs_remove fs2 sector ≡ ok fs3
      → erase bitmap_write uninit true fs dir s sector e0 ≡ ok (true, fs3)
  unfolding erase
  erase-run fs fs2 fs3 dir s sector m e0 child at file run all marked =
      rw (at, file, run, eq→== m entry_size all, marked) refl

  -- The entry that `lookup` has found is erased, and the file is marked as removed.
  pub erase-Erased :
      (fs : Fs) (dir : Dir) {inode : Inode} {n : ℕ} {sec : ℕ → ℕ} {f : Block} (name : Text)
      (s : Scan) (k sector : ℕ) (e0 : List ℕ) (child : Inode)
      → deref fs dir.inode ≡ ok inode
      → inode.sector ≡ dir.inode
      → Writable inode n sec f fs.store.disk
      → k < n
      → s.ofs ≡ entry_size * k
      → s.e ≡ slot_at f k
      → named name (slot_at f k) ≡ true
      → find_inode fs.inodes sector ≡ some child
      → child.isdir ≡ false
      → sector ≢ dir.inode
      → (fs' : Fs) × (inode' : Inode) × (f' : Block) × (erase bitmap_write uninit true fs dir s
            sector e0
          ≡ ok (true, fs'))
        × (deref fs' dir.inode ≡ ok inode')
        × Writable inode' n sec f' fs'.store.disk
        × Erased n f f' name
        × (find_inode fs'.inodes sector ≡ some (removed_of child))
  unfolding deref
  erase-Erased fs dir {inode} {n} {sec} {f} name s k sector e0 child at same wr kl ofs here was
        open_child file apart =
      let size : length (clear_entry s.e) ≡ entry_size =
        length-set s.e 19 0
        ∙ ap (λ (e : List ℕ). length e) here
        ∙ length-copy_out f (entry_size * k) entry_size in
      let (w, f', run, all, same', wr', placed) =
        write_at-Placed bitmap_write uninit fs.store k (clear_entry s.e) wr kl size in
      let run' =
        subst
          (λ (o : ℕ).
            write_at bitmap_write uninit true fs.store inode (clear_entry s.e) entry_size o ≡ ok w)
          (sym ofs) run in
      let written =
        fs_write-run bitmap_write uninit fs dir.inode inode (clear_entry s.e) entry_size s.ofs w at
          run' in
      let fs2 : Fs = record { store = w.store; inodes = put_inode fs.inodes dir.inode w.inode } in
      let fs3 : Fs = record fs2 { inodes = put_inode fs2.inodes sector (removed_of child) } in
      let child_at : find_inode fs2.inodes sector ≡ some child =
        find_inode-put_inode_ne fs.inodes dir.inode sector w.inode (same' ∙ same)
          (λ e. apart (sym e))
        ∙ open_child in
      let child_sector = find_inode-sector fs.inodes sector child open_child in
      (
        fs3,
        w.inode,
        f',
        erase-run fs fs2 fs3 dir s sector w.bytes_written e0 child (ap or_fault open_child) file
            written all (fs_remove-removed fs2 sector child (ap or_fault child_at)),
        ap or_fault (
              find_inode-put_inode_ne fs2.inodes sector dir.inode (removed_of child) child_sector
                apart)
            ∙ deref-put_inode fs.inodes dir.inode inode w.inode at (same' ∙ same),
        wr',
        Placed-Erased name kl was
            (subst (λ (e : List ℕ). Placed n f f' k (clear_entry e)) here placed),
        find_inode-put_inode fs2.inodes sector child (removed_of child) child_at child_sector,
      )
