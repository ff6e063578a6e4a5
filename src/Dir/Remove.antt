-- ===== src/Dir/Remove.antt =====
-- `dir_remove` of a file that some thread has open.
use os_labratory_spring.Prelude.{
  ℕ, ◌+◌, ◌-◌, ◌*◌, ◌<◌, ◌≡◌, ◌≢◌, refl, ap, sym, ◌∙◌, inl, inr, Bool, true, false, List, length,
  Result, ok, arith, some,
}
use os_labratory_spring.Bitmap.{Bitmap}
use os_labratory_spring.Device.{Block}
use os_labratory_spring.Cache.{Cache}
use os_labratory_spring.Inode.{Inode}
use os_labratory_spring.Text.{Text}
use os_labratory_spring.Fs.{
  Fs, find_inode, put_inode, deref, or_fault, fs_open, fs_close, with_disk,
}
use os_labratory_spring.Fs.Pointers.{
  find_inode-sector, find_inode-put_inode, find_inode-put_inode_ne, removed_of, opened_more,
  fs_open-opened, fs_close-shared,
}
use os_labratory_spring.Dir.{Dir, Scan, inode_sector, named, lookup, erase, dir_remove, entry_size}
use os_labratory_spring.Dir.Search.{Readable, slot_at, lookup-Stops}
use os_labratory_spring.Dir.Place.{Writable}
use os_labratory_spring.Dir.Add.{Writable-after}
use os_labratory_spring.Dir.Names.{Unique, Absent}
use os_labratory_spring.Dir.Erase.{
  Erased-Absent, Erased-other, Erased-Unique, named-cases, erase-Erased,
}

-- The file `name` of sector `sector` can be removed from an open directory of `n` slots: the
-- directory can be written, its names are distinct and one of them is the name, and the inode of
-- the file, not a directory and not the directory itself, is open.
pub record CanRemove (fs : Fs) (dir : Dir) (inode : Inode) (n : ℕ) (sec : ℕ → ℕ) (f : Block)
    (name : Text) (sector : ℕ) (child : Inode) : Type 0 where
  pub opened : deref fs dir.inode ≡ ok inode
  pub same : inode.sector ≡ dir.inode
  pub writable : Writable inode n sec f fs.store.disk
  pub unique : Unique n f
  pub at : ℕ
  pub inside : at < n
  pub is_named : named name (slot_at f at) ≡ true
  pub refers : inode_sector (slot_at f at) ≡ sector
  pub child_open : find_inode fs.inodes sector ≡ some child
  pub held : 0 < child.open_cnt
  pub is_file : child.isdir ≡ false
  pub apart : sector ≢ dir.inode

-- With distinct names `lookup` finds the slot of the name.
lookup-CanRemove :
    {fs : Fs} {dir : Dir} {inode : Inode} {n : ℕ} {sec : ℕ → ℕ} {f : Block} {name : Text}
    {sector : ℕ} {child : Inode} (e0 : List ℕ)
    (c : CanRemove fs dir inode n sec f name sector child)
    → length e0 ≡ entry_size
    → (s : Scan) × (lookup true inode name e0 fs.store.disk ≡ ok s)
      × (s.found ≡ true)
      × (s.ofs ≡ entry_size * c.at)
      × (s.e ≡ slot_at f c.at)
      × Readable inode n sec f s.disk
lookup-CanRemove {fs} {dir} {inode} {n} {sec} {f} {name} e0 c he =
    let (s, run, stops, size, r, kept) =
      lookup-Stops name e0 fs.store.disk c.writable.readable he in
    elim stops.answer [
      | inr (missed, end) ↦
          let refused = stops.least c.at (omega arith) (omega (arith, end, c.inside)) in
          let accepted = c.is_named in absurd cc
      | inl (found, inside, same_entry, accepted) ↦
          let (used, called) = named-cases name (slot_at f stops.at) accepted in
          let (used', called') = named-cases name (slot_at f c.at) c.is_named in
          let there = c.unique stops.at c.at inside c.inside used used' (called ∙ sym called') in
          (
            s,
            run,
            found,
            stops.ofs ∙ ap (λ (k : ℕ). entry_size * k) there,
            same_entry ∙ ap (slot_at f) there,
            r,
          )
    ]

-- `lookup` finds no name that no slot has.
missing :
    {inode : Inode} {n : ℕ} {sec : ℕ → ℕ} {f : Block} {st : Cache} (name : Text) (e0 : List ℕ)
    → Readable inode n sec f st
    → Absent name n f
    → length e0 ≡ entry_size
    → (s : Scan) × (lookup true inode name e0 st ≡ ok s) × (s.found ≡ false)
missing {st = st} name e0 r absent he =
    let (s, run, stops, size, r', kept) = lookup-Stops name e0 st r he in
    elim stops.answer [
      | inr (missed, end) ↦ (s, run, missed)
      | inl (found, inside, same_entry, accepted) ↦
          let refused = absent stops.at inside in absurd cc
    ]

module _ (bitmap_write : Bitmap → Cache → Result (Bool × Cache)) (uninit : ℕ → ℕ) where
  -- The steps of `dir_remove` where all of them return.
  dir_remove-run :
      (fs fs2 fs3 fs4 : Fs) (dir : Dir) (inode : Inode) (s : Scan) (name : Text) (sector : ℕ)
      (e0 : List ℕ)
      → deref fs dir.inode ≡ ok inode
      → lookup true inode name e0 fs.store.disk ≡ ok s
      → s.found ≡ true
      → fs_open true (with_disk fs s.disk) (inode_sector s.e) ≡ ok (some sector, fs2)
      → erase bitmap_write uninit true fs2 dir s sector e0 ≡ ok (true, fs3)
      → fs_close bitmap_write uninit fs3 (some sector) ≡ ok fs4
      → dir_remove bitmap_write uninit true fs dir name e0 ≡ ok (true, fs4)
  unfolding dir_remove
  dir_remove-run fs fs2 fs3 fs4 dir inode s name sector e0 at run found opened erased closed =
      rw (at, run, found, opened, erased, closed) refl

  -- Where a file that is open can be removed, `dir_remove` succeeds.  `lookup` then finds no such
  -- name, every other name is in the slots where it was, the names are still distinct, and the
  -- inode of the file stays open as often as before, marked as removed.
  pub dir_remove-Removed :
      (fs : Fs) (dir : Dir) {inode : Inode} {n : ℕ} {sec : ℕ → ℕ} {f : Block} (name : Text)
      (sector : ℕ) (child : Inode) (e0 : List ℕ)
      → CanRemove fs dir inode n sec f name sector child
      → length e0 ≡ entry_size
      → (fs' : Fs) × (inode' : Inode) × (f' : Block) × (dir_remove bitmap_write uninit true fs dir
            name e0
          ≡ ok (true, fs'))
        × (deref fs' dir.inode ≡ ok inode')
        × Writable inode' n sec f' fs'.store.disk
        × ((s : Scan) × (lookup true inode' name e0 fs'.store.disk ≡ ok s) × (s.found ≡ false))
        × ((other : Text)
            → other ≢ name
            → (j : ℕ) → j < n
            → named other (slot_at f' j) ≡ named other (slot_at f j))
        × Unique n f'
        × (find_inode fs'.inodes sector ≡ some (removed_of child))
  unfolding deref
  dir_remove-Removed fs dir {inode} {n} {sec} {f} name sector child e0 c he =
      let (s, run, found, ofs, here, r) = lookup-CanRemove e0 c he in
      let child_sector = find_inode-sector fs.inodes sector child c.child_open in
      let fs1 : Fs = with_disk fs s.disk in
      let fs2 : Fs = record fs1 { inodes = put_inode fs.inodes sector (opened_more child) } in
      let opened : fs_open true fs1 (inode_sector s.e) ≡ ok (some sector, fs2) =
        ap (fs_open true fs1) (ap inode_sector here ∙ c.refers)
        ∙ fs_open-opened fs1 sector child c.child_open in
      let dir_at : deref fs2 dir.inode ≡ ok inode =
        ap or_fault (
          find_inode-put_inode_ne fs.inodes sector dir.inode (opened_more child) child_sector
            c.apart)
        ∙ c.opened in
      let (fs3, inode', f', erased, at', wr', er, child3) =
        erase-Erased bitmap_write uninit fs2 dir name s c.at sector e0 (opened_more child) dir_at
          c.same (Writable-after c.writable r) c.inside ofs here c.is_named
          (find_inode-put_inode fs.inodes sector child (opened_more child) c.child_open
            child_sector)
          c.is_file c.apart in
      let counted : child.open_cnt + 1 - 1 ≡ child.open_cnt = omega arith in
      let closed =
        fs_close-shared bitmap_write uninit fs3 sector (removed_of (opened_more child)) child3
          (omega (arith, c.held)) in
      let last : Inode = record (removed_of (opened_more child)) {
        open_cnt = child.open_cnt + 1 - 1;
      } in
      let fs4 : Fs = record fs3 { inodes = put_inode fs3.inodes sector last } in
      (
        fs4,
        inode',
        f',
        dir_remove-run fs fs2 fs3 fs4 dir inode s name sector e0 c.opened run found opened erased
            closed,
        ap or_fault (find_inode-put_inode_ne fs3.inodes sector dir.inode last child_sector c.apart)
            ∙ at',
        wr',
        missing name e0 wr'.readable (Erased-Absent er c.unique) he,
        λ other ne. Erased-other other er ne,
        Erased-Unique er c.unique,
        find_inode-put_inode fs3.inodes sector (removed_of (opened_more child)) last child3
              child_sector
            ∙ ap (λ (m : ℕ). some (record (removed_of child) { open_cnt = m })) counted,
      )
