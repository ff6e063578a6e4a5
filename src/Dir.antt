-- ===== src/Dir.antt =====
-- filesys/directory.c.  The lock of the directory's inode is left out.
pub mod Slots
pub mod Search
pub mod Place
pub mod Add
pub mod Names
pub mod Erase
pub mod Remove
pub mod Find
use os_labratory_spring.Prelude.{
  ℕ, zero, suc, ◌+◌, ◌-◌, ◌*◌, ◌/◌, ◌%◌, ◌^◌, Bool, true, false, not, ◌&&◌, ◌||◌, Option, none,
  some, List, [], ◌∷◌, ◌++◌, length, get_or, set, take, drop, ltb, ◌==◌, if◌then◌else◌, Result, ok,
  hang, ◌>>=◌,
}
use os_labratory_spring.Bitmap.{Bitmap}
use os_labratory_spring.Cache.{Cache}
use os_labratory_spring.Words.{byte_of}
use os_labratory_spring.Text.{Text, c_string, strlen, same_text, strlcpy}
use os_labratory_spring.FreeMap.{root_dir_sector}
use os_labratory_spring.Inode.{Inode}
use os_labratory_spring.Inode.Data.{read_at}
use os_labratory_spring.Inode.Create.{inode_create}
use os_labratory_spring.Fs.{
  Fs, deref, with_disk, fs_open, fs_reopen, fs_close, fs_read, fs_write, fs_remove, add_parent,
}

abbrev pub name_max : ℕ
name_max = 14

-- `sizeof (struct dir_entry)`
abbrev pub entry_size : ℕ
entry_size = 20

-- The fields of a `struct dir_entry`, of which these are the bytes.
unfoldable pub inode_sector : List ℕ → ℕ
inode_sector e = get_or e 0 0 + 256 * get_or e 1 0 + 65536 * get_or e 2 0 + 16777216 * get_or e 3 0

unfoldable pub entry_name : List ℕ → Text
unfolding c_string
entry_name e = c_string (drop 4 e)

unfoldable pub in_use : List ℕ → Bool
in_use e = not (get_or e 19 0 == 0)

-- `e.in_use = true; strlcpy (e.name, name, sizeof e.name); e.inode_sector = sector;`
unfoldable pub fill_entry : List ℕ → Text → ℕ → List ℕ
unfolding strlcpy
fill_entry e name sector =
    (byte_of sector 0 ∷ byte_of sector 1 ∷ byte_of sector 2 ∷ byte_of sector 3 ∷ [])
    ++ (strlcpy (take (name_max + 1) (drop 4 e)) name (name_max + 1) ++ (1 ∷ []))

-- `e.in_use = false;`
abbrev pub clear_entry : List ℕ → List ℕ
clear_entry e = set e 19 0

-- A read of `size` bytes that got `bytes` into the variable `e`.
abbrev pub overlay : List ℕ → List ℕ → List ℕ
overlay bytes e = bytes ++ drop (length bytes) e

-- Where a loop over the entries stopped, with the variable `e`.
pub record Scan : Type 0 where
  pub found : Bool
  pub e : List ℕ
  pub ofs : ℕ
  pub disk : Cache

-- The loop that `lookup`, `dir_add`, `dir_readdir` and `dir_is_empty` have: entries are read from
-- `ofs` on, up to the first that `stop` accepts or to a short read.
unfoldable pub scan : Bool → Inode → (List ℕ → Bool) → ℕ → List ℕ → ℕ → Cache → Result Scan
unfolding read_at
scan mem inode stop zero e ofs disk = hang
scan mem inode stop (suc fuel) e ofs disk = do
  (bytes, disk') ← read_at mem inode entry_size ofs disk
  let e' = overlay bytes e
  let next = scan mem inode stop fuel e' (ofs + entry_size) disk'
  if length bytes == entry_size
      then (if stop e' then ok (record { found = true; e = e'; ofs = ofs; disk = disk' }) else next)
      else ok (record { found = false; e = e'; ofs = ofs; disk = disk' })

-- The entries of a directory, and the short read behind them.
abbrev pub rounds : Inode → ℕ
rounds inode = inode.read_length / entry_size + 1

-- The test of `lookup`.
unfoldable pub named : Text → List ℕ → Bool
unfolding in_use entry_name same_text
named name e = in_use e && same_text name (entry_name e)

-- `lookup`; `e0` is what the variable `e` holds before it is read into.
unfoldable pub lookup : Bool → Inode → Text → List ℕ → Cache → Result Scan
unfolding scan named
lookup mem inode name e0 disk = scan mem inode (named name) (rounds inode) e0 0 disk

-- The loop of `dir_add` that finds a free slot.
unfoldable pub find_slot : Bool → Inode → List ℕ → Cache → Result Scan
unfolding scan in_use
find_slot mem inode e0 disk = scan mem inode (λ e. not (in_use e)) (rounds inode) e0 0 disk

-- `dir_is_empty`
unfoldable pub dir_is_empty : Bool → Fs → ℕ → List ℕ → Result (Bool × Fs)
unfolding scan in_use deref
dir_is_empty mem fs sector e0 = do
  inode ← deref fs sector
  s ← scan mem inode in_use (rounds inode) e0 0 fs.store.disk
  ok (not s.found, with_disk fs s.disk)

-- `struct dir`, with the sector of its inode.
pub record Dir : Type 0 where
  pub inode : ℕ
  pub pos : ℕ

-- `dir_is_root`; `none` is the null pointer.
unfoldable pub dir_is_root : Option Dir → Bool
dir_is_root none = false
dir_is_root (some dir) = dir.inode == root_dir_sector

-- `dir_get_parent`
unfoldable pub dir_get_parent : Bool → Fs → Dir → Result (Option ℕ × Fs)
unfolding deref fs_open
dir_get_parent mem fs dir = do inode ← deref fs dir.inode; fs_open mem fs inode.parent

-- `dir_lookup`: the pointer to the inode, null if there is none.
unfoldable pub dir_lookup : Bool → Fs → Dir → Text → List ℕ → Result (Option ℕ × Fs)
unfolding lookup deref fs_open
dir_lookup mem fs dir name e0 = do
  inode ← deref fs dir.inode
  s ← lookup mem inode name e0 fs.store.disk
  let fs' = with_disk fs s.disk
  if s.found then fs_open mem fs' (inode_sector s.e) else ok (none, fs')

-- `dir_readdir`: the name, if there is one more entry.
unfoldable pub dir_readdir : Bool → Fs → Dir → List ℕ → Result (Option Text × Dir × Fs)
unfolding scan in_use entry_name deref
dir_readdir mem fs dir e0 = do
  inode ← deref fs dir.inode
  s ← scan mem inode in_use (rounds inode) e0 dir.pos fs.store.disk
  let name = if s.found then some (take name_max (entry_name s.e)) else none
  let pos = if s.found then s.ofs + entry_size else s.ofs
  ok (name, record dir { pos = pos }, with_disk fs s.disk)

module _ (bitmap_write : Bitmap → Cache → Result (Bool × Cache)) (uninit : ℕ → ℕ) where
  -- `dir_create`
  unfoldable pub dir_create : Bool → Fs → ℕ → ℕ → Result (Bool × Fs)
  unfolding inode_create
  dir_create mem fs sector entry_cnt = do
    (done, store) ←
        inode_create bitmap_write uninit mem fs.store sector (entry_cnt * entry_size) true
    ok (done, record fs { store = store })

  -- `dir_open`, which takes the inode or closes it.
  unfoldable pub dir_open : Bool → Fs → Option ℕ → Result (Option Dir × Fs)
  unfolding fs_close
  dir_open mem fs none = ok (none, fs)
  dir_open mem fs (some sector) =
      let refuse = (do fs' ← fs_close bitmap_write uninit fs (some sector); ok (none, fs')) in
      if mem then ok (some (record { inode = sector; pos = 0 }), fs) else refuse

  unfoldable pub dir_open_root : Bool → Fs → Result (Option Dir × Fs)
  unfolding fs_open dir_open
  dir_open_root mem fs = do (p, fs') ← fs_open mem fs root_dir_sector; dir_open mem fs' p

  unfoldable pub dir_reopen : Bool → Fs → Dir → Result (Option Dir × Fs)
  unfolding fs_reopen dir_open
  dir_reopen mem fs dir = do fs' ← fs_reopen fs dir.inode; dir_open mem fs' (some dir.inode)

  unfoldable pub dir_close : Fs → Option Dir → Result Fs
  unfolding fs_close
  dir_close fs none = ok fs
  dir_close fs (some dir) = fs_close bitmap_write uninit fs (some dir.inode)

  -- The part of `dir_add` that writes the slot.
  unfoldable pub write_slot : Bool → Fs → Dir → Text → ℕ → List ℕ → Result (Bool × Fs)
  unfolding find_slot fill_entry fs_write deref
  write_slot mem fs dir name sector e0 = do
    inode ← deref fs dir.inode
    s ← find_slot mem inode e0 fs.store.disk
    (n, fs') ←
        fs_write bitmap_write uninit mem (with_disk fs s.disk) dir.inode
          (fill_entry s.e name sector) entry_size s.ofs
    ok (n == entry_size, fs')

  -- `dir_add`
  unfoldable pub dir_add : Bool → Fs → Dir → Text → ℕ → List ℕ → Result (Bool × Fs)
  unfolding lookup write_slot deref add_parent strlen
  dir_add mem fs dir name sector e0 =
      let add = (do
        inode ← deref fs dir.inode
        s ← lookup mem inode name e0 fs.store.disk
        let fs1 = with_disk fs s.disk
        let go = (do
          (added, fs2) ← add_parent bitmap_write uninit mem fs1 dir.inode sector
          if added then write_slot mem fs2 dir name sector e0 else ok (false, fs2))
        if s.found then ok (false, fs1) else go) in
      if (strlen name == 0) || ltb name_max (strlen name) then ok (false, fs) else add

  -- The part of `dir_remove` on an entry that is found, before its inode is closed.
  unfoldable pub erase : Bool → Fs → Dir → Scan → ℕ → List ℕ → Result (Bool × Fs)
  unfolding deref dir_is_empty fs_write fs_remove
  erase mem fs dir s sector e0 = do
    inode ← deref fs sector
    let go = (do
      (empty, fs1) ← if inode.isdir then dir_is_empty mem fs sector e0 else ok (true, fs)
      let write = (do
        (n, fs2) ← fs_write bitmap_write uninit mem fs1 dir.inode (clear_entry s.e) entry_size s.ofs
        if n == entry_size
            then (do fs3 ← fs_remove fs2 sector; ok (true, fs3))
            else ok (false, fs2))
      if empty then write else ok (false, fs1))
    if inode.isdir && ltb 1 inode.open_cnt then ok (false, fs) else go

  -- `dir_remove`
  unfoldable pub dir_remove : Bool → Fs → Dir → Text → List ℕ → Result (Bool × Fs)
  unfolding lookup fs_open fs_close deref erase
  dir_remove mem fs dir name e0 = do
    inode ← deref fs dir.inode
    s ← lookup mem inode name e0 fs.store.disk
    let fs1 = with_disk fs s.disk
    let go = (do
      (p, fs2) ← fs_open mem fs1 (inode_sector s.e)
      elim p [
        | none ↦ ok (false, fs2)
        | some sector ↦ do
          (done, fs3) ← erase mem fs2 dir s sector e0
          fs4 ← fs_close bitmap_write uninit fs3 (some sector)
          ok (done, fs4)
      ])
    if s.found then go else ok (false, fs1)
