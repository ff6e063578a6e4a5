-- ===== src/Filesys.antt =====
-- filesys/filesys.c and the opening and closing of files in filesys/file.c.  `cwd` is the directory
-- of the current thread, `e0` what a local `struct dir_entry` holds before it is read into.
use os_labratory_spring.Prelude.{
  ℕ, Bool, true, false, not, ◌&&◌, ◌||◌, Option, none, some, List, ◌==◌, if◌then◌else◌, Result, ok,
  ◌>>=◌,
}
use os_labratory_spring.Bitmap.{Bitmap}
use os_labratory_spring.Cache.{Cache}
use os_labratory_spring.FreeMap.{allocate, release}
use os_labratory_spring.Inode.Create.{inode_create}
use os_labratory_spring.File.{File, file_allow_write}
use os_labratory_spring.Text.{Text, strlen, same_text}
use os_labratory_spring.Fs.{Fs, deref, put_inode, fs_reopen, fs_close}
use os_labratory_spring.Dir.{
  Dir, dir_is_root, dir_get_parent, dir_lookup, dir_open, dir_close, dir_add, dir_remove,
}
use os_labratory_spring.Path.{dot, dot_dot, get_filename, get_containing_dir}

-- `struct file`, with the sector of its inode.
pub record OpenFile : Type 0 where
  pub inode : ℕ
  pub file : File

-- What `filesys_open` returns a pointer to.
pub data Handle : Type 0 where
  to_file : OpenFile → Handle
  to_dir : Dir → Handle

-- The name in its directory: `dir_get_parent` fails, the directory itself, or the inode that is
-- found or not.
pub data Target : Type 0 where
  no_parent : Target
  itself : Target
  entry_of : Option ℕ → Target

-- The branches of `filesys_open` and of `filesys_chdir` on the last name.
unfoldable pub resolve : Bool → List ℕ → Fs → Dir → Text → Result (Target × Fs)
unfolding same_text strlen dir_get_parent dir_is_root dir_lookup
resolve mem e0 fs dir file_name =
    let up = (do
      (p, fs') ← dir_get_parent mem fs dir
      ok (elim p [ none ↦ no_parent | some s ↦ entry_of (some s) ], fs')) in
    let down = (do (p, fs') ← dir_lookup mem fs dir file_name e0; ok (entry_of p, fs')) in
    let here = (dir_is_root (some dir) && (strlen file_name == 0)) || same_text file_name dot in
    if same_text file_name dot_dot then up else (if here then ok (itself, fs) else down)

module _ (bitmap_write : Bitmap → Cache → Result (Bool × Cache)) (uninit : ℕ → ℕ) where
  -- `file_open`, which takes the inode or closes it.
  unfoldable pub file_open : Bool → Fs → Option ℕ → Result (Option OpenFile × Fs)
  unfolding fs_close
  file_open mem fs none = ok (none, fs)
  file_open mem fs (some sector) =
      let refuse = (do fs' ← fs_close bitmap_write uninit fs (some sector); ok (none, fs')) in
      let new : OpenFile = record {
        inode = sector;
        file = record { pos = 0; deny_write = false };
      } in
      if mem then ok (some new, fs) else refuse

  unfoldable pub file_reopen : Bool → Fs → OpenFile → Result (Option OpenFile × Fs)
  unfolding fs_reopen file_open
  file_reopen mem fs file = do fs' ← fs_reopen fs file.inode; file_open mem fs' (some file.inode)

  unfoldable pub file_close : Fs → Option OpenFile → Result Fs
  unfolding deref file_allow_write fs_close
  file_close fs none = ok fs
  file_close fs (some file) = do
    inode ← deref fs file.inode
    (_, inode') ← file_allow_write file.file inode
    fs_close bitmap_write uninit (record fs { inodes = put_inode fs.inodes file.inode inode' })
        (some file.inode)

  -- The end of `filesys_open`: the directory is closed and the inode opened as what it is.
  unfoldable pub open_inode : Bool → Fs → Option Dir → Option ℕ → Result (Option Handle × Fs)
  unfolding dir_close dir_open file_open deref
  open_inode mem fs dir none = do fs' ← dir_close bitmap_write uninit fs dir; ok (none, fs')
  open_inode mem fs dir (some sector) = do
    fs1 ← dir_close bitmap_write uninit fs dir
    inode ← deref fs1 sector
    let as_dir = (do
      (d, fs2) ← dir_open bitmap_write uninit mem fs1 (some sector)
      ok (elim d [ none ↦ none | some x ↦ some (to_dir x) ], fs2))
    let as_file = (do
      (f, fs2) ← file_open mem fs1 (some sector)
      ok (elim f [ none ↦ none | some x ↦ some (to_file x) ], fs2))
    if inode.isdir then as_dir else as_file

  -- `filesys_open`
  unfoldable pub filesys_open : Bool → List ℕ → Fs → Option Dir → Text → Result (Option Handle × Fs)
  unfolding get_containing_dir get_filename resolve open_inode strlen
  filesys_open mem e0 fs cwd name =
      let find = (do
        (dir, fs1) ← get_containing_dir bitmap_write uninit mem e0 fs cwd name
        file_name ← get_filename mem name
        elim dir [
          | none ↦ open_inode mem fs1 none none
          | some d ↦ do
            (target, fs2) ← resolve mem e0 fs1 d file_name
            elim target [
              | no_parent ↦ ok (none, fs2)
              | itself ↦ ok (some (to_dir d), fs2)
              | entry_of p ↦ open_inode mem fs2 (some d) p
            ]
        ]) in
      if strlen name == 0 then ok (none, fs) else find

  -- The chain of calls of `filesys_create`: whether all succeed, and `inode_sector`.
  unfoldable pub make : Bool → List ℕ → Fs → Option Dir → Text → ℕ → Bool → Result (Bool × ℕ × Fs)
  unfolding allocate inode_create dir_add
  make mem e0 fs none file_name initial_size isdir = ok (false, 0, fs)
  make mem e0 fs (some dir) file_name initial_size isdir = do
    a ← allocate bitmap_write fs.store 1 0
    let fs1 = record fs { store = a.map }
    let rest = (do
      (created, store) ← inode_create bitmap_write uninit mem fs1.store a.sector initial_size isdir
      let fs2 = record fs1 { store = store }
      let add = (do
        (added, fs3) ← dir_add bitmap_write uninit mem fs2 dir file_name a.sector e0
        ok (added, a.sector, fs3))
      if created then add else ok (false, a.sector, fs2))
    if a.success then rest else ok (false, a.sector, fs1)

  -- `free_map_release (inode_sector, 1)`
  abbrev pub release_sector : Fs → ℕ → Result Fs
  release_sector fs sector = do
    store ← release bitmap_write fs.store sector 1
    ok (record fs { store = store })

  -- `filesys_create`
  unfoldable pub filesys_create :
      Bool → List ℕ → Fs → Option Dir → Text → ℕ → Bool → Result (Bool × Fs)
  unfolding get_containing_dir get_filename make dir_close release
  filesys_create mem e0 fs cwd name initial_size isdir = do
    (dir, fs1) ← get_containing_dir bitmap_write uninit mem e0 fs cwd name
    file_name ← get_filename mem name
    (success, sector, fs2) ←
        if same_text file_name dot || same_text file_name dot_dot
        then ok (false, 0, fs1)
        else make mem e0 fs1 dir file_name initial_size isdir
    fs3 ← if not success && not (sector == 0) then release_sector fs2 sector else ok fs2
    fs4 ← dir_close bitmap_write uninit fs3 dir
    ok (success, fs4)

  abbrev pub remove_name : Bool → List ℕ → Fs → Option Dir → Text → Result (Bool × Fs)
  remove_name mem e0 fs none file_name = ok (false, fs)
  remove_name mem e0 fs (some d) file_name = dir_remove bitmap_write uninit mem fs d file_name e0

  -- `filesys_remove`
  unfoldable pub filesys_remove : Bool → List ℕ → Fs → Option Dir → Text → Result (Bool × Fs)
  unfolding get_containing_dir get_filename dir_remove dir_close
  filesys_remove mem e0 fs cwd name = do
    (dir, fs1) ← get_containing_dir bitmap_write uninit mem e0 fs cwd name
    file_name ← get_filename mem name
    (success, fs2) ← remove_name mem e0 fs1 dir file_name
    fs3 ← dir_close bitmap_write uninit fs2 dir
    ok (success, fs3)

  -- The end of `filesys_chdir`: the directory found takes the place of the thread's, if it opens.
  unfoldable pub change_to :
      Bool → Fs → Option Dir → Option Dir → Option ℕ → Result (Bool × Option Dir × Fs)
  unfolding dir_close dir_open
  change_to mem fs cwd dir p = do
    fs1 ← dir_close bitmap_write uninit fs dir
    (new, fs2) ← dir_open bitmap_write uninit mem fs1 p
    elim new [
      | none ↦ ok (false, cwd, fs2)
      | some d ↦ do fs3 ← dir_close bitmap_write uninit fs2 cwd; ok (true, some d, fs3)
    ]

  -- `filesys_chdir`: its result, with the directory of the thread afterwards.
  unfoldable pub filesys_chdir :
      Bool → List ℕ → Fs → Option Dir → Text → Result (Bool × Option Dir × Fs)
  unfolding get_containing_dir get_filename resolve change_to
  filesys_chdir mem e0 fs cwd name = do
    (dir, fs1) ← get_containing_dir bitmap_write uninit mem e0 fs cwd name
    file_name ← get_filename mem name
    elim dir [
      | none ↦ change_to mem fs1 cwd none none
      | some d ↦ do
        (target, fs2) ← resolve mem e0 fs1 d file_name
        elim target [
          | no_parent ↦ ok (false, cwd, fs2)
          | itself ↦ ok (true, some d, fs2)
          | entry_of p ↦ change_to mem fs2 cwd (some d) p
        ]
    ]
