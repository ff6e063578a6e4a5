-- ===== src/Path.antt =====
-- filesys/filesys.c: the names of files.  The string that is copied and cut by `strtok_r` is the
-- rest that is not cut yet.
pub mod Names
use os_labratory_spring.Prelude.{
  ℕ, zero, suc, ◌+◌, Bool, true, false, Option, none, some, List, [], ◌∷◌, length, get_or, ◌==◌,
  if◌then◌else◌, Result, ok, panic, hang, ◌>>=◌,
}
use os_labratory_spring.Bitmap.{Bitmap}
use os_labratory_spring.Cache.{Cache}
use os_labratory_spring.Text.{Text, same_text, strtok_r}
use os_labratory_spring.Text.Split.{slash}
use os_labratory_spring.Fs.{Fs, deref, fs_close}
use os_labratory_spring.Dir.{
  Dir, dir_get_parent, dir_lookup, dir_open, dir_open_root, dir_reopen, dir_close,
}

-- "." and ".."
abbrev pub dot : Text
dot = 46 ∷ []

abbrev pub dot_dot : Text
dot_dot = 46 ∷ 46 ∷ []

-- The loop of `get_filename`.
unfoldable pub last_token : ℕ → Text → Text → Result Text
unfolding strtok_r
last_token zero s prev_token = hang
last_token (suc fuel) s prev_token = elim (strtok_r s slash) [
  | none ↦ ok prev_token
  | some t ↦ last_token fuel t.1 t.0
]

-- `get_filename`; a copy to where `malloc` finds no room is a fault.
unfoldable pub get_filename : Bool → Text → Result Text
unfolding last_token
get_filename mem path = do
  name ← last_token (length path + 1) path []
  if mem then ok name else panic

-- The directory that a pointer leads to.
abbrev pub pointee : Option Dir → Result Dir
pointee none = panic
pointee (some dir) = ok dir

module _ (bitmap_write : Bitmap → Cache → Result (Bool × Cache)) (uninit : ℕ → ℕ) where
  -- The end of a round: the walk goes on in a directory that was found, and where it was if the
  -- inode is not one.
  unfoldable pub step_into : Bool → Fs → Option Dir → ℕ → Result (Bool × Option Dir × Fs)
  unfolding deref dir_close dir_open fs_close
  step_into mem fs dir sector = do
    inode ← deref fs sector
    let down = (do
      fs1 ← dir_close bitmap_write uninit fs dir
      (dir', fs2) ← dir_open bitmap_write uninit mem fs1 (some sector)
      ok (true, dir', fs2))
    let stay = (do fs1 ← fs_close bitmap_write uninit fs (some sector); ok (true, dir, fs1))
    if inode.isdir then down else stay

  -- A round of the loop of `get_containing_dir`, and whether the loop goes on.
  unfoldable pub enter : Bool → List ℕ → Fs → Option Dir → Text → Result (Bool × Option Dir × Fs)
  unfolding same_text dir_get_parent dir_lookup step_into
  enter mem e0 fs dir name =
      let move = (do
        d ← pointee dir
        (p, fs1) ←
            if same_text name dot_dot then dir_get_parent mem fs d else dir_lookup mem fs d name e0
        elim p [ none ↦ ok (false, none, fs1) | some sector ↦ step_into mem fs1 dir sector ]) in
      if same_text name dot then ok (true, dir, fs) else move

  -- The loop of `get_containing_dir`, with `token` and what is left behind it.
  unfoldable pub walk : ℕ → Bool → List ℕ → Fs → Option Dir → Text → Text → Result (Option Dir × Fs)
  unfolding strtok_r enter
  walk zero mem e0 fs dir name rest = hang
  walk (suc fuel) mem e0 fs dir name rest = elim (strtok_r rest slash) [
    | none ↦ ok (dir, fs)
    | some next ↦ do
      (on, dir', fs') ← enter mem e0 fs dir name
      let more = walk fuel mem e0 fs' dir' next.0 next.1
      if on then more else ok (none, fs')
  ]

  -- Where `get_containing_dir` starts: in the root for a path that begins with a slash or a thread
  -- without a directory, else in that directory.
  unfoldable pub start : Bool → Fs → Option Dir → Text → Result (Option Dir × Fs)
  unfolding dir_open_root dir_reopen
  start mem fs none path = dir_open_root bitmap_write uninit mem fs
  start mem fs (some cwd) path =
      if get_or path 0 0 == 47
      then dir_open_root bitmap_write uninit mem fs
      else dir_reopen bitmap_write uninit mem fs cwd

  -- `get_containing_dir`
  unfoldable pub get_containing_dir :
      Bool → List ℕ → Fs → Option Dir → Text → Result (Option Dir × Fs)
  unfolding strtok_r start walk
  get_containing_dir mem e0 fs cwd path = do
    (dir, fs') ← start mem fs cwd path
    elim (strtok_r path slash) [
      | none ↦ ok (dir, fs')
      | some t ↦ walk (length t.1 + 1) mem e0 fs' dir t.0 t.1
    ]
