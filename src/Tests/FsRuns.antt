-- ===== src/Tests/FsRuns.antt =====
-- Runs of the whole file system on a disk of 32 sectors that is formatted first.
use os_labratory_spring.Prelude.{
  ℕ, ◌≡◌, refl, Bool, true, false, Option, none, some, List, [], ◌∷◌, replicate, Result, ok, ◌>>=◌,
}
use os_labratory_spring.Bitmap.{Bitmap}
use os_labratory_spring.Device.{Device}
use os_labratory_spring.Cache.{Cache}
use os_labratory_spring.Words.{block_of}
use os_labratory_spring.Text.{Text}
use os_labratory_spring.Fs.{Fs}
use os_labratory_spring.Dir.{inode_sector}
use os_labratory_spring.Filesys.{
  Handle, to_file, to_dir, filesys_create, filesys_open, filesys_remove,
}
use os_labratory_spring.Mount.{filesys_init}

abbrev zero_disk : Device
zero_disk = record { size = 32; stored = λ _ _. 0 }

abbrev saves : Bitmap → Cache → Result (Bool × Cache)
saves b st = ok (true, st)

abbrev reads : Bitmap → Cache → Result (Bool × Bitmap × Cache)
reads b st = ok (true, b, st)

-- What is opened: nothing, a file or a directory.
abbrev kind_of : Option Handle → ℕ
kind_of none = 0
kind_of (some (to_file f)) = 1
kind_of (some (to_dir d)) = 2

-- "/a", "/d", "/d/a", "/a/d" and "/d/.."
abbrev path_a : Text
path_a = 47 ∷ 97 ∷ []

abbrev path_d : Text
path_d = 47 ∷ 100 ∷ []

abbrev path_d_a : Text
path_d_a = 47 ∷ 100 ∷ 47 ∷ 97 ∷ []

abbrev path_a_d : Text
path_a_d = 47 ∷ 97 ∷ 47 ∷ 100 ∷ []

abbrev path_d_up : Text
path_d_up = 47 ∷ 100 ∷ 47 ∷ 46 ∷ 46 ∷ []

abbrev e0 : List ℕ
e0 = replicate 20 0

abbrev fresh : Result Fs
unfolding filesys_init
fresh = do m ← filesys_init saves reads (λ _. 0) true zero_disk true; ok m.fs

abbrev made : Fs → Text → Bool → Result (Bool × Fs)
unfolding filesys_create
made fs name isdir = filesys_create saves (λ _. 0) true e0 fs none name 10 isdir

abbrev opened_kind : Fs → Text → Result ℕ
unfolding filesys_open
opened_kind fs name = do (h, fs') ← filesys_open saves (λ _. 0) true e0 fs none name; ok (kind_of h)

abbrev removed : Fs → Text → Result (Bool × Fs)
unfolding filesys_remove
removed fs name = filesys_remove saves (λ _. 0) true e0 fs none name

-- A file is created and opened; no other name is there, and the name is not created twice.
abbrev one_file : Result (ℕ × ℕ × Bool)
one_file = do
  fs ← fresh
  (_, fs1) ← made fs path_a false
  k ← opened_kind fs1 path_a
  k' ← opened_kind fs1 path_d
  (again, _) ← made fs1 path_a false
  ok (k, k', again)

one_file_run : one_file ≡ ok (1, 0, false)
unfolding fresh made opened_kind filesys_init filesys_create filesys_open block_of inode_sector
one_file_run = refl

-- A directory with a file in it, and the way back up.
abbrev two_levels : Result (ℕ × ℕ × ℕ)
two_levels = do
  fs ← fresh
  (_, fs1) ← made fs path_d true
  (_, fs2) ← made fs1 path_d_a false
  k ← opened_kind fs2 path_d
  k' ← opened_kind fs2 path_d_a
  k'' ← opened_kind fs2 path_d_up
  ok (k, k', k'')

two_levels_run : two_levels ≡ ok (2, 1, 2)
unfolding fresh made opened_kind filesys_init filesys_create filesys_open block_of inode_sector
two_levels_run = refl

-- A component that is a file is skipped: "/a/d" opens the directory "/d".
abbrev through_file : Result ℕ
through_file = do
  fs ← fresh
  (_, fs1) ← made fs path_a false
  (_, fs2) ← made fs1 path_d true
  opened_kind fs2 path_a_d

through_file_run : through_file ≡ ok 2
unfolding fresh made opened_kind filesys_init filesys_create filesys_open block_of inode_sector
through_file_run = refl

-- A file is removed; a directory that is not empty is not.
abbrev removals : Result (Bool × ℕ × Bool)
removals = do
  fs ← fresh
  (_, fs1) ← made fs path_a false
  (gone, fs2) ← removed fs1 path_a
  k ← opened_kind fs2 path_a
  (_, fs3) ← made fs2 path_d true
  (_, fs4) ← made fs3 path_d_a false
  (kept, _) ← removed fs4 path_d
  ok (gone, k, kept)

removals_run : removals ≡ ok (true, 0, false)
unfolding fresh made opened_kind removed filesys_init filesys_create filesys_open filesys_remove
    block_of inode_sector
removals_run = refl
