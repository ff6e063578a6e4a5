-- ===== src/Tests/PathRuns.antt =====
-- Runs on the path "//ab/c/".
use os_labratory_spring.Prelude.{◌≡◌, refl, true, [], ◌∷◌}
use os_labratory_spring.Text.{Text}
use os_labratory_spring.Text.Split.{components}
use os_labratory_spring.Fs.{Fs}
use os_labratory_spring.Dir.{Dir}
use os_labratory_spring.Tests.{store, empty_file}

abbrev path : Text
path = 47 ∷ 47 ∷ 97 ∷ 98 ∷ 47 ∷ 99 ∷ 47 ∷ []

components_of_path : components 47 path ≡ (97 ∷ 98 ∷ []) ∷ (99 ∷ []) ∷ []
components_of_path = refl

-- The root directory is open and empty.
abbrev root_open : Fs
root_open = record { store = store; inodes = record empty_file { isdir = true } ∷ [] }

abbrev root_twice : Fs
root_twice = record root_open { inodes = record empty_file { isdir = true; open_cnt = 2 } ∷ [] }

abbrev root_dir : Dir
root_dir = record { inode = 1; pos = 0 }
