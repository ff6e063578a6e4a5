-- ===== src/Tests/ProcessRuns.antt =====
-- Runs on the open files of a process, and on what a user program passes.
use os_labratory_spring.Prelude.{
  ◌≢◌, ℕ, ◌≡◌, ◌≤◌, ◌+◌, refl, true, Bool, Option, none, some, [], ◌∷◌, ok, arith,
}
use os_labratory_spring.Fs.{Fs}
use os_labratory_spring.Filesys.{Handle, to_dir}
use os_labratory_spring.Descriptors.{
  Process, error_word, add_handle, process_close_file, close_handle, process_get_file,
}
use os_labratory_spring.Descriptors.Table.{IsTable, Added, add_handle-Added}
use os_labratory_spring.Descriptors.Close.{Closed, process_close_file-Closed}
use os_labratory_spring.UserMemory.{
  user_vaddr_bottom, phys_base, check_valid_buffer, check_valid_string,
}
use os_labratory_spring.UserMemory.Checks.{Ends, check_valid_buffer-inside, check_valid_string-Ends}
use os_labratory_spring.Tests.{map_write, store, empty_file}

-- Two openers of the root directory.
abbrev two_openers : Fs
two_openers = record {
  store = store;
  inodes = record empty_file { isdir = true; open_cnt = 2 } ∷ [];
}

abbrev one_opener : Fs
one_opener = record {
  store = store;
  inodes = record empty_file { isdir = true; open_cnt = 1 } ∷ [];
}

abbrev root : Handle
root = to_dir (record { inode = 1; pos = 0 })

-- The root directory is open at 2 and 3.
abbrev process : Process
process = record {
  fs = two_openers;
  console = [];
  file_list = record { fd = 2; handle = root } ∷ record { fd = 3; handle = root } ∷ [];
  next_fd = 4;
  cwd = none;
}

process-IsTable : IsTable process
process-IsTable = record {
  below = (omega arith, (omega arith, tt));
  distinct = (((λ e. omega (arith, e)), tt), (tt, tt));
}

add_handle-Added_example :
    ((add_handle true process root).0 ≡ 4)
    × (4 ≢ error_word)
    × Added process ((add_handle true process root).1) root
add_handle-Added_example = add_handle-Added process root process-IsTable (omega arith)

process_close_file-Closed_example :
    (p' : Process) × (process_close_file map_write (λ _. 0) process 3 ≡ ok p')
    × (p'.fs ≡ one_opener)
    × Closed process p' 3
unfolding close_handle process_get_file
process_close_file-Closed_example =
    process_close_file-Closed map_write (λ _. 0) process 3 (record { fd = 3; handle = root })
      one_opener process-IsTable (λ e. omega (arith, e)) refl refl

check_valid_buffer-inside_example :
    (check_valid_buffer 134512640 4 ≡ true
      → (user_vaddr_bottom ≤ 134512640) × (134512640 + 4 ≤ phys_base))
    × (user_vaddr_bottom ≤ 134512640
        → 134512640 + 4 ≤ phys_base
        → check_valid_buffer 134512640 4 ≡ true)
check_valid_buffer-inside_example = check_valid_buffer-inside 134512640 4 (omega arith)

-- The page of the last user addresses is mapped, and its last byte is not null.
abbrev last_page : ℕ → Option ℕ
last_page v = some v

check_valid_string-Ends_example :
    (passes : Bool) × (check_valid_string last_page (λ _. 7) 4 3221225470 ≡ ok passes)
    × Ends last_page (λ _. 7) 3221225470 passes
check_valid_string-Ends_example =
    check_valid_string-Ends last_page (λ _. 7) 3 3221225470 (omega arith)
