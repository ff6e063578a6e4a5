-- ===== src/Descriptors.antt =====
-- The open files of a process, in userprog/process.c, and the system calls on them, in
-- userprog/syscall.c.  An `int` is the word of 32 bits that it is passed in.
pub mod Table
pub mod Close
use os_labratory_spring.Prelude.{
  ◌%◌, ℕ, ◌+◌, ◌-◌, ◌^◌, Bool, true, false, ◌&&◌, ◌||◌, Option, none, some, List, [], ◌∷◌, ◌++◌,
  length, ltb, ◌==◌, if◌then◌else◌, Result, ok, ◌>>=◌, ◌>>◌, assert,
}
use os_labratory_spring.Bitmap.{Bitmap}
use os_labratory_spring.Cache.{Cache}
use os_labratory_spring.Text.{Text}
use os_labratory_spring.File.{file_length, file_tell, file_seek, file_read, file_write}
use os_labratory_spring.Fs.{Fs, deref, put_inode, with_disk}
use os_labratory_spring.Dir.{Dir, dir_readdir, dir_close}
use os_labratory_spring.Filesys.{
  Handle, to_file, to_dir, OpenFile, file_close, filesys_open, filesys_create, filesys_remove,
  filesys_chdir,
}

-- `ERROR` and `CLOSE_ALL`, both -1.
abbrev pub error_word : ℕ
error_word = 2 ^ 32 - 1

abbrev pub close_all : ℕ
close_all = 2 ^ 32 - 1

-- `struct process_file`: `isdir` tells which of its two pointers it has.
pub record ProcessFile : Type 0 where
  pub fd : ℕ
  pub handle : Handle

-- What the system calls change: the file system, the console, and of the thread `file_list`, `fd`
-- and `cwd`.
pub record Process : Type 0 where
  pub fs : Fs
  pub console : List ℕ
  pub file_list : List ProcessFile
  pub next_fd : ℕ
  pub cwd : Option Dir

-- The loop of `process_get_file`.
abbrev pub get_file : List ProcessFile → ℕ → Option ProcessFile
get_file [] fd = none
get_file (pf ∷ pfs) fd = if fd == pf.fd then some pf else get_file pfs fd

unfoldable pub process_get_file : Process → ℕ → Option ProcessFile
process_get_file p fd = get_file p.file_list fd

-- A write through the pointer that `process_get_file` returns.
abbrev pub put_file : List ProcessFile → ℕ → Handle → List ProcessFile
put_file [] fd handle = []
put_file (pf ∷ pfs) fd handle =
    if fd == pf.fd then record pf { handle = handle } ∷ pfs else pf ∷ put_file pfs fd handle

-- `process_add_dir` and `process_add_file`; `mem` tells whether `malloc` finds room.
unfoldable pub add_handle : Bool → Process → Handle → ℕ × Process
add_handle false p handle = (error_word, p)
add_handle true p handle = (
  p.next_fd,
  record p {
    file_list = p.file_list ++ (record { fd = p.next_fd; handle = handle } ∷ []);
    next_fd = (p.next_fd + 1) % 2 ^ 32;
  },
)

-- `is_dir` of the inode that `filesys_open` opened tells which one is added.
unfoldable pub handle_isdir : Handle → Bool
handle_isdir (to_file f) = false
handle_isdir (to_dir d) = true

module _ (bitmap_write : Bitmap → Cache → Result (Bool × Cache)) (uninit : ℕ → ℕ) where
  unfoldable pub close_handle : Fs → Handle → Result Fs
  unfolding file_close dir_close
  close_handle fs (to_file f) = file_close bitmap_write uninit fs (some f)
  close_handle fs (to_dir d) = dir_close bitmap_write uninit fs (some d)

  -- The loop of `process_close_file`.
  unfoldable pub close_files : Fs → ℕ → List ProcessFile → Result (Fs × List ProcessFile)
  unfolding close_handle
  close_files fs fd [] = ok (fs, [])
  close_files fs fd (pf ∷ pfs) =
      let drop_it = (do
        fs' ← close_handle fs pf.handle
        let more = close_files fs' fd pfs
        if fd == close_all then more else ok (fs', pfs)) in
      let keep = (do (fs', pfs') ← close_files fs fd pfs; ok (fs', pf ∷ pfs')) in
      if (fd == pf.fd) || (fd == close_all) then drop_it else keep

  unfoldable pub process_close_file : Process → ℕ → Result Process
  unfolding close_files
  process_close_file p fd = do
    (fs, files) ← close_files p.fs fd p.file_list
    ok (record p { fs = fs; file_list = files })

  -- The system calls `chdir`, `mkdir`, `create` and `remove`.
  unfoldable pub chdir : Bool → List ℕ → Process → Text → Result (Bool × Process)
  unfolding filesys_chdir
  chdir mem e0 p dir = do
    (done, cwd, fs) ← filesys_chdir bitmap_write uninit mem e0 p.fs p.cwd dir
    ok (done, record p { fs = fs; cwd = cwd })

  unfoldable pub mkdir : Bool → List ℕ → Process → Text → Result (Bool × Process)
  unfolding filesys_create
  mkdir mem e0 p dir = do
    (done, fs) ← filesys_create bitmap_write uninit mem e0 p.fs p.cwd dir 0 true
    ok (done, record p { fs = fs })

  unfoldable pub create : Bool → List ℕ → Process → Text → ℕ → Result (Bool × Process)
  unfolding filesys_create
  create mem e0 p file initial_size = do
    (done, fs) ← filesys_create bitmap_write uninit mem e0 p.fs p.cwd file initial_size false
    ok (done, record p { fs = fs })

  unfoldable pub remove : Bool → List ℕ → Process → Text → Result (Bool × Process)
  unfolding filesys_remove
  remove mem e0 p file = do
    (done, fs) ← filesys_remove bitmap_write uninit mem e0 p.fs p.cwd file
    ok (done, record p { fs = fs })

  -- The system call `open`: the file descriptor.
  unfoldable pub open_file : Bool → List ℕ → Process → Text → Result (ℕ × Process)
  unfolding filesys_open add_handle
  open_file mem e0 p file = do
    (h, fs) ← filesys_open bitmap_write uninit mem e0 p.fs p.cwd file
    let p' = record p { fs = fs }
    elim h [ none ↦ ok (error_word, p') | some handle ↦ ok (add_handle mem p' handle) ]

  -- The system call `write`.
  unfoldable pub write : Bool → Process → ℕ → List ℕ → Result (ℕ × Process)
  unfolding process_get_file file_write deref
  write mem p fd buffer =
      let to_open : OpenFile → Result (ℕ × Process) = λ f. (do
        inode ← deref p.fs f.inode
        (w, file) ←
            file_write bitmap_write uninit mem p.fs.store f.file inode buffer (length buffer)
        let fs : Fs = record { store = w.store; inodes = put_inode p.fs.inodes f.inode w.inode }
        let files = put_file p.file_list fd (to_file (record f { file = file }))
        ok (w.bytes_written, record p { fs = fs; file_list = files })) in
      let go : Result (ℕ × Process) = elim (process_get_file p fd) [
        | none ↦ ok (error_word, p)
        | some pf ↦ elim pf.handle [ to_dir d ↦ ok (error_word, p) | to_file f ↦ to_open f ]
      ] in
      if fd == 1 then ok (length buffer, record p { console = p.console ++ buffer }) else go

-- The system call `read`; `keys` are the bytes that calls of `input_getc` give one after another.
unfoldable pub read : (ℕ → List ℕ) → Bool → Process → ℕ → ℕ → Result (ℕ × List ℕ × Process)
unfolding process_get_file file_read deref
read keys mem p fd size =
    let from_open : OpenFile → Result (ℕ × List ℕ × Process) = λ f. (do
      inode ← deref p.fs f.inode
      (bytes, file, disk) ← file_read mem f.file inode size p.fs.store.disk
      let files = put_file p.file_list fd (to_file (record f { file = file }))
      ok (length bytes, bytes, record p { fs = with_disk p.fs disk; file_list = files })) in
    let go : Result (ℕ × List ℕ × Process) = elim (process_get_file p fd) [
      | none ↦ ok (error_word, [], p)
      | some pf ↦ elim pf.handle [ to_dir d ↦ ok (error_word, [], p) | to_file f ↦ from_open f ]
    ] in
    if fd == 0 then ok (size, keys size, p) else go

-- The system call `seek`; a position from 2 ^ 31 on is negative as an `off_t`, and fails the
-- assertion of `file_seek`.
unfoldable pub seek : Process → ℕ → ℕ → Result Process
unfolding process_get_file
seek p fd position =
    let move : OpenFile → Result Process = λ f. (do
      assert (ltb position (2 ^ 31))
      let file = file_seek f.file position
      ok (record p { file_list = put_file p.file_list fd (to_file (record f { file = file })) })) in
    elim (process_get_file p fd) [
      | none ↦ ok p
      | some pf ↦ elim pf.handle [ to_dir d ↦ ok p | to_file f ↦ move f ]
    ]

-- The system call `tell`, with `file_tell`.
unfoldable pub tell : Process → ℕ → ℕ
unfolding process_get_file
tell p fd = elim (process_get_file p fd) [
  | none ↦ error_word
  | some pf ↦ elim pf.handle [ to_dir d ↦ error_word | to_file f ↦ file_tell f.file ]
]

-- The system call `filesize`, with `file_length`.
unfoldable pub filesize : Process → ℕ → Result ℕ
unfolding process_get_file deref
filesize p fd = elim (process_get_file p fd) [
  | none ↦ ok error_word
  | some pf ↦ elim pf.handle [
    | to_dir d ↦ ok error_word
    | to_file f ↦ do inode ← deref p.fs f.inode; ok (file_length inode)
  ]
]

-- The system call `isdir`, where ERROR is converted to a `bool`.
unfoldable pub isdir : Process → ℕ → Bool
unfolding process_get_file handle_isdir
isdir p fd = elim (process_get_file p fd) [ none ↦ true | some pf ↦ handle_isdir pf.handle ]

-- The system call `inumber`.
unfoldable pub inumber : Process → ℕ → ℕ
unfolding process_get_file
inumber p fd = elim (process_get_file p fd) [
  | none ↦ error_word
  | some pf ↦ elim pf.handle [ to_dir d ↦ d.inode | to_file f ↦ f.inode ]
]

-- The system call `readdir`: the name, if there is one more.
unfoldable pub readdir : Bool → List ℕ → Process → ℕ → Result (Option Text × Process)
unfolding process_get_file dir_readdir
readdir mem e0 p fd = elim (process_get_file p fd) [
  | none ↦ ok (none, p)
  | some pf ↦ elim pf.handle [
    | to_file f ↦ ok (none, p)
    | to_dir d ↦ do
      (name, d', fs) ← dir_readdir mem p.fs d e0
      ok (name, record p { fs = fs; file_list = put_file p.file_list fd (to_dir d') })
  ]
]
