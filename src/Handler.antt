-- ===== src/Handler.antt =====
-- `syscall_handler` of userprog/syscall.c: the arguments and the checks of each system call.
use os_labratory_spring.Prelude.{
  ℕ, zero, suc, ◌+◌, ◌*◌, Bool, true, false, Option, none, some, List, [], ◌∷◌, get_or, ◌==◌, ◌||◌,
  ◌++◌, if◌then◌else◌, Result, ok, ◌>>=◌,
}
use os_labratory_spring.Bitmap.{Bitmap}
use os_labratory_spring.Cache.{Cache}
use os_labratory_spring.Inode.Data.{copy_out}
use os_labratory_spring.Text.{Text}
use os_labratory_spring.UserMemory.{
  user_to_kernel_ptr, get_arg, check_valid_buffer, check_valid_string, phys_base,
}
use os_labratory_spring.Descriptors.{
  Process, error_word, chdir, mkdir, create, remove, open_file, filesize, read, write, seek, tell,
  isdir, inumber, readdir, process_close_file,
}

-- The numbers of lib/syscall-nr.h.
abbrev pub sys_halt : ℕ
sys_halt = 0

abbrev pub sys_exit : ℕ
sys_exit = 1

abbrev pub sys_exec : ℕ
sys_exec = 2

abbrev pub sys_wait : ℕ
sys_wait = 3

abbrev pub sys_create : ℕ
sys_create = 4

abbrev pub sys_remove : ℕ
sys_remove = 5

abbrev pub sys_open : ℕ
sys_open = 6

abbrev pub sys_filesize : ℕ
sys_filesize = 7

abbrev pub sys_read : ℕ
sys_read = 8

abbrev pub sys_write : ℕ
sys_write = 9

abbrev pub sys_seek : ℕ
sys_seek = 10

abbrev pub sys_tell : ℕ
sys_tell = 11

abbrev pub sys_close : ℕ
sys_close = 12

abbrev pub sys_chdir : ℕ
sys_chdir = 15

abbrev pub sys_mkdir : ℕ
sys_mkdir = 16

abbrev pub sys_readdir : ℕ
sys_readdir = 17

abbrev pub sys_isdir : ℕ
sys_isdir = 18

abbrev pub sys_inumber : ℕ
sys_inumber = 19

-- What the process sees of the machine: its page table, the words of its memory where they are
-- mapped, and the bytes at kernel addresses.
pub record Machine : Type 0 where
  pub page : ℕ → Option ℕ
  pub user_word : ℕ → Option ℕ
  pub memory : ℕ → ℕ

-- The string at a kernel address.
abbrev pub text_at : ℕ → (ℕ → ℕ) → ℕ → Text
text_at zero memory a = []
text_at (suc fuel) memory a =
    let rest = text_at fuel memory (a + 1) in if memory a == 0 then [] else memory a ∷ rest

-- How a system call ends: the kernel halts, the process exits, a program is run or a child waited
-- for, or the call returns, with `eax` if it is set and with bytes stored at a kernel address.
pub data Outcome : Type 0 where
  halts : Outcome
  exits : ℕ → Outcome
  execs : Text → Outcome
  waits_for : ℕ → Outcome
  returns : Option ℕ → Process → Outcome
  stores : ℕ → List ℕ → ℕ → Process → Outcome

abbrev pub word_of : Bool → ℕ
word_of true = 1
word_of false = 0

-- `get_arg (f, &arg[0], n)`, and the rest of the case.
abbrev pub with_args : Machine → ℕ → ℕ → (List ℕ → Result Outcome) → Result Outcome
with_args m esp n next = do
  args ← get_arg m.user_word esp n
  elim args [ none ↦ ok (exits error_word) | some arg ↦ next arg ]

-- `user_to_kernel_ptr`, and the rest of the case.
abbrev pub with_ptr : Machine → ℕ → (ℕ → Result Outcome) → Result Outcome
with_ptr m ptr next = elim (user_to_kernel_ptr m.page ptr) [
  | none ↦ ok (exits error_word)
  | some k ↦ next k
]

-- `check_valid_string` and `user_to_kernel_ptr`, and the rest of the case.
abbrev pub with_string : Machine → ℕ → (ℕ → Result Outcome) → Result Outcome
with_string m ptr next = do
  passes ← check_valid_string m.page m.memory (phys_base + 1) ptr
  if passes then with_ptr m ptr next else ok (exits error_word)

-- `check_valid_buffer` and `user_to_kernel_ptr`, and the rest of the case.
abbrev pub with_buffer : Machine → ℕ → ℕ → (ℕ → Result Outcome) → Result Outcome
with_buffer m ptr size next =
    if check_valid_buffer ptr size then with_ptr m ptr next else ok (exits error_word)

-- The word at a kernel address.
abbrev pub kernel_word : Machine → ℕ → ℕ
kernel_word m a =
    m.memory a + 256 * m.memory (a + 1) + 65536 * m.memory (a + 2) + 16777216 * m.memory (a + 3)

abbrev pub one_of : ℕ → List ℕ → Bool
one_of nr [] = false
one_of nr (n ∷ ns) = (nr == n) || one_of nr ns

abbrev pub name_at : Machine → ℕ → Text
name_at m a = text_at phys_base m.memory a

module _ (bitmap_write : Bitmap → Cache → Result (Bool × Cache)) (uninit : ℕ → ℕ)
    (keys : ℕ → List ℕ) where
  -- The cases of the system calls on paths, from the kernel address of the path on.
  unfoldable pub call_on_path : Bool → List ℕ → Machine → Process → ℕ → ℕ → ℕ → Result Outcome
  unfolding create remove open_file chdir mkdir
  call_on_path mem e0 m p nr a size =
      let flag : Result (Bool × Process) → Result Outcome =
        λ r. (do (done, p') ← r; ok (returns (some (word_of done)) p')) in
      let opened = (do
        (fd, p') ← open_file bitmap_write uninit mem e0 p (name_at m a)
        ok (returns (some fd) p')) in
      if nr == 2
      then ok (execs (name_at m a))
      else (if nr == 4
          then flag (create bitmap_write uninit mem e0 p (name_at m a) size)
          else (if nr == 5
              then flag (remove bitmap_write uninit mem e0 p (name_at m a))
              else (if nr == 6
                  then opened
                  else (if nr == 15
                      then flag (chdir bitmap_write uninit mem e0 p (name_at m a))
                      else flag (mkdir bitmap_write uninit mem e0 p (name_at m a))))))

  -- The cases of the system calls on a file descriptor alone.
  unfoldable pub call_on_fd : Process → ℕ → ℕ → Result Outcome
  unfolding filesize tell isdir inumber process_close_file
  call_on_fd p nr fd =
      let size = (do n ← filesize p fd; ok (returns (some n) p)) in
      let close = (do p' ← process_close_file bitmap_write uninit p fd; ok (returns none p')) in
      if nr == 7
      then size
      else (if nr == 10
          then ok (returns (some (tell p fd)) p)
          else (if nr == 12
              then close
              else (if nr == 18
                  then ok (returns (some (word_of (isdir p fd))) p)
                  else ok (returns (some (inumber p fd)) p))))

  -- The system calls `read`, `write` and `readdir`, from the kernel address of the buffer on.
  unfoldable pub call_on_buffer : Bool → List ℕ → Machine → Process → ℕ → ℕ → ℕ → ℕ → Result Outcome
  unfolding read write readdir copy_out
  call_on_buffer mem e0 m p nr fd a size =
      let reading = (do (n, bytes, p') ← read keys mem p fd size; ok (stores a bytes n p')) in
      let writing = (do
        (n, p') ← write bitmap_write uninit mem p fd (copy_out m.memory a size)
        ok (returns (some n) p')) in
      let listing = (do
        (name, p') ← readdir mem e0 p fd
        ok (elim name [
          | none ↦ returns (some 0) p'
          | some text ↦ stores a (text ++ (0 ∷ [])) 1 p'
        ])) in
      if nr == sys_read then reading else (if nr == sys_write then writing else listing)

  -- The cases of `syscall_handler`; a number that is none of them does nothing.
  unfoldable pub call : Bool → List ℕ → Machine → Process → ℕ → ℕ → Result Outcome
  unfolding call_on_path call_on_fd call_on_buffer seek check_valid_buffer
  call mem e0 m p esp nr =
      let arg : List ℕ → ℕ → ℕ = λ args i. get_or args i 0 in
      let on_path : ℕ → Result Outcome = λ n.
        with_args m esp n
          (λ args. with_string m (arg args 0) (λ a. call_on_path mem e0 m p nr a (arg args 1))) in
      let on_fd = with_args m esp 1 (λ args. call_on_fd p nr (arg args 0)) in
      let on_buffer = with_args m esp 3 (λ args.
        with_buffer m (arg args 1) (arg args 2)
          (λ a. call_on_buffer mem e0 m p nr (arg args 0) a (arg args 2))) in
      let listing =
        with_args m esp 2 (λ args.
          with_string m (arg args 1) (λ a. call_on_buffer mem e0 m p nr (arg args 0) a 0)) in
      let seeking =
        with_args m esp 2
          (λ args. (do p' ← seek p (arg args 0) (arg args 1); ok (returns none p'))) in
      if nr == sys_halt
      then ok halts
      else (if nr == sys_exit
          then with_args m esp 1 (λ args. ok (exits (arg args 0)))
          else (if nr == sys_wait
              then with_args m esp 1 (λ args. ok (waits_for (arg args 0)))
              else (if nr == sys_create
                  then on_path 2
                  else (if nr == sys_seek
                      then seeking
                      else (if nr == sys_readdir
                          then listing
                          else (if (nr == sys_read) || (nr == sys_write)
                              then on_buffer
                              else (if one_of nr
                                    (sys_exec ∷ sys_remove ∷ sys_open ∷ sys_chdir ∷ sys_mkdir ∷ [])
                                  then on_path 1
                                  else (if one_of nr (
                                        sys_filesize ∷ sys_tell ∷ sys_close ∷ sys_isdir
                                        ∷ sys_inumber ∷ [])
                                      then on_fd
                                      else ok (returns none p)))))))))

  -- `syscall_handler`
  unfoldable pub syscall_handler : Bool → List ℕ → Machine → Process → ℕ → Result Outcome
  unfolding user_to_kernel_ptr call
  syscall_handler mem e0 m p esp = with_ptr m esp (λ k. call mem e0 m p esp (kernel_word m k))
