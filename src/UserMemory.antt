-- ===== src/UserMemory.antt =====
-- The checks of userprog/syscall.c on pointers that a user program passes.  An address is a word of
-- 32 bits; `exit (ERROR)`, which ends the process, is `none` or `false` here.
pub mod Checks
use os_labratory_spring.Prelude.{
  ℕ, zero, suc, ◌+◌, ◌*◌, ◌%◌, ◌^◌, Bool, true, false, ◌&&◌, Option, none, some, List, [], ◌∷◌, ltb,
  leb, ◌==◌, if◌then◌else◌, Result, ok, panic, hang, ◌>>=◌,
}

-- USER_VADDR_BOTTOM and PHYS_BASE: 0x08048000 and 0xc0000000.
abbrev pub user_vaddr_bottom : ℕ
user_vaddr_bottom = 134512640

abbrev pub phys_base : ℕ
phys_base = 3221225472

unfoldable pub is_user_vaddr : ℕ → Bool
is_user_vaddr vaddr = ltb vaddr phys_base

unfoldable pub check_valid_ptr : ℕ → Bool
unfolding is_user_vaddr
check_valid_ptr vaddr = is_user_vaddr vaddr && leb user_vaddr_bottom vaddr

-- `page` is `pagedir_get_page` of the current thread: the kernel address, if the page is mapped.
unfoldable pub user_to_kernel_ptr : (ℕ → Option ℕ) → ℕ → Option ℕ
unfolding check_valid_ptr
user_to_kernel_ptr page vaddr = if check_valid_ptr vaddr then page vaddr else none

-- The loop of `get_arg` from `i` on.  `word_at` reads a word of user memory; where it is not
-- mapped, the page fault is one of the kernel, which panics.
unfoldable pub get_args : (ℕ → Option ℕ) → ℕ → ℕ → ℕ → Result (Option (List ℕ))
unfolding check_valid_ptr
get_args word_at esp i zero = ok (some [])
get_args word_at esp i (suc n) =
    let ptr = (esp + 4 * (i + 1)) % 2 ^ 32 in
    let rest = get_args word_at esp (i + 1) n in
    let go = elim (word_at ptr) as (λ _. Result (Option (List ℕ))) [
      | none ↦ panic
      | some arg ↦ do more ← rest; ok (elim more [ none ↦ none | some args ↦ some (arg ∷ args) ])
    ] in
    if check_valid_ptr ptr then go else ok none

unfoldable pub get_arg : (ℕ → Option ℕ) → ℕ → ℕ → Result (Option (List ℕ))
unfolding get_args
get_arg word_at esp n = get_args word_at esp 0 n

unfoldable pub check_valid_buffer : ℕ → ℕ → Bool
unfolding check_valid_ptr
check_valid_buffer buffer zero = true
check_valid_buffer buffer (suc size) =
    check_valid_ptr buffer && check_valid_buffer ((buffer + 1) % 2 ^ 32) size

-- `check_valid_string`, where `memory` are the bytes at kernel addresses.
unfoldable pub check_valid_string : (ℕ → Option ℕ) → (ℕ → ℕ) → ℕ → ℕ → Result Bool
unfolding user_to_kernel_ptr
check_valid_string page memory zero str = hang
check_valid_string page memory (suc fuel) str =
    let rest = check_valid_string page memory fuel ((str + 1) % 2 ^ 32) in
    elim (user_to_kernel_ptr page str) [
      | none ↦ ok false
      | some ptr ↦ if memory ptr == 0 then ok true else rest
    ]
