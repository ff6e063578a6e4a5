-- ===== src/Arguments.antt =====
-- The arguments that `setup_stack` of userprog/process.c puts on the stack of a new process.  The
-- stack is the memory as the process sees it with the stack pointer; only the page below PHYS_BASE
-- is mapped.
pub mod Bytes
pub mod Strings
pub mod Layout
pub mod Frame
use os_labratory_spring.Prelude.{
  ℕ, zero, suc, ◌+◌, ◌-◌, ◌*◌, ◌%◌, Bool, true, false, ◌&&◌, Option, none, some, List, [], ◌∷◌,
  ◌++◌, length, get_or, take, ltb, leb, ◌==◌, if◌then◌else◌, Result, ok, panic, hang, ◌>>=◌,
}
use os_labratory_spring.Words.{byte_of}
use os_labratory_spring.Text.{Text, strtok_r}

pub record Stack : Type 0 where
  pub memory : ℕ → ℕ
  pub esp : ℕ

-- `memcpy (a, bytes, length bytes)`
abbrev pub poke : (ℕ → ℕ) → ℕ → List ℕ → ℕ → ℕ
poke memory a bytes x =
    if leb a x && ltb x (a + length bytes) then get_or bytes (x - a) 0 else memory x

-- `*esp -= length bytes; memcpy (*esp, bytes, length bytes);`
unfoldable pub push : Stack → List ℕ → Stack
push s bytes = let a = s.esp - length bytes in record { memory = poke s.memory a bytes; esp = a }

-- The bytes of a word, and those of a string with its null byte.
abbrev pub word_bytes : ℕ → List ℕ
word_bytes w = byte_of w 0 ∷ byte_of w 1 ∷ byte_of w 2 ∷ byte_of w 3 ∷ []

abbrev pub string_bytes : Text → List ℕ
string_bytes token = token ++ (0 ∷ [])

abbrev pub space : Text
space = 32 ∷ []

-- The loop that pushes the arguments, from `token` on: the stack, and `argv`.  `realloc` of `argv`
-- finds room.
unfoldable pub push_args : ℕ → Stack → Text → Text → Result (Stack × List ℕ)
unfolding push strtok_r
push_args zero s token rest = hang
push_args (suc fuel) s token rest =
    let s' = push s (string_bytes token) in
    elim (strtok_r rest space) [
      | none ↦ ok (s', s'.esp ∷ [])
      | some next ↦ do (s'', argv) ← push_args fuel s' next.0 next.1; ok (s'', s'.esp ∷ argv)
    ]

-- `esp` is aligned to WORD_SIZE; the bytes between are those of `argv[argc]`, which is 0.
unfoldable pub align : Stack → Stack
unfolding push
align s = push s (take (s.esp % 4) (word_bytes 0))

-- The loop that pushes `argv[argc]` to `argv[0]`.
unfoldable pub push_argv : Stack → List ℕ → Stack
unfolding push
push_argv s [] = s
push_argv s (w ∷ ws) = push (push_argv s ws) (word_bytes w)

-- The rest of `setup_stack`: `argv`, `argc` and the return address, which is `argv[argc]`.
unfoldable pub push_frame : Stack → List ℕ → Stack
unfolding align push_argv push
push_frame s argv =
    let s1 = push_argv (align s) (argv ++ (0 ∷ [])) in
    let s2 = push s1 (word_bytes s1.esp) in push (push s2 (word_bytes (length argv))) (word_bytes 0)

-- PGSIZE
abbrev pub page_size : ℕ
page_size = 4096

-- A write below the page is a fault; the pointer only goes down, so that where it ends tells.
abbrev pub in_page : ℕ → Stack → Result Stack
in_page phys_base s = if leb (phys_base - page_size) s.esp then ok s else panic

-- `setup_stack` once the page is mapped, for the name of the program and what is left of the
-- command line behind it.
unfoldable pub setup_stack : (ℕ → ℕ) → ℕ → Text → Text → Result Stack
unfolding push_args push_frame
setup_stack memory phys_base file_name rest = do
  (s, argv) ←
      push_args (length rest + 1) (record { memory = memory; esp = phys_base }) file_name rest
  in_page phys_base (push_frame s argv)
