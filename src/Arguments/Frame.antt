-- ===== src/Arguments/Frame.antt =====
-- The frame that `setup_stack` leaves for the new process.
use os_labratory_spring.Prelude.{
  ℕ, zero, suc, ◌+◌, ◌-◌, ◌*◌, ◌%◌, ◌^◌, ◌≤◌, ◌<◌, ◌≡◌, refl, ap, sym, ◌∙◌, subst, leb, true, List,
  [], ◌∷◌, ◌++◌, length, length-append, take, All, Result, ok, ◌>>=◌, arith,
}
use os_labratory_spring.Text.{Text}
use os_labratory_spring.Text.Split.{components}
use os_labratory_spring.Arguments.{
  Stack, push, word_bytes, align, push_argv, push_frame, push_args, setup_stack, page_size, in_page,
}
use os_labratory_spring.Arguments.Bytes.{word_at, push-kept, push-esp, push-word}
use os_labratory_spring.Arguments.Strings.{
  Strings, Strings-kept, length-Strings, size_of, push_args-Pushed,
}
use os_labratory_spring.Arguments.Layout.{
  word_at-kept, Words, Words-kept, Grown, Grown-more, word-Grown, push_argv-Grown, push_argv-Words,
}

length-take_word : (k w : ℕ) → k < 4 → length (take k (word_bytes w)) ≡ k
length-take_word zero w h = refl
length-take_word (suc zero) w h = refl
length-take_word (suc (suc zero)) w h = refl
length-take_word (suc (suc (suc zero))) w h = refl
length-take_word (suc (suc (suc (suc k)))) w h = absurd (omega arith)

align-Grown : (s : Stack) → Grown s (align s) (s.esp % 4)
unfolding align
align-Grown s =
    let len = length-take_word (s.esp % 4) 0 (omega arith) in
    record {
      down = omega (arith, push-esp s (take (s.esp % 4) (word_bytes 0)), len);
      kept = λ x h. push-kept s (take (s.esp % 4) (word_bytes 0)) x (omega (arith, len)) h;
    }

Strings-All :
    (low : ℕ) (memory : ℕ → ℕ) (ts : List Text) (as' : List ℕ)
    → Strings low memory ts as'
    → All (λ w. w < 2 ^ 32) (as' ++ (0 ∷ []))
Strings-All low memory [] [] h = (omega arith, tt)
Strings-All low memory [] (a ∷ as') h = absurd h
Strings-All low memory (t ∷ ts) [] h = absurd h
Strings-All low memory (t ∷ ts) (a ∷ as') (l, b, e, h) = (b, Strings-All low memory ts as' h)

-- What the function `main` of a program finds: a return address, `argc`, `argv`, the pointers with
-- a null pointer behind them, and the strings.
pub record IsFrame (s : Stack) (ts : List Text) : Type 0 where
  pub argv : List ℕ
  pub return_address : word_at s.memory s.esp ≡ 0
  pub argc : word_at s.memory (s.esp + 4) ≡ length ts
  pub argv_at : word_at s.memory (s.esp + 8) ≡ s.esp + 12
  pub pointers : Words s.memory (s.esp + 12) (argv ++ (0 ∷ []))
  pub strings : Strings s.esp s.memory ts argv
  pub aligned : s.esp % 4 ≡ 0

-- The frame from the stacks between the pushes.
stages-IsFrame :
    (s s0 s1 s2 s3 s4 : Stack) (ts : List Text) (argv : List ℕ)
    → Grown s s0 (s.esp % 4)
    → Grown s0 s1 (4 * (length ts + 1))
    → Grown s1 s2 4
    → Grown s2 s3 4
    → Grown s3 s4 4
    → Words s1.memory s1.esp (argv ++ (0 ∷ []))
    → word_at s2.memory s2.esp ≡ s1.esp
    → word_at s3.memory s3.esp ≡ length ts
    → word_at s4.memory s4.esp ≡ 0
    → Strings s.esp s.memory ts argv
    → IsFrame s4 ts × (s.esp ≤ s4.esp + 4 * length ts + 19)
stages-IsFrame s s0 s1 s2 s3 s4 ts argv g0 g1 g2 g3 g4 w1 w2 w3 w4 h =
    let g34 = Grown-more g3 g4 in
    let g24 = Grown-more g2 g34 in
    let all = Grown-more g0 (Grown-more g1 g24) in
    let at2 : s4.esp + 8 ≡ s2.esp = omega (arith, g34.down) in
    let at1 : s4.esp + 12 ≡ s1.esp = omega (arith, g24.down) in
    (
      record {
        argv = argv;
        return_address = w4;
        argc =
            ap (λ (a : ℕ). word_at s4.memory a) g4.down
            ∙ word_at-kept s3.memory s4.memory s3.esp s3.esp (omega arith) g4.kept
            ∙ w3;
        argv_at =
            ap (λ (a : ℕ). word_at s4.memory a) at2
            ∙ word_at-kept s2.memory s4.memory s2.esp s2.esp (omega arith) g34.kept
            ∙ w2
            ∙ sym at1;
        pointers =
            subst (λ (a : ℕ). Words s4.memory a (argv ++ (0 ∷ []))) (sym at1)
              (Words-kept s1.memory s4.memory s1.esp s1.esp (argv ++ (0 ∷ [])) (omega arith)
                g24.kept w1);
        strings =
            Strings-kept s.esp s4.esp s.memory s4.memory ts argv (omega (arith, all.down)) all.kept
              h;
        aligned = omega (arith, all.down);
      },
      omega (arith, all.down),
    )

push_frame-IsFrame :
    (s : Stack) (ts : List Text) (argv : List ℕ)
    → Strings s.esp s.memory ts argv
    → 4 * length ts + 19 ≤ s.esp
    → s.esp ≤ 2 ^ 32
    → IsFrame (push_frame s argv) ts × (s.esp ≤ (push_frame s argv).esp + 4 * length ts + 19)
unfolding push_frame
push_frame-IsFrame s ts argv h fits small =
    let n = length-Strings s.esp s.memory ts argv h in
    let len : length (argv ++ (0 ∷ [])) ≡ length ts + 1 =
      length-append argv (0 ∷ []) ∙ omega (arith, n) in
    let s0 = align s in
    let g0 = align-Grown s in
    let s1 = push_argv s0 (argv ++ (0 ∷ [])) in
    let room : 4 * length (argv ++ (0 ∷ [])) ≤ s0.esp = omega (arith, len, g0.down) in
    let g1 : Grown s0 s1 (4 * (length ts + 1)) =
      subst (λ (k : ℕ). Grown s0 s1 (4 * k)) len (push_argv-Grown s0 (argv ++ (0 ∷ [])) room) in
    let s2 = push s1 (word_bytes s1.esp) in
    let g2 = word-Grown s1 s1.esp (omega (arith, g0.down, g1.down)) in
    let s3 = push s2 (word_bytes (length argv)) in
    let g3 = word-Grown s2 (length argv) (omega (arith, g0.down, g1.down, g2.down)) in
    let s4 = push s3 (word_bytes 0) in
    let g4 = word-Grown s3 0 (omega (arith, g0.down, g1.down, g2.down, g3.down)) in
    stages-IsFrame s s0 s1 s2 s3 s4 ts argv g0 g1 g2 g3 g4
      (push_argv-Words s0 (argv ++ (0 ∷ [])) room (Strings-All s.esp s.memory ts argv h))
      (push-word s1 s1.esp (omega (arith, g0.down, g1.down)))
      (push-word s2 (length argv) (omega (arith, n)) ∙ n) (push-word s3 0 (omega arith)) h

in_page-ok :
    (phys_base : ℕ) (s : Stack) → phys_base - page_size ≤ s.esp → in_page phys_base s ≡ ok s
in_page-ok phys_base s h =
    let e : leb (phys_base - page_size) s.esp ≡ true = ground arith in rw e refl

setup_stack-run :
    (memory : ℕ → ℕ) (phys_base : ℕ) (file_name rest : Text) (s : Stack) (argv : List ℕ)
    → push_args (length rest + 1) (record { memory = memory; esp = phys_base }) file_name rest
      ≡ ok (s, argv)
    → phys_base - page_size ≤ (push_frame s argv).esp
    → setup_stack memory phys_base file_name rest ≡ ok (push_frame s argv)
unfolding setup_stack
setup_stack-run memory phys_base file_name rest s argv run inside =
    ap (λ (r : Result (Stack × List ℕ)). r >>= λ x. in_page phys_base (push_frame x.0 x.1)) run
    ∙ in_page-ok phys_base (push_frame s argv) inside

-- For a command line whose strings and pointers fit in a page, `setup_stack` ends without a fault,
-- and the new process finds the number of words, their addresses and the words of the command line
-- as its arguments, on an aligned stack.
pub setup_stack-IsFrame :
    (memory : ℕ → ℕ) (phys_base : ℕ) (file_name rest : Text)
    → size_of (file_name ∷ components 32 rest) + 4 * length (file_name ∷ components 32 rest) + 19
      ≤ page_size
    → page_size ≤ phys_base
    → phys_base ≤ 2 ^ 32
    → (s : Stack) × (setup_stack memory phys_base file_name rest ≡ ok s)
      × IsFrame s (file_name ∷ components 32 rest)
setup_stack-IsFrame memory phys_base file_name rest fits page small =
    let (s, argv, run, pushed) =
      push_args-Pushed (length rest + 1) (record { memory = memory; esp = phys_base }) file_name
        rest (components 32 rest) refl (omega arith) (omega arith) small in
    let (frame, down) =
      push_frame-IsFrame s (file_name ∷ components 32 rest) argv pushed.strings
        (omega (arith, pushed.down)) (omega (arith, pushed.down)) in
    (
      push_frame s argv,
      setup_stack-run memory phys_base file_name rest s argv run (omega (arith, pushed.down, down)),
      frame,
    )
