-- ===== src/Arguments/Strings.antt =====
-- The strings of the arguments on the stack.
use os_labratory_spring.Prelude.{
  ℕ, zero, suc, ◌+◌, ◌^◌, ◌≤◌, ◌<◌, ◌≡◌, refl, ap, sym, ◌∙◌, inl, inr, Option, none, some, List, [],
  ◌∷◌, length, length-append, Result, ok, ◌>>=◌, arith,
}
use os_labratory_spring.Inode.Data.{copy_out}
use os_labratory_spring.Inode.Copy.{copy_out_eq}
use os_labratory_spring.Text.{Text, strtok_r}
use os_labratory_spring.Text.Split.{components, strtok_r-cases}
use os_labratory_spring.Arguments.{Stack, push, string_bytes, push_args, space}
use os_labratory_spring.Arguments.Bytes.{push-kept, push-bytes, push-esp}

-- Each string stands, with its null byte, at its address, at `low` or above.
abbrev pub Strings : ℕ → (ℕ → ℕ) → List Text → List ℕ → Type 0
Strings low memory [] [] = Unit
Strings low memory [] (a ∷ as') = ⊥
Strings low memory (t ∷ ts) [] = ⊥
Strings low memory (t ∷ ts) (a ∷ as') =
    (low ≤ a)
    × (a < 2 ^ 32)
    × (copy_out memory a (length t + 1) ≡ string_bytes t)
    × Strings low memory ts as'

-- The bytes that the strings need.
abbrev pub size_of : List Text → ℕ
size_of [] = 0
size_of (t ∷ ts) = length t + 1 + size_of ts

pub length-Strings :
    (low : ℕ) (memory : ℕ → ℕ) (ts : List Text) (as' : List ℕ)
    → Strings low memory ts as'
    → length as' ≡ length ts
length-Strings low memory [] [] h = refl
length-Strings low memory [] (a ∷ as') h = absurd h
length-Strings low memory (t ∷ ts) [] h = absurd h
length-Strings low memory (t ∷ ts) (a ∷ as') (l, b, e, h) =
    ap suc (length-Strings low memory ts as' h)

-- Writes below the strings.
pub Strings-kept :
    (low low' : ℕ) (memory memory' : ℕ → ℕ) (ts : List Text) (as' : List ℕ)
    → low' ≤ low
    → ((x : ℕ) → low ≤ x → memory' x ≡ memory x)
    → Strings low memory ts as'
    → Strings low' memory' ts as'
Strings-kept low low' memory memory' [] [] le kept h = tt
Strings-kept low low' memory memory' [] (a ∷ as') le kept h = absurd h
Strings-kept low low' memory memory' (t ∷ ts) [] le kept h = absurd h
Strings-kept low low' memory memory' (t ∷ ts) (a ∷ as') le kept (l, b, e, h) = (
  omega arith,
  b,
  copy_out_eq memory' memory a a (length t + 1) (λ k lt. kept (a + k) (omega arith)) ∙ e,
  Strings-kept low low' memory memory' ts as' le kept h,
)

length-string_bytes : (t : Text) → length (string_bytes t) ≡ length t + 1
length-string_bytes t = length-append t (0 ∷ [])

-- The stack after the loop over the arguments.
pub record Pushed (s s' : Stack) (ts : List Text) (argv : List ℕ) : Type 0 where
  pub strings : Strings s'.esp s'.memory ts argv
  pub down : s'.esp + size_of ts ≡ s.esp
  pub kept : (x : ℕ) → s.esp ≤ x → s'.memory x ≡ s.memory x

one-Pushed :
    (s : Stack) (t : Text)
    → length t + 1 ≤ s.esp
    → s.esp ≤ 2 ^ 32
    → Pushed s (push s (string_bytes t)) (t ∷ []) ((push s (string_bytes t)).esp ∷ [])
one-Pushed s t fits small =
    let len = length-string_bytes t in
    let at = push-esp s (string_bytes t) in
    record {
      strings = (
        omega arith,
        omega (arith, at, len),
        ap (λ (n : ℕ). copy_out (push s (string_bytes t)).memory (push s (string_bytes t)).esp n)
              (sym len)
            ∙ push-bytes s (string_bytes t),
        tt,
      );
      down = omega (arith, at, len);
      kept = λ x h. push-kept s (string_bytes t) x (omega (arith, len)) h;
    }

more-Pushed :
    {s s' s'' : Stack} {t : Text} {a : ℕ} {ts : List Text} {argv : List ℕ}
    → Pushed s s' (t ∷ []) (a ∷ [])
    → Pushed s' s'' ts argv
    → Pushed s s'' (t ∷ ts) (a ∷ argv)
more-Pushed {s} {s'} {s''} {t} {a} {ts} {argv} p q =
    let (l, b, e, _) =
      Strings-kept s'.esp s''.esp s'.memory s''.memory (t ∷ []) (a ∷ []) (omega (arith, q.down))
        q.kept p.strings in
    record {
      strings = (l, b, e, q.strings);
      down = omega (arith, p.down, q.down);
      kept = λ x h. q.kept x (omega (arith, p.down)) ∙ p.kept x h;
    }

-- A round of the loop, by what `strtok_r` gives.
abbrev args_round : ℕ → Stack → Text → Option (Text × Text) → Result (Stack × List ℕ)
args_round fuel s token o =
    let s' = push s (string_bytes token) in
    elim o [
      | none ↦ ok (s', s'.esp ∷ [])
      | some next ↦ do (s'', argv) ← push_args fuel s' next.0 next.1; ok (s'', s'.esp ∷ argv)
    ]

push_args-none :
    (fuel : ℕ) (s : Stack) (token rest : Text)
    → strtok_r rest space ≡ none
    → push_args (suc fuel) s token rest
      ≡ ok (push s (string_bytes token), (push s (string_bytes token)).esp ∷ [])
unfolding push_args
push_args-none fuel s token rest e = ap (λ (o : Option (Text × Text)). args_round fuel s token o) e

push_args-some :
    (fuel : ℕ) (s s' : Stack) (argv : List ℕ) (token rest next rest' : Text)
    → strtok_r rest space ≡ some (next, rest')
    → push_args fuel (push s (string_bytes token)) next rest' ≡ ok (s', argv)
    → push_args (suc fuel) s token rest ≡ ok (s', (push s (string_bytes token)).esp ∷ argv)
unfolding push_args
push_args-some fuel s s' argv token rest next rest' e run =
    ap (λ (o : Option (Text × Text)). args_round fuel s token o) e
    ∙ ap
        (λ (r : Result (Stack × List ℕ)).
          r >>= λ x. ok (x.0, (push s (string_bytes token)).esp ∷ x.1))
        run

-- The loop over the arguments, on the words of the command line.
pub push_args-Pushed :
    (fuel : ℕ) (s : Stack) (token rest : Text) (ts : List Text)
    → components 32 rest ≡ ts
    → length rest < fuel
    → size_of (token ∷ ts) ≤ s.esp
    → s.esp ≤ 2 ^ 32
    → (s' : Stack) × (argv : List ℕ) × (push_args fuel s token rest ≡ ok (s', argv))
      × Pushed s s' (token ∷ ts) argv
push_args-Pushed zero s token rest ts same enough fits small = absurd (omega arith)
push_args-Pushed (suc fuel) s token rest [] same enough fits small = elim (strtok_r-cases 32 rest) [
  | inl (e, none_left) ↦ (
    push s (string_bytes token),
    (push s (string_bytes token)).esp ∷ [],
    push_args-none fuel s token rest e,
    one-Pushed s token (omega arith) small,
  )
  | inr (next, rest', e, split, less) ↦ absurd (let both = sym split ∙ same in cc)
]
push_args-Pushed (suc fuel) s token rest (t ∷ ts) same enough fits small =
    elim (strtok_r-cases 32 rest) [
      | inl (e, none_left) ↦ absurd (let both = sym none_left ∙ same in cc)
      | inr (next, rest', e, split, less) ↦
          let both = sym split ∙ same in
          let first : next ≡ t = cc in
          let others : components 32 rest' ≡ ts = cc in
          let one = one-Pushed s token (omega arith) small in
          let (s', argv, run, pushed) =
            push_args-Pushed fuel (push s (string_bytes token)) t rest' ts others (omega arith)
              (omega (arith, one.down)) (omega (arith, one.down)) in
          let run' : push_args fuel (push s (string_bytes token)) next rest' ≡ ok (s', argv) =
            ap (λ (w : Text). push_args fuel (push s (string_bytes token)) w rest') first ∙ run in
          (
            s',
            (push s (string_bytes token)).esp ∷ argv,
            push_args-some fuel s s' argv token rest next rest' e run',
            more-Pushed one pushed,
          )
    ]
