-- ===== src/Arguments/Layout.antt =====
-- The frame that setup_stack leaves.
use os_labratory_spring.Prelude.{
  ℕ, ◌+◌, ◌*◌, ◌^◌, ◌≤◌, ◌<◌, ◌≡◌, refl, ◌∙◌, List, [], ◌∷◌, length, All, arith,
}
use os_labratory_spring.Arguments.{Stack, push, word_bytes, push_argv}
use os_labratory_spring.Arguments.Bytes.{word_at, push-kept, push-esp, push-word}

pub word_at-kept :
    (m m' : ℕ → ℕ) (low a : ℕ)
    → low ≤ a
    → ((x : ℕ) → low ≤ x → m' x ≡ m x)
    → word_at m' a ≡ word_at m a
word_at-kept m m' low a le kept = omega (
  arith,
  kept a le,
  kept (a + 1) (omega arith),
  kept (a + 2) (omega arith),
  kept (a + 3) (omega arith),
)

-- The words of a list from an address on.
abbrev pub Words : (ℕ → ℕ) → ℕ → List ℕ → Type 0
Words m a [] = Unit
Words m a (w ∷ ws) = (word_at m a ≡ w) × Words m (a + 4) ws

pub Words-kept :
    (m m' : ℕ → ℕ) (low a : ℕ) (ws : List ℕ)
    → low ≤ a
    → ((x : ℕ) → low ≤ x → m' x ≡ m x)
    → Words m a ws
    → Words m' a ws
Words-kept m m' low a [] le kept h = tt
Words-kept m m' low a (w ∷ ws) le kept (e, h) =
    (word_at-kept m m' low a le kept ∙ e, Words-kept m m' low (a + 4) ws (omega arith) kept h)

-- A stack that has grown down, with the bytes above as before.
pub record Grown (s s' : Stack) (n : ℕ) : Type 0 where
  pub down : s'.esp + n ≡ s.esp
  pub kept : (x : ℕ) → s.esp ≤ x → s'.memory x ≡ s.memory x

pub Grown-more : {s s' s'' : Stack} {n m : ℕ} → Grown s s' n → Grown s' s'' m → Grown s s'' (n + m)
Grown-more {s} {s'} {s''} {n} {m} g h = record {
  down = omega (arith, g.down, h.down);
  kept = λ x l. h.kept x (omega (arith, g.down)) ∙ g.kept x l;
}

pub word-Grown : (s : Stack) (w : ℕ) → 4 ≤ s.esp → Grown s (push s (word_bytes w)) 4
word-Grown s w fits = record {
  down = omega (arith, push-esp s (word_bytes w));
  kept = λ x h. push-kept s (word_bytes w) x fits h;
}

pub push_argv-Grown :
    (s : Stack) (ws : List ℕ) → 4 * length ws ≤ s.esp → Grown s (push_argv s ws) (4 * length ws)
unfolding push_argv
push_argv-Grown s [] fits = record { down = omega arith; kept = λ x h. refl }
push_argv-Grown s (w ∷ ws) fits =
    let g = push_argv-Grown s ws (omega arith) in
    let h = Grown-more g (word-Grown (push_argv s ws) w (omega (arith, g.down))) in
    record { down = omega (arith, h.down); kept = h.kept }

pub push_argv-Words :
    (s : Stack) (ws : List ℕ)
    → 4 * length ws ≤ s.esp
    → All (λ w. w < 2 ^ 32) ws
    → Words (push_argv s ws).memory (push_argv s ws).esp ws
unfolding push_argv
push_argv-Words s [] fits small = tt
push_argv-Words s (w ∷ ws) fits (lt, small) =
    let t = push_argv s ws in
    let g = push_argv-Grown s ws (omega arith) in
    let h = word-Grown t w (omega (arith, g.down)) in
    let e : (push t (word_bytes w)).esp + 4 ≡ t.esp = h.down in
    (
      push-word t w lt,
      rw e (
          Words-kept t.memory (push t (word_bytes w)).memory t.esp t.esp ws (omega arith) h.kept
            (push_argv-Words s ws (omega arith) small)),
    )
