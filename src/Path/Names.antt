-- ===== src/Path/Names.antt =====
-- The loops of filesys/filesys.c over a path, by the components of the path.
use os_labratory_spring.Prelude.{
  ℕ, zero, suc, ◌+◌, ◌<◌, ◌≡◌, refl, ap, sym, ◌∙◌, inl, inr, Bool, true, false, Option, none, some,
  List, [], ◌∷◌, length, if◌then◌else◌, Result, ok, ◌>>=◌, bind-ext, arith,
}
use os_labratory_spring.Bitmap.{Bitmap}
use os_labratory_spring.Cache.{Cache}
use os_labratory_spring.Text.{Text}
use os_labratory_spring.Text.Split.{components, strtok_r-cases}
use os_labratory_spring.Fs.{Fs}
use os_labratory_spring.Dir.{Dir}
use os_labratory_spring.Path.{last_token, get_filename, enter, walk, start, get_containing_dir}

-- The last of a list, or `prev`.
abbrev pub last_or : Text → List Text → Text
last_or prev [] = prev
last_or prev (w ∷ ws) = last_or w ws

last_token-last_or :
    (fuel : ℕ) (s prev : Text)
    → length s < fuel
    → last_token fuel s prev ≡ ok (last_or prev (components 47 s))
unfolding last_token
last_token-last_or zero s prev h = absurd (omega arith)
last_token-last_or (suc fuel) s prev h = elim (strtok_r-cases 47 s) [
  | inl (e, none_left) ↦
      ap
        (λ (o : Option (Text × Text)). elim o [ none ↦ ok prev | some t ↦ last_token fuel t.1 t.0 ])
        e
      ∙ ap (λ (ws : List Text). ok (last_or prev ws)) (sym none_left)
  | inr (found, rest, e, split, less) ↦
      ap
        (λ (o : Option (Text × Text)). elim o [ none ↦ ok prev | some t ↦ last_token fuel t.1 t.0 ])
        e
      ∙ last_token-last_or fuel rest found (omega arith)
      ∙ ap (λ (ws : List Text). ok (last_or prev ws)) (sym split)
]

-- Where `malloc` finds room, `get_filename` of a path is the last of its components, and the
-- empty string if the path has none.
pub get_filename-components :
    (path : Text) → get_filename true path ≡ ok (last_or [] (components 47 path))
unfolding get_filename
get_filename-components path = rw (last_token-last_or (length path + 1) path [] (omega arith)) refl

module _ (bitmap_write : Bitmap → Cache → Result (Bool × Cache)) (uninit : ℕ → ℕ) where
  -- All names but the last are entered, one after another, up to one that is not found.
  abbrev pub enter_all :
      Bool → List ℕ → Fs → Option Dir → Text → List Text → Result (Option Dir × Fs)
  enter_all mem e0 fs dir name [] = ok (dir, fs)
  enter_all mem e0 fs dir name (next ∷ names) = do
    (on, dir', fs') ← enter bitmap_write uninit mem e0 fs dir name
    let more = enter_all mem e0 fs' dir' next names
    if on then more else ok (none, fs')

  abbrev pub enter_names : Bool → List ℕ → Fs → Option Dir → List Text → Result (Option Dir × Fs)
  enter_names mem e0 fs dir [] = ok (dir, fs)
  enter_names mem e0 fs dir (name ∷ names) = enter_all mem e0 fs dir name names

  -- A round of the loop, by what `strtok_r` gives.
  abbrev walk_round :
      ℕ → Bool → List ℕ → Fs → Option Dir → Text → Option (Text × Text) → Result (Option Dir × Fs)
  walk_round fuel mem e0 fs dir name none = ok (dir, fs)
  walk_round fuel mem e0 fs dir name (some next) = do
    (on, dir', fs') ← enter bitmap_write uninit mem e0 fs dir name
    let more = walk bitmap_write uninit fuel mem e0 fs' dir' next.0 next.1
    if on then more else ok (none, fs')

  -- The rounds are enough: the loop enters all components but the last.
  walk-enter_all :
      (fuel : ℕ) (mem : Bool) (e0 : List ℕ) (fs : Fs) (dir : Option Dir) (name rest : Text)
      → length rest < fuel
      → walk bitmap_write uninit fuel mem e0 fs dir name rest
        ≡ enter_all mem e0 fs dir name (components 47 rest)
  unfolding walk
  walk-enter_all zero mem e0 fs dir name rest h = absurd (omega arith)
  walk-enter_all (suc fuel) mem e0 fs dir name rest h = elim (strtok_r-cases 47 rest) [
    | inl (e, none_left) ↦
        ap (λ (o : Option (Text × Text)). walk_round fuel mem e0 fs dir name o) e
        ∙ ap (λ (ws : List Text). enter_all mem e0 fs dir name ws) (sym none_left)
    | inr (next, rest', e, split, less) ↦
        ap (λ (o : Option (Text × Text)). walk_round fuel mem e0 fs dir name o) e
        ∙ bind-ext (enter bitmap_write uninit mem e0 fs dir name)
            (λ x.
              if x.0
              then walk bitmap_write uninit fuel mem e0 x.2 x.1 next rest'
              else ok (none, x.2))
            (λ x.
              if x.0 then enter_all mem e0 x.2 x.1 next (components 47 rest') else ok (none, x.2))
            (λ x.
              ap (λ (more : Result (Option Dir × Fs)). if x.0 then more else ok (none, x.2))
                (walk-enter_all fuel mem e0 x.2 x.1 next rest' (omega arith)))
        ∙ ap (λ (ws : List Text). enter_all mem e0 fs dir name ws) (sym split)
  ]

  -- The loop, by what the first call of `strtok_r` gives.
  abbrev walk_from :
      Bool → List ℕ → Option (Text × Text) → Option Dir × Fs → Result (Option Dir × Fs)
  walk_from mem e0 o x = elim o [
    | none ↦ ok (x.0, x.1)
    | some t ↦ walk bitmap_write uninit (length t.1 + 1) mem e0 x.1 x.0 t.0 t.1
  ]

  -- The rounds of the loop of `get_containing_dir` are enough: what it returns is what entering the
  -- components of the path but the last returns, up to one that is not found.
  pub get_containing_dir-enter_names :
      (mem : Bool) (e0 : List ℕ) (fs : Fs) (cwd : Option Dir) (path : Text)
      → get_containing_dir bitmap_write uninit mem e0 fs cwd path ≡ (do
        (dir, fs') ← start bitmap_write uninit mem fs cwd path
        enter_names mem e0 fs' dir (components 47 path))
  unfolding get_containing_dir
  get_containing_dir-enter_names mem e0 fs cwd path = elim (strtok_r-cases 47 path) [
    | inl (e, none_left) ↦
        ap
          (λ (o : Option (Text × Text)).
            start bitmap_write uninit mem fs cwd path >>= walk_from mem e0 o)
          e
        ∙ ap
            (λ (ws : List Text).
              start bitmap_write uninit mem fs cwd path >>= λ x. enter_names mem e0 x.1 x.0 ws)
            (sym none_left)
    | inr (name, rest, e, split, less) ↦
        ap
          (λ (o : Option (Text × Text)).
            start bitmap_write uninit mem fs cwd path >>= walk_from mem e0 o)
          e
        ∙ bind-ext (start bitmap_write uninit mem fs cwd path)
            (walk_from mem e0 (some (name, rest)))
            (λ x. enter_all mem e0 x.1 x.0 name (components 47 rest))
            (λ x. walk-enter_all (length rest + 1) mem e0 x.1 x.0 name rest (omega arith))
        ∙ ap
            (λ (ws : List Text).
              start bitmap_write uninit mem fs cwd path >>= λ x. enter_names mem e0 x.1 x.0 ws)
            (sym split)
  ]

  -- Where the components of a path lead from a directory: into one after another but the last, or
  -- nowhere, at the first that is not found.
  pub data Walk (mem : Bool) (e0 : List ℕ)
      : Fs → Option Dir → List Text → Option Dir → Fs → Type 0 where
    no_name : {fs : Fs} {dir : Option Dir} → Walk mem e0 fs dir [] dir fs
    last_name : {fs : Fs} {dir : Option Dir} {name : Text} → Walk mem e0 fs dir (name ∷ []) dir fs
    enters :
        {fs fs1 fs' : Fs} {dir dir1 dir' : Option Dir} {name next : Text} {names : List Text}
        → enter bitmap_write uninit mem e0 fs dir name ≡ ok (true, dir1, fs1)
        → Walk mem e0 fs1 dir1 (next ∷ names) dir' fs'
        → Walk mem e0 fs dir (name ∷ next ∷ names) dir' fs'
    misses :
        {fs fs1 : Fs} {dir dir1 : Option Dir} {name next : Text} {names : List Text}
        → enter bitmap_write uninit mem e0 fs dir name ≡ ok (false, dir1, fs1)
        → Walk mem e0 fs dir (name ∷ next ∷ names) none fs1
