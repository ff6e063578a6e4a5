-- ===== src/Text/Split.antt =====
-- The tokens that calls of `strtok_r` find one after another in a path.
use os_labratory_spring.Prelude.{
  ℕ, suc, ◌≤◌, ◌<◌, ◌≡◌, refl, ap, sym, ◌∙◌, ◌⊎◌, inl, inr, false, none, some, List, [], ◌∷◌,
  length, ◌==◌, if◌then◌else◌, arith, Bool-cases,
}
use os_labratory_spring.Text.{Text, strchr, skip_delimiters, token, strtok_r}

-- "/"
abbrev pub slash : Text
slash = 47 ∷ []

-- A component in front of others; the empty one is none.
abbrev pub add_word : Text → List Text → List Text
add_word [] ws = ws
add_word (c ∷ w) ws = (c ∷ w) ∷ ws

-- The bytes up to the first separator `d`, and the components behind it.
abbrev pub parts : ℕ → Text → Text × List Text
parts d [] = ([], [])
parts d (c ∷ cs) =
    let rest = parts d cs in
    if c == d then ([], add_word (rest.0) (rest.1)) else (c ∷ rest.0, rest.1)

-- The components of a string: the longest runs of bytes that are not the separator.
abbrev pub components : ℕ → Text → List Text
components d s = add_word ((parts d s).0) ((parts d s).1)

strchr-byte : (d c : ℕ) → strchr (d ∷ []) c ≡ (c == d)
unfolding strchr
strchr-byte d c = ground arith

token-parts :
    (d : ℕ) (s : Text)
    → ((token (d ∷ []) s).0 ≡ (parts d s).0)
      × (components d ((token (d ∷ []) s).1) ≡ (parts d s).1)
      × (length ((token (d ∷ []) s).1) ≤ length s)
unfolding token
token-parts d [] = (refl, refl, omega arith)
token-parts d (c ∷ cs) = elim (Bool-cases (c == d)) [
  | inl e ↦ rw (strchr-byte d c, e) (refl, refl, omega arith)
  | inr e ↦
      let (first, rest, less) = token-parts d cs in
      rw (strchr-byte d c, e) (ap (λ (w : Text). c ∷ w) first, rest, omega arith)
]

skip-byte : (d c : ℕ) (cs : Text) → (c == d) ≡ false → skip_delimiters (d ∷ []) (c ∷ cs) ≡ c ∷ cs
unfolding skip_delimiters
skip-byte d c cs e = rw (strchr-byte d c, e) refl

components-skip : (d : ℕ) (s : Text) → components d (skip_delimiters (d ∷ []) s) ≡ components d s
unfolding skip_delimiters
components-skip d [] = refl
components-skip d (c ∷ cs) = elim (Bool-cases (c == d)) [
  | inl e ↦ rw (strchr-byte d c, e) (components-skip d cs)
  | inr e ↦ ap (components d) (skip-byte d c cs e)
]

length-skip : (d : ℕ) (s : Text) → length (skip_delimiters (d ∷ []) s) ≤ length s
unfolding skip_delimiters
length-skip d [] = omega arith
length-skip d (c ∷ cs) = elim (Bool-cases (c == d)) [
  | inl e ↦ rw (strchr-byte d c, e) (omega (arith, length-skip d cs))
  | inr e ↦ rw (strchr-byte d c, e) (omega arith)
]

-- Behind the separators there is nothing, or a byte of a component.
skip-cases :
    (d : ℕ) (s : Text)
    → (skip_delimiters (d ∷ []) s ≡ [])
      ⊎ ((c : ℕ) × (cs : Text) × (skip_delimiters (d ∷ []) s ≡ c ∷ cs) × ((c == d) ≡ false))
unfolding skip_delimiters
skip-cases d [] = inl refl
skip-cases d (c ∷ cs) = elim (Bool-cases (c == d)) [
  | inl e ↦ rw (strchr-byte d c, e) (skip-cases d cs)
  | inr e ↦ inr (c, cs, rw (strchr-byte d c, e) refl, e)
]

-- A token is the first of the components, and what is left has the others.
token-component :
    (d c : ℕ) (cs : Text)
    → (c == d) ≡ false
    → (components d (c ∷ cs)
        ≡ (token (d ∷ []) (c ∷ cs)).0 ∷ components d ((token (d ∷ []) (c ∷ cs)).1))
      × (length ((token (d ∷ []) (c ∷ cs)).1) ≤ length cs)
unfolding token
token-component d c cs e =
    let (first, rest, less) = token-parts d cs in rw (strchr-byte d c, e, first, rest) (refl, less)

-- What a call of `strtok_r` finds: the first of the components, or that there is none.
pub strtok_r-cases :
    (d : ℕ) (s : Text)
    → ((strtok_r s (d ∷ []) ≡ none) × (components d s ≡ []))
      ⊎ ((found : Text) × (rest : Text) × (strtok_r s (d ∷ []) ≡ some (found, rest))
          × (components d s ≡ found ∷ components d rest)
          × (length rest < length s))
unfolding strtok_r
strtok_r-cases d s = elim (skip-cases d s) [
  | inl e ↦ inl (rw e refl, sym (components-skip d s) ∙ ap (components d) e)
  | inr (c, cs, e, ne) ↦
      let (split, less) = token-component d c cs ne in
      let size : suc (length cs) ≤ length s =
        omega (arith, length-skip d s, ap (length {A = ℕ}) e) in
      inr (
        (token (d ∷ []) (c ∷ cs)).0,
        (token (d ∷ []) (c ∷ cs)).1,
        rw e refl,
        sym (components-skip d s) ∙ ap (components d) e ∙ split,
        omega (arith, less, size),
      )
]
