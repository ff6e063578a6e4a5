-- ===== src/Text/Compare.antt =====
-- `strcmp` tells whether two strings are equal.
use os_labratory_spring.Prelude.{
  ◌≢◌, ◌∙◌, sym, dec_lt, ℕ_discrete, ℕ, ◌≡◌, refl, true, false, [], ◌∷◌, arith,
}
use Prim.Native.Nat.{compare, Ordering}
use os_labratory_spring.Text.{Text, strcmp, same_text}

same_text-cons : (a b : ℕ) (as' bs : Text) → a ≡ b → same_text (a ∷ as') (b ∷ bs) ≡ same_text as' bs
unfolding same_text strcmp
same_text-cons a b as' bs h =
    let e : compare a b ≡ Ordering.eq = ground arith in rw (same_text, e) refl

same_text-ne : (a b : ℕ) (as' bs : Text) → a ≢ b → same_text (a ∷ as') (b ∷ bs) ≡ false
unfolding same_text strcmp
same_text-ne a b as' bs h = elim (dec_lt a b) [
  | yes lt ↦ let e : compare a b ≡ Ordering.lt = ground arith in rw (same_text, e) refl
  | no ge ↦ let e : compare a b ≡ Ordering.gt = ground arith in rw (same_text, e) refl
]

pub same_text_refl : (a : Text) → same_text a a ≡ true
unfolding same_text strcmp
same_text_refl [] = refl
same_text_refl (c ∷ cs) = same_text-cons c c cs cs refl ∙ same_text_refl cs

pub eq_of_same_text : (a b : Text) → same_text a b ≡ true → a ≡ b
unfolding same_text strcmp
eq_of_same_text [] [] h = refl
eq_of_same_text [] (b ∷ bs) h = absurd cc
eq_of_same_text (a ∷ as') [] h = absurd cc
eq_of_same_text (a ∷ as') (b ∷ bs) h = elim (ℕ_discrete a b) [
  | yes e ↦ let rest = eq_of_same_text as' bs (sym (same_text-cons a b as' bs e) ∙ h) in cc
  | no ne ↦ absurd (let refused = same_text-ne a b as' bs ne in cc)
]
