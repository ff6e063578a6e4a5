-- ===== src/Synch/Moves.antt =====
-- What a call to a lock does to the lock, and that a call to another leaves it.
use os_labratory_spring.Prelude.{
  ℕ, suc, ◌+◌, ◌-◌, ◌%◌, ◌^◌, ◌≡◌, refl, sym, ap, ◌∙◌, inl, inr, true, false, List, [], ◌∷◌, ◌++◌,
  ◌==◌, arith, Bool-cases,
}
use os_labratory_spring.Threads.{assign, list_remove, count}
use os_labratory_spring.Threads.Rounds.{assign_self}
use os_labratory_spring.Synch.{Call}
use os_labratory_spring.Synch.Phases.{
  Phase, out, got, held, inside, dropped, unlinked, is_free, linked, is_owner, after_down,
  after_hold, after_link, after_forget, after_unlink, after_up, Fits, Token, at_rest, taken,
  assign_cases,
}

-- The phase that a call to the lock starts in.
pub from_down : (l : ℕ) (q : Phase) (cs : List Call) → Fits l (after_down q) cs → q ≡ out
from_down l out cs h = refl
from_down l got cs h = absurd h
from_down l held cs h = absurd h
from_down l inside cs h = absurd h
from_down l dropped cs h = absurd h
from_down l unlinked cs h = absurd h

pub from_hold : (l : ℕ) (q : Phase) (cs : List Call) → Fits l (after_hold q) cs → q ≡ got
from_hold l out cs h = absurd h
from_hold l got cs h = refl
from_hold l held cs h = absurd h
from_hold l inside cs h = absurd h
from_hold l dropped cs h = absurd h
from_hold l unlinked cs h = absurd h

pub from_link : (l : ℕ) (q : Phase) (cs : List Call) → Fits l (after_link q) cs → q ≡ held
from_link l out cs h = absurd h
from_link l got cs h = absurd h
from_link l held cs h = refl
from_link l inside cs h = absurd h
from_link l dropped cs h = absurd h
from_link l unlinked cs h = absurd h

pub from_forget : (l : ℕ) (q : Phase) (cs : List Call) → Fits l (after_forget q) cs → q ≡ inside
from_forget l out cs h = absurd h
from_forget l got cs h = absurd h
from_forget l held cs h = absurd h
from_forget l inside cs h = refl
from_forget l dropped cs h = absurd h
from_forget l unlinked cs h = absurd h

pub from_unlink : (l : ℕ) (q : Phase) (cs : List Call) → Fits l (after_unlink q) cs → q ≡ dropped
from_unlink l out cs h = absurd h
from_unlink l got cs h = absurd h
from_unlink l held cs h = absurd h
from_unlink l inside cs h = absurd h
from_unlink l dropped cs h = refl
from_unlink l unlinked cs h = absurd h

pub from_up : (l : ℕ) (q : Phase) (cs : List Call) → Fits l (after_up q) cs → q ≡ unlinked
from_up l out cs h = absurd h
from_up l got cs h = absurd h
from_up l held cs h = absurd h
from_up l inside cs h = absurd h
from_up l dropped cs h = absurd h
from_up l unlinked cs h = refl

-- A thread that has not taken the lock is not its holder and does not have it in its list.
pub free-owner : (q : Phase) → is_free q ≡ true → is_owner q ≡ false
free-owner out h = refl
free-owner got h = absurd cc
free-owner held h = absurd cc
free-owner inside h = absurd cc
free-owner dropped h = absurd cc
free-owner unlinked h = absurd cc

pub free-linked : (q : Phase) → is_free q ≡ true → linked q ≡ 0
free-linked out h = refl
free-linked got h = absurd cc
free-linked held h = absurd cc
free-linked inside h = absurd cc
free-linked dropped h = absurd cc
free-linked unlinked h = absurd cc

pub not_eq : (u t : ℕ) → (u == t) ≡ false → ¬ (u ≡ t)
not_eq u t e = ground (arith, e)

-- One thread at most has taken the lock.
pub others_free :
    {v : ℕ} {ph : ℕ → Phase} (t u : ℕ)
    → Token v ph
    → is_free (ph t) ≡ false
    → (u == t) ≡ false
    → is_free (ph u) ≡ true
others_free t u (at_rest one free) h e = free u
others_free {ph = ph} t u (taken w zero_value at only) h e = elim (Bool-cases (is_free (ph u))) [
  | inl free ↦ free
  | inr busy ↦ absurd (not_eq u t e (only u busy ∙ sym (only t h)))
]

pub Token-take :
    {v : ℕ} {ph : ℕ → Phase} (t : ℕ) (q : Phase)
    → Token v ph
    → (v == 0) ≡ false
    → is_free q ≡ false
    → Token (v - 1) (assign ph t q)
Token-take t q (taken w none_left at only) h f = absurd (ground (arith, h, none_left))
Token-take {ph = ph} t q (at_rest one free) h f =
    taken t (omega (arith, one)) (ap is_free (assign_self ph t q) ∙ f) (
      assign_cases (λ u p. is_free p ≡ false → u ≡ t) ph t q (λ g. refl)
        (λ u e g. absurd (let is = free u in cc)))

pub Token-keep :
    {v : ℕ} {ph : ℕ → Phase} (t : ℕ) (q : Phase)
    → Token v ph
    → is_free (ph t) ≡ false
    → is_free q ≡ false
    → Token v (assign ph t q)
Token-keep t q (at_rest one free) h f = absurd (let is = free t in cc)
Token-keep {ph = ph} t q (taken w none_left at only) h f =
    taken t none_left (ap is_free (assign_self ph t q) ∙ f) (
      assign_cases (λ u p. is_free p ≡ false → u ≡ t) ph t q (λ g. refl)
        (λ u e g. only u g ∙ sym (only t h)))

pub Token-give :
    {v : ℕ} {ph : ℕ → Phase} (t : ℕ) (q : Phase)
    → Token v ph
    → is_free (ph t) ≡ false
    → is_free q ≡ true
    → Token ((v + 1) % 2 ^ 32) (assign ph t q)
Token-give t q (at_rest one free) h f = absurd (let is = free t in cc)
Token-give {ph = ph} t q (taken w none_left at only) h f =
    at_rest (ap (λ n. (n + 1) % 2 ^ 32) none_left) (
      assign_cases (λ u p. is_free p ≡ true) ph t q f
        (λ u e. others_free t u (taken w none_left at only) h e))

pub count-push : (l m : ℕ) (ls : List ℕ) → count l (ls ++ (m ∷ [])) ≡ count l ls + count l (m ∷ [])
count-push l m [] = omega arith
count-push l m (x ∷ xs) = elim (Bool-cases (x == l)) [
  | inl e ↦ let h = count-push l m xs in rw e (omega (arith, h))
  | inr e ↦ rw e (count-push l m xs)
]

pub count-remove_self : (l : ℕ) (ls : List ℕ) → count l (list_remove l ls) ≡ count l ls - 1
count-remove_self l [] = refl
count-remove_self l (x ∷ xs) = elim (Bool-cases (x == l)) [
  | inl e ↦ rw e (omega arith)
  | inr e ↦ rw (e, e) (count-remove_self l xs)
]

pub count-remove_other :
    (l m : ℕ) (ls : List ℕ) → (m == l) ≡ false → count l (list_remove m ls) ≡ count l ls
count-remove_other l m [] h = refl
count-remove_other l m (x ∷ xs) h = elim (Bool-cases (x == m)) [
  | inl e ↦ let at : (x == l) ≡ false = ground (arith, h, e) in rw (e, at) refl
  | inr e ↦ elim (Bool-cases (x == l)) [
    | inl f ↦ rw (e, f) (ap suc (count-remove_other l m xs h))
    | inr f ↦ rw (e, f) (count-remove_other l m xs h)
  ]
]
