-- ===== src/Synch/Locks.antt =====
-- What holds of a lock in all runs behind `lock_init`.
use os_labratory_spring.Prelude.{
  ℕ, ◌<◌, ◌≡◌, refl, sym, subst, ap, ◌∙◌, ◌⊎◌, inl, inr, true, false, none, some, [], arith,
}
use os_labratory_spring.Threads.{count}
use os_labratory_spring.Synch.{of_lock, Kernel, is_holder, lock_init}
use os_labratory_spring.Synch.Machine.{Reaches}
use os_labratory_spring.Synch.Phases.{
  Phase, out, got, held, inside, dropped, unlinked, is_free, linked, is_owner, Fits, Token, at_rest,
  taken,
}
use os_labratory_spring.Synch.Runs.{settled-cases, Reaches-Safe, IsStart, IsStart-Safe}

-- The lock `l` is in the list of the locks of `t`.
abbrev pub HasLock : ℕ → Kernel → ℕ → Type 0
HasLock l k t = 0 < count l (k.lock_list t)

linked-busy : (q : Phase) → 0 < linked q → is_free q ≡ false
linked-busy out h = absurd (omega arith)
linked-busy got h = refl
linked-busy held h = refl
linked-busy inside h = refl
linked-busy dropped h = refl
linked-busy unlinked h = refl

taken_by_one :
    {v : ℕ} {ph : ℕ → Phase} (t u : ℕ)
    → Token v ph
    → is_free (ph t) ≡ false
    → is_free (ph u) ≡ false
    → t ≡ u
taken_by_one t u (at_rest one free) h k = absurd (let is = free t in cc)
taken_by_one t u (taken w none_left at only) h k = only t h ∙ sym (only u k)

-- In every order of the steps that threads take behind `lock_init`, two threads that both have the
-- lock in their lists are one: between the end of `lock_acquire` and `lock_release`, a thread is
-- alone with the lock.
pub lock_acquire-exclusive :
    (l t u : ℕ) (k k' : Kernel)
    → IsStart l k
    → Reaches (lock_init l k) k'
    → HasLock l k' t
    → HasLock l k' u
    → t ≡ u
lock_acquire-exclusive l t u k k' h r a b =
    let s = Reaches-Safe r (IsStart-Safe l k h) in
    let g = s.1 in
    taken_by_one t u g.token (linked-busy ((s.0) t) (subst (λ (n : ℕ). 0 < n) (g.links t) a))
      (linked-busy ((s.0) u) (subst (λ (n : ℕ). 0 < n) (g.links u) b))

-- A thread that is in no call has the lock in its list once if it is the holder, and else not.
holder-linked :
    (l : ℕ) (q : Phase)
    → Fits l (some q) []
    → ((is_owner q ≡ true) × (linked q ≡ 1)) ⊎ ((is_owner q ≡ false) × (linked q ≡ 0))
holder-linked l q f = elim (settled-cases l q f) [
  | inl e ↦ inr (ap is_owner e, ap linked e)
  | inr e ↦ inl (ap is_owner e, ap linked e)
]

-- In every state that steps lead to behind `lock_init`, for a thread that is in no call, the test of
-- `lock_held_by_current_thread` and the list of the locks of the thread agree: either the thread is
-- the holder and the lock is in its list exactly once, or neither.
pub holder-lock_list :
    (l t : ℕ) (k k' : Kernel)
    → IsStart l k
    → Reaches (lock_init l k) k'
    → k'.todo t ≡ []
    → ((is_holder t (k'.holder l) ≡ true) × (count l (k'.lock_list t) ≡ 1))
      ⊎ ((is_holder t (k'.holder l) ≡ false) × (count l (k'.lock_list t) ≡ 0))
holder-lock_list l t k k' h r e =
    let s = Reaches-Safe r (IsStart-Safe l k h) in
    let g = s.1 in
    elim (holder-linked l ((s.0) t) (subst (Fits l (some ((s.0) t))) e (g.fits t))) [
      | inl x ↦ inl (g.owner t ∙ x.0, g.links t ∙ x.1)
      | inr x ↦ inr (g.owner t ∙ x.0, g.links t ∙ x.1)
    ]

rest_value : {v : ℕ} {ph : ℕ → Phase} → Token v ph → ((t : ℕ) → is_free (ph t) ≡ true) → v ≡ 1
rest_value (at_rest one free) h = one
rest_value (taken w none_left at only) h = absurd (let is = h w in cc)

unowned_free : (l : ℕ) (q : Phase) → Fits l (some q) [] → is_owner q ≡ false → is_free q ≡ true
unowned_free l q f h = elim (settled-cases l q f) [
  | inl e ↦ ap is_free e
  | inr e ↦ absurd (let is = ap is_owner e in cc)
]

-- When no thread is in a call and none is the holder, whatever calls came before, the semaphore of
-- the lock is 1: the next `lock_acquire` does not wait.
pub lock_release-available :
    (l : ℕ) (k k' : Kernel)
    → IsStart l k
    → Reaches (lock_init l k) k'
    → ((t : ℕ) → k'.todo t ≡ [])
    → k'.holder l ≡ none
    → k'.value (of_lock l) ≡ 1
lock_release-available l k k' h r e free =
    let s = Reaches-Safe r (IsStart-Safe l k h) in
    let g = s.1 in
    rest_value g.token (λ t.
      unowned_free l ((s.0) t) (subst (Fits l (some ((s.0) t))) (e t) (g.fits t))
        (sym (g.owner t) ∙ ap (is_holder t) free))
