-- ===== src/Synch/Queues.antt =====
-- The one list element of a thread, `elem`: which of the queues it is in.
use os_labratory_spring.Prelude.{
  ℕ, zero, suc, ◌+◌, ◌≤◌, ◌<◌, ◌≡◌, refl, sym, subst, ap, inl, inr, true, false, Option, List, [],
  ◌∷◌, ◌++◌, ◌==◌, arith, Bool-cases, eq→==, ne→false,
}
use os_labratory_spring.Threads.{Status, thread_ready, thread_blocked, count, is_idle}
use os_labratory_spring.Synch.{Semaphore, sema, of_lock, of_waiter, same_semaphore, assign_sema}
use os_labratory_spring.Synch.Moves.{not_eq, count-push}

-- Each thread is once at most in one queue, the ready list or the list of one semaphore, and its
-- status is that of the threads of that queue; the idle thread is in none.
pub record Queues (status : ℕ → Status) (ready : List ℕ) (waiters : Semaphore → List ℕ)
    (idle : Option ℕ) : Type 0 where
  pub ready_status : (t : ℕ) → 0 < count t ready → status t ≡ thread_ready
  pub ready_once : (t : ℕ) → count t ready ≤ 1
  pub waiting_status : (s : Semaphore) (t : ℕ) → 0 < count t (waiters s) → status t ≡ thread_blocked
  pub waiting_once : (s : Semaphore) (t : ℕ) → count t (waiters s) ≤ 1
  pub one_queue :
      (s r : Semaphore) (t : ℕ) → 0 < count t (waiters s) → 0 < count t (waiters r) → s ≡ r
  pub idle_apart :
      (t : ℕ)
      → is_idle t idle ≡ true
      → (count t ready ≡ 0) × ((s : Semaphore) → count t (waiters s) ≡ 0)

-- A thread in no queue.
pub record IsApart (t : ℕ) (ready : List ℕ) (waiters : Semaphore → List ℕ) : Type 0 where
  pub not_ready : count t ready ≡ 0
  pub not_waiting : (s : Semaphore) → count t (waiters s) ≡ 0

pub same→eq : (a b : Semaphore) → same_semaphore a b ≡ true → a ≡ b
same→eq (sema a) (sema b) h = let e : a ≡ b = ground (arith, h) in ap sema e
same→eq (sema a) (of_lock b) h = absurd cc
same→eq (sema a) (of_waiter b) h = absurd cc
same→eq (of_lock a) (sema b) h = absurd cc
same→eq (of_lock a) (of_lock b) h = let e : a ≡ b = ground (arith, h) in ap of_lock e
same→eq (of_lock a) (of_waiter b) h = absurd cc
same→eq (of_waiter a) (sema b) h = absurd cc
same→eq (of_waiter a) (of_lock b) h = absurd cc
same→eq (of_waiter a) (of_waiter b) h = let e : a ≡ b = ground (arith, h) in ap of_waiter e

pub assign_sema_cases {ℓ κ} :
    {A : Type ℓ} (P : Semaphore → A → Type κ) (f : Semaphore → A) (s : Semaphore) (a : A)
    → P s a
    → ((r : Semaphore) → same_semaphore r s ≡ false → P r (f r))
    → (r : Semaphore) → P r (assign_sema f s a r)
assign_sema_cases P f s a p q r = elim (Bool-cases (same_semaphore r s)) [
  | inl e ↦ rw e (subst (λ v. P v a) (sym (same→eq r s e)) p)
  | inr e ↦ rw e (q r e)
]

pub count_self : (t : ℕ) → count t (t ∷ []) ≡ 1
count_self t = rw (eq→== t t refl) refl

pub count_other : (t u : ℕ) → (t == u) ≡ false → count u (t ∷ []) ≡ 0
count_other t u e = rw e refl

pub count-head : (t u : ℕ) (us : List ℕ) → count t (u ∷ us) ≡ count t (u ∷ []) + count t us
count-head t u us = elim (Bool-cases (u == t)) [
  | inl e ↦ rw e (omega arith)
  | inr e ↦ rw e (omega arith)
]

pub swap_ne : (t u : ℕ) → (u == t) ≡ false → (t == u) ≡ false
swap_ne t u e = ne→false t u (λ h. not_eq u t e (sym h))

module _ (waiters : Semaphore → List ℕ) where
  abbrev pub pushed : Semaphore → ℕ → Semaphore → List ℕ
  pushed s t = assign_sema waiters s (waiters s ++ (t ∷ []))

  pub pushed_other :
      (s : Semaphore) (t u : ℕ) (r : Semaphore)
      → (u == t) ≡ false
      → 0 < count u (pushed s t r)
      → 0 < count u (waiters r)
  pushed_other s t u r e =
      assign_sema_cases (λ r us. 0 < count u us → 0 < count u (waiters r)) waiters s
        (waiters s ++ (t ∷ []))
        (λ h.
          let x = count-push u t (waiters s) in
          let z = count_other t u (swap_ne t u e) in omega arith)
        (λ r e h. h) r

  pub only_here :
      (s : Semaphore) (t : ℕ)
      → ((r : Semaphore) → count t (waiters r) ≡ 0)
      → (r : Semaphore) → 0 < count t (pushed s t r)
      → r ≡ s
  only_here s t a =
      assign_sema_cases (λ r us. 0 < count t us → r ≡ s) waiters s (waiters s ++ (t ∷ []))
        (λ h. refl) (λ r e h. absurd (let none_in = a r in omega arith))

  pub popped :
      (s : Semaphore) (t : ℕ) (ts : List ℕ)
      → waiters s ≡ t ∷ ts
      → (r : Semaphore) (u : ℕ) → count u (assign_sema waiters s ts r) ≤ count u (waiters r)
  popped s t ts e r u =
      assign_sema_cases (λ r us. count u us ≤ count u (waiters r)) waiters s ts
        (let x = count-head u t ts in let y = ap (count u) e in omega arith) (λ r e. omega arith) r

pub front_count : (xs : List ℕ) (t : ℕ) (ts : List ℕ) → xs ≡ t ∷ ts → count t xs ≡ 1 + count t ts
front_count xs t ts e =
    let x = count-head t t ts in let y = ap (count t) e in let z = count_self t in omega arith

pub front_in : (xs : List ℕ) (t : ℕ) (ts : List ℕ) → xs ≡ t ∷ ts → 0 < count t xs
front_in xs t ts e = let x = front_count xs t ts e in omega arith

pub zero_of : (n : ℕ) → (0 < n → ⊥) → n ≡ 0
zero_of zero h = refl
zero_of (suc n) h = absurd (h (omega arith))

pub same_semaphore_refl : (s : Semaphore) → same_semaphore s s ≡ true
same_semaphore_refl (sema a) = eq→== a a refl
same_semaphore_refl (of_lock a) = eq→== a a refl
same_semaphore_refl (of_waiter a) = eq→== a a refl
