-- ===== src/Synch/Exclusion.antt =====
-- A lock is exclusive: at every moment one thread at most has it.
use os_labratory_spring.Prelude.{
  ℕ, ◌≡◌, refl, sym, subst, ap, ◌∙◌, inl, inr, true, false, Option, some, List, [], ◌∷◌, ◌++◌, ◌==◌,
  ok, eq→==,
}
use os_labratory_spring.Threads.{count}
use os_labratory_spring.Synch.{
  sema, of_lock, of_waiter, Semaphore, Call, call_sema_down, call_sema_up, call_hold, call_link,
  call_forget, call_unlink, Kernel, is_holder, raise, lower, sema_down, sema_up,
}
use os_labratory_spring.Synch.Phases.{
  Phase, out, got, held, inside, dropped, unlinked, is_owner, settles, settled, next_phase, Fits,
  Token, Guarded,
}
use os_labratory_spring.Synch.Own.{Before, Safe, Guarded-stays}
use os_labratory_spring.Synch.Outcomes.{IsSame, sema_down-cases, sema_up-raise}
use os_labratory_spring.Synch.Pending.{waits_for}
use os_labratory_spring.Synch.Calls.{pending-Rests, run_raise, run_lower}

pub Guarded-same :
    {l : ℕ} {k k' : Kernel} {ph : ℕ → Phase} {pos : ℕ → Option Phase}
    → IsSame k k'
    → ((u : ℕ) → k'.todo u ≡ k.todo u)
    → Guarded l k ph pos
    → Guarded l k' ph pos
Guarded-same {l} {k} {k'} {ph} {pos} s todo g = record {
  fits = λ u. subst (Fits l (pos u)) (sym (todo u)) (g.fits u);
  links = λ u. ap (λ (f : ℕ → List ℕ). count l (f u)) s.same_locks ∙ g.links u;
  owner = λ u. ap (λ (f : ℕ → Option ℕ). is_holder u (f l)) s.same_holder ∙ g.owner u;
  token = subst (λ (f : Semaphore → ℕ). Token (f (of_lock l)) ph) (sym s.same_value) g.token;
}

-- The phase behind `sema_up`.
run_up :
    {l : ℕ} {k : Kernel} {ph : ℕ → Phase} (s : Semaphore) (t : ℕ)
    → Before l k ph t (next_phase l (call_sema_up s) (ph t))
    → Safe l (raise s k)
run_up {ph = ph} (sema a) t g =
    (ph, Guarded-stays t (some (ph t)) g refl refl (λ u. refl) refl refl)
run_up {l} (of_lock m) t g = run_raise l m t g
run_up {ph = ph} (of_waiter w) t g =
    (ph, Guarded-stays t (some (ph t)) g refl refl (λ u. refl) refl refl)

pub run_down :
    {l : ℕ} {k : Kernel} {ph : ℕ → Phase} (s : Semaphore) (t : ℕ)
    → Before l k ph t (next_phase l (call_sema_down s) (ph t))
    → (k.value s == 0) ≡ false
    → Safe l (lower s k)
run_down {ph = ph} (sema a) t g h =
    (ph, Guarded-stays t (some (ph t)) g refl refl (λ u. refl) refl refl)
run_down {l} (of_lock m) t g h = run_lower l m t g h
run_down {ph = ph} (of_waiter w) t g h =
    (ph, Guarded-stays t (some (ph t)) g refl refl (λ u. refl) refl refl)

module _ {l : ℕ} {k k' : Kernel} {ph : ℕ → Phase} where
  pub sema_down-Safe :
      (s : Semaphore)
      → Before l k ph k.sched.running (next_phase l (call_sema_down s) (ph k.sched.running))
      → sema_down s k ≡ ok k'
      → Safe l k'
  sema_down-Safe s g h = elim (sema_down-cases s k k' h) [
    | inl x ↦ subst (Safe l) (sym x.1) (run_down s k.sched.running g x.0)
    | inr x ↦ (
      ph,
      pending-Rests (call_sema_down s ∷ []) (next_phase l (call_sema_down s) (ph k.sched.running)) g
          (λ rest f. f) x.1 (x.0.same_locks) (ap (λ (f : ℕ → Option ℕ). f l) x.0.same_holder)
          (ap (λ (f : Semaphore → ℕ). f (of_lock l)) x.0.same_value),
    )
  ]

  pub sema_up-Safe :
      (s : Semaphore) (t : ℕ)
      → Before l k ph t (next_phase l (call_sema_up s) (ph t))
      → sema_up s k ≡ ok k'
      → Safe l k'
  sema_up-Safe s t g h =
      let x = sema_up-raise s k k' h in
      subst (Safe l) (sym x.3)
        (run_up s t (Guarded-same x.1 (λ u. ap (λ (f : ℕ → List Call). f u) x.2) g))

-- `lock_acquire` and `lock_release` lead through the phases of the lock, and past those of others.
pub acquire_other :
    (l m : ℕ) (q : Phase) (rest : List Call)
    → (l == m) ≡ false
    → Fits l (some q) rest
    → Fits l (some q) (call_sema_down (of_lock m) ∷ call_hold m ∷ call_link m ∷ rest)
acquire_other l m q rest e f = rw (Fits, e, e, e) f

pub release_other :
    (l m : ℕ) (q : Phase) (rest : List Call)
    → (l == m) ≡ false
    → Fits l (some q) rest
    → Fits l (some q) (call_forget m ∷ call_unlink m ∷ call_sema_up (of_lock m) ∷ rest)
release_other l m q rest e f = rw (Fits, e, e, e) f

pub acquire_own :
    (l : ℕ) (q : Phase) (rest : List Call)
    → is_owner q ≡ false
    → Fits l (settles inside q) rest
    → Fits l (some q) (call_sema_down (of_lock l) ∷ call_hold l ∷ call_link l ∷ rest)
acquire_own l out rest o f = let e = eq→== l l refl in rw (Fits, e, e, e) f
acquire_own l got rest o f = absurd f
acquire_own l held rest o f = absurd f
acquire_own l inside rest o f = absurd cc
acquire_own l dropped rest o f = absurd f
acquire_own l unlinked rest o f = absurd f

pub release_own :
    (l : ℕ) (q : Phase) (rest : List Call)
    → is_owner q ≡ true
    → Fits l (settles out q) rest
    → Fits l (some q) (call_forget l ∷ call_unlink l ∷ call_sema_up (of_lock l) ∷ rest)
release_own l out rest o f = absurd cc
release_own l got rest o f = absurd f
release_own l held rest o f = absurd f
release_own l inside rest o f = let e = eq→== l l refl in rw (Fits, e, e, e) f
release_own l dropped rest o f = absurd f
release_own l unlinked rest o f = absurd f

pub wait_other :
    (l m t : ℕ) (q : Phase) (rest : List Call)
    → (l == m) ≡ false
    → Fits l (some q) rest
    → Fits l (some q) (waits_for t m ++ rest)
wait_other l m t q rest e f = rw (Fits, e, e) f

pub wait_own :
    (l t : ℕ) (q : Phase) (rest : List Call)
    → is_owner q ≡ true
    → Fits l (settled q) rest
    → Fits l (some q) (waits_for t l ++ rest)
wait_own l t out rest o f = absurd cc
wait_own l t got rest o f = absurd f
wait_own l t held rest o f = absurd f
wait_own l t inside rest o f = let e = eq→== l l refl in rw (Fits, e, e) f
wait_own l t dropped rest o f = absurd f
wait_own l t unlinked rest o f = absurd f
