-- ===== src/Synch/Pending.antt =====
-- What the functions of threads/synch.c that test the holder of a lock leave to do.
use os_labratory_spring.Prelude.{
  ℕ, ◌≡◌, refl, sym, ap, ◌∙◌, ◌⊎◌, inl, inr, Bool, true, false, not, List, [], ◌∷◌, ◌++◌, ◌==◌,
  if◌then◌else◌, Result, ok, ◌>>=◌, ◌>>◌, assert, Bool-cases, bind-ok, assert-ok, ok-inj,
}
use os_labratory_spring.Threads.{Scheduler, thread_current, thread_block, thread_unblock}
use os_labratory_spring.Threads.Rounds.{current-running}
use os_labratory_spring.Synch.{
  of_lock, of_waiter, Semaphore, assign_sema, Call, call_sema_down, call_sema_up, call_lock_acquire,
  call_lock_release, call_hold, call_link, call_forget, call_unlink, Kernel, is_holder, sema_init,
  forget, unlink, lower, wait_in, sema_down, wake_first, sema_up, pending, sema_try_down,
  lock_try_acquire, lock_held_by_current_thread, lock_acquire, lock_release, cond_wait,
  signal_first, cond_signal,
}
use os_labratory_spring.Synch.Machine.{give_back}
use os_labratory_spring.Synch.Outcomes.{held-value, false_of_not}

-- A call that a test of the holder precedes.
guarded :
    {A : Type 0} (l : ℕ) (k : Kernel) (test : Bool → Bool) (rest : Bool → Result A) (a : A)
    → (lock_held_by_current_thread l k >>= λ held. assert (test held) >> rest held) ≡ ok a
    → (test (is_holder k.sched.running (k.holder l)) ≡ true)
      × (rest (is_holder k.sched.running (k.holder l)) ≡ ok a)
guarded l k test rest a h =
    let x = bind-ok (lock_held_by_current_thread l k) _ a h in
    let y = assert-ok (test x.0) (rest x.0) a x.2 in
    let at = held-value l k x.0 x.1 in (ap test at ∙ y.0, ap rest at ∙ y.1)

pub lock_acquire-pending :
    (l : ℕ) (k k' : Kernel)
    → lock_acquire l k ≡ ok k'
    → (is_holder k.sched.running (k.holder l) ≡ false)
      × (k' ≡ pending (call_sema_down (of_lock l) ∷ call_hold l ∷ call_link l ∷ []) k)
unfolding lock_acquire
lock_acquire-pending l k k' h =
    let x = guarded l k not _ k' h in (false_of_not _ x.0, sym (ok-inj _ k' x.1))

pub lock_release-pending :
    (l : ℕ) (k k' : Kernel)
    → lock_release l k ≡ ok k'
    → (is_holder k.sched.running (k.holder l) ≡ true)
      × (k' ≡ pending (call_forget l ∷ call_unlink l ∷ call_sema_up (of_lock l) ∷ []) k)
unfolding lock_release
lock_release-pending l k k' h =
    let x = guarded l k (λ held. held) _ k' h in (x.0, sym (ok-inj _ k' x.1))

-- The calls of `cond_wait`.
abbrev pub waits_for : ℕ → ℕ → List Call
waits_for t l = call_lock_release l ∷ call_sema_down (of_waiter t) ∷ call_lock_acquire l ∷ []

pub cond_wait-pending :
    (c l : ℕ) (k k' : Kernel)
    → cond_wait c l k ≡ ok k'
    → (is_holder k.sched.running (k.holder l) ≡ true)
      × (k'.todo ≡ (pending (waits_for k.sched.running l) k).todo)
      × (k'.lock_list ≡ k.lock_list)
      × (k'.holder ≡ k.holder)
      × ((m : ℕ) → k'.value (of_lock m) ≡ k.value (of_lock m))
unfolding cond_wait sema_init
cond_wait-pending c l k k' h =
    let x = guarded l k (λ held. held) _ k' h in
    let at = ok-inj _ k' x.1 in
    (
      x.0,
      sym (ap (λ (k : Kernel). k.todo) at),
      sym (ap (λ (k : Kernel). k.lock_list) at),
      sym (ap (λ (k : Kernel). k.holder) at),
      λ m. sym (ap (λ (k : Kernel). k.value (of_lock m)) at),
    )

pub cond_wait-waiters :
    (c l : ℕ) (k k' : Kernel)
    → cond_wait c l k ≡ ok k'
    → (k'.sched ≡ k.sched) × (k'.waiters ≡ assign_sema k.waiters (of_waiter k.sched.running) [])
unfolding cond_wait sema_init
cond_wait-waiters c l k k' h =
    let x = guarded l k (λ held. held) _ k' h in
    let at = ok-inj _ k' x.1 in
    (sym (ap (λ (k : Kernel). k.sched) at), sym (ap (λ (k : Kernel). k.waiters) at))

-- `sema_down` that blocks.
pub wait_in-block :
    (s : Semaphore) (k k' : Kernel)
    → wait_in s k ≡ ok k'
    → (sched : Scheduler) × (thread_block k.sched ≡ ok sched)
      × (k'.sched ≡ sched)
      × (k'.waiters ≡ assign_sema k.waiters s (k.waiters s ++ (k.sched.running ∷ [])))
unfolding wait_in
wait_in-block s k k' h =
    let x = bind-ok (thread_current k.sched) _ k' h in
    let y = bind-ok (thread_block k.sched) _ k' x.2 in
    let at = ok-inj _ k' y.2 in
    let t = current-running k.sched x.0 x.1 in
    (
      y.0,
      y.1,
      sym (ap (λ (k : Kernel). k.sched) at),
      sym (ap (λ (k : Kernel). k.waiters) at)
          ∙ ap (λ t. assign_sema k.waiters s (k.waiters s ++ (t ∷ []))) t,
    )

pub wait_in-todo :
    (s : Semaphore) (k k' : Kernel)
    → wait_in s k ≡ ok k'
    → k'.todo ≡ (pending (call_sema_down s ∷ []) k).todo
unfolding wait_in
wait_in-todo s k k' h =
    let x = bind-ok (thread_current k.sched) _ k' h in
    let y = bind-ok (thread_block k.sched) _ k' x.2 in
    sym (ap (λ (k : Kernel). k.todo) (ok-inj _ k' y.2))

pub sema_down-either :
    (s : Semaphore) (k k' : Kernel)
    → sema_down s k ≡ ok k'
    → (wait_in s k ≡ ok k') ⊎ (k' ≡ lower s k)
unfolding sema_down
sema_down-either s k k' h = elim (Bool-cases (k.value s == 0)) [
  | inl e ↦ inl (ap (λ (b : Bool). if b then wait_in s k else ok (lower s k)) (sym e) ∙ h)
  | inr e ↦ inr (
      sym (
        ok-inj (lower s k) k'
          (ap (λ (b : Bool). if b then wait_in s k else ok (lower s k)) (sym e) ∙ h)))
]

pub cond_signal-first :
    (c l : ℕ) (k k' : Kernel) → cond_signal c l k ≡ ok k' → k' ≡ signal_first c (k.cond_waiters c) k
unfolding cond_signal
cond_signal-first c l k k' h = let x = guarded l k (λ held. held) _ k' h in sym (ok-inj _ k' x.1)

unblock-running : (t : ℕ) (s s' : Scheduler) → thread_unblock t s ≡ ok s' → s'.running ≡ s.running
unfolding thread_unblock
unblock-running t s s' h =
    let x = assert-ok _ _ s' h in sym (ap (λ (s : Scheduler). s.running) (ok-inj _ s' x.1))

wake_first-running :
    (s : Semaphore) (ts : List ℕ) (k k' : Kernel)
    → wake_first s ts k ≡ ok k'
    → k'.sched.running ≡ k.sched.running
unfolding wake_first
wake_first-running s [] k k' h = sym (ap (λ (k : Kernel). k.sched.running) (ok-inj k k' h))
wake_first-running s (t ∷ ts) k k' h =
    let x = bind-ok (thread_unblock t k.sched) _ k' h in
    sym (ap (λ (k : Kernel). k.sched.running) (ok-inj _ k' x.2)) ∙ unblock-running t k.sched x.0 x.1

-- `sema_up` does not switch threads.
pub sema_up-running :
    (s : Semaphore) (k k' : Kernel) → sema_up s k ≡ ok k' → k'.sched.running ≡ k.sched.running
unfolding sema_up
sema_up-running s k k' h =
    let x = bind-ok (wake_first s (k.waiters s) k) _ k' h in
    sym (ap (λ (k : Kernel). k.sched.running) (ok-inj _ k' x.2))
    ∙ wake_first-running s (k.waiters s) k x.0 x.1

pub give_back-steps :
    (l : ℕ) (k k' : Kernel)
    → give_back l k ≡ ok k'
    → (is_holder k.sched.running (k.holder l) ≡ true)
      × (mid : Kernel) × (sema_up (of_lock l) (unlink l (forget l k)) ≡ ok mid)
      × (k' ≡ unlink l mid)
unfolding give_back
give_back-steps l k k' h =
    let x = bind-ok (lock_held_by_current_thread l k) _ k' h in
    let at = held-value l k x.0 x.1 in
    let y = bind-ok (assert x.0 >> sema_up (of_lock l) (unlink l (forget l k))) _ k' x.2 in
    let z = assert-ok x.0 _ y.0 y.1 in (at ∙ z.0, y.0, z.1, sym (ok-inj _ k' y.2))

sema_try_down-cases :
    (s : Semaphore) (k : Kernel)
    → (((k.value s == 0) ≡ false) × (sema_try_down s k ≡ (true, lower s k)))
      ⊎ (sema_try_down s k ≡ (false, k))
unfolding sema_try_down
sema_try_down-cases s k = elim (Bool-cases (k.value s == 0)) [
  | inl e ↦ inr (rw (sema_try_down, e) refl)
  | inr e ↦ inl (e, rw (sema_try_down, e) refl)
]

pub lock_try_acquire-cases :
    (l : ℕ) (k k' : Kernel) (success : Bool)
    → lock_try_acquire l k ≡ ok (success, k')
    → (is_holder k.sched.running (k.holder l) ≡ false)
      × ((((k.value (of_lock l) == 0) ≡ false)
            × (k' ≡ pending (call_hold l ∷ call_link l ∷ []) (lower (of_lock l) k)))
          ⊎ (k' ≡ k))
unfolding lock_try_acquire
lock_try_acquire-cases l k k' success h =
    let goes : Bool × Kernel → Bool × Kernel =
      λ x. (x.0, if x.0 then pending (call_hold l ∷ call_link l ∷ []) x.1 else x.1) in
    let y = guarded l k not _ (success, k') h in
    let at =
      ap (λ (x : Bool × Kernel). x.1)
        (ok-inj (goes (sema_try_down (of_lock l) k)) (success, k') y.1) in
    (
      false_of_not _ y.0,
      elim (sema_try_down-cases (of_lock l) k) [
        | inl x ↦ inl (x.0, sym at ∙ ap (λ x. (goes x).1) x.1)
        | inr x ↦ inr (sym at ∙ ap (λ x. (goes x).1) x)
      ],
    )
