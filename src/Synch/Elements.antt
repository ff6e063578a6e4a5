-- ===== src/Synch/Elements.antt =====
-- The list element of a thread is in one queue at most, in every state that steps lead to.
use os_labratory_spring.Prelude.{
  ℕ, ◌≤◌, ◌≡◌, refl, sym, subst, ap, ◌∙◌, inl, inr, true, false, List, [], ◌∷◌, ◌++◌, ◌==◌, ok,
  arith, bind-ok, ok-inj, ne→false,
}
use os_labratory_spring.Threads.{
  thread_running, thread_blocked, Scheduler, assign, count, is_idle, thread_unblock,
}
use os_labratory_spring.Synch.{
  of_lock, of_waiter, Semaphore, assign_sema, Call, call_sema_down, call_sema_up, call_lock_acquire,
  call_lock_release, call_cond_wait, call_cond_signal, call_cond_broadcast, call_hold, call_link,
  call_forget, call_unlink, Kernel, raise, sema_down, wake_first, sema_up, pending, cond_wait,
  signal_first, broadcast_round, cond_broadcast, exec,
}
use os_labratory_spring.Synch.Phases.{assign_other}
use os_labratory_spring.Synch.Pending.{
  sema_down-either, wait_in-block, wait_in-todo, lock_acquire-pending, lock_release-pending,
  cond_wait-pending, cond_wait-waiters, cond_signal-first, waits_for,
}
use os_labratory_spring.Synch.Queues.{assign_sema_cases}
use os_labratory_spring.Synch.Changes.{Queues-wake, Queues-fewer, waiting_busy, waiting_blocked}
use os_labratory_spring.Synch.Places.{InPlace}
use os_labratory_spring.Synch.Switches.{thread_block-waits, thread_unblock-InPlace}

-- Each thread is in one queue at most, with the status of that queue, the running thread is marked
-- so and is in none, and the idle thread is in no queue and in no call.
pub record Placed (k : Kernel) : Type 0 where
  pub in_place : InPlace k.waiters k.sched
  pub idle_calls : (t : ℕ) → is_idle t k.sched.idle_thread ≡ true → k.todo t ≡ []

-- What a call of the running thread, which is not the idle thread, leaves as it is.
pub record Keeps (k k' : Kernel) : Type 0 where
  pub in_place : InPlace k'.waiters k'.sched
  pub same_idle : k'.sched.idle_thread ≡ k.sched.idle_thread
  pub same_todo : (t : ℕ) → is_idle t k.sched.idle_thread ≡ true → k'.todo t ≡ k.todo t

pub Keeps-Placed : {k k' : Kernel} → Keeps k k' → Placed k → Placed k'
Keeps-Placed {k} {k'} x p = record {
  in_place = x.in_place;
  idle_calls = λ t i.
      let idle : is_idle t k.sched.idle_thread ≡ true = sym (ap (is_idle t) x.same_idle) ∙ i in
      x.same_todo t idle ∙ p.idle_calls t idle;
}

-- A write to what the running thread is still to do.
pub other_todo :
    (k : Kernel) (cs : List Call) (t : ℕ)
    → is_idle k.sched.running k.sched.idle_thread ≡ false
    → is_idle t k.sched.idle_thread ≡ true
    → assign k.todo k.sched.running cs t ≡ k.todo t
other_todo k cs t busy i = assign_other k.todo k.sched.running t cs (
    ne→false t k.sched.running
      (λ e. absurd (let is = ap (λ t. is_idle t k.sched.idle_thread) e in cc)))

pub same_Keeps :
    {k k' : Kernel}
    → k'.waiters ≡ k.waiters
    → k'.sched ≡ k.sched
    → ((t : ℕ) → is_idle t k.sched.idle_thread ≡ true → k'.todo t ≡ k.todo t)
    → InPlace k.waiters k.sched
    → Keeps k k'
same_Keeps {k} {k'} w s todo p = record {
  in_place = subst (λ w. InPlace w k'.sched) (sym w) (subst (InPlace k.waiters) (sym s) p);
  same_idle = ap (λ (s : Scheduler). s.idle_thread) s;
  same_todo = todo;
}

pub pending-Keeps :
    (k : Kernel) (cs : List Call)
    → is_idle k.sched.running k.sched.idle_thread ≡ false
    → InPlace k.waiters k.sched
    → Keeps k (pending cs k)
pending-Keeps k cs busy p =
    same_Keeps refl refl (λ t i. other_todo k (cs ++ k.todo k.sched.running) t busy i) p

pub blocked_other :
    (s : Scheduler) (t : ℕ)
    → s.status t ≡ thread_blocked
    → s.status s.running ≡ thread_running
    → (t == s.running) ≡ false
blocked_other s t b r = ne→false t s.running (λ e. absurd (let is = ap s.status e in cc))

pub wake_first-Keeps :
    (s : Semaphore) (ts : List ℕ) (k k' : Kernel)
    → k.waiters s ≡ ts
    → wake_first s ts k ≡ ok k'
    → InPlace k.waiters k.sched
    → Keeps k k'
unfolding wake_first
wake_first-Keeps s [] k k' e h p =
    subst (Keeps k) (ok-inj k k' h) (same_Keeps refl refl (λ t i. refl) p)
wake_first-Keeps s (t ∷ ts) k k' e h p =
    let x = bind-ok (thread_unblock t k.sched) _ k' h in
    let q = Queues-wake s t ts e p.queues in
    let woken =
      thread_unblock-InPlace k.sched x.0 (record { queues = q.0; current = p.current }) t q.1
        (waiting_busy s t ts e p.queues)
        (blocked_other k.sched t (waiting_blocked s t ts e p.queues) p.current) x.1 in
    subst (Keeps k) (ok-inj _ k' x.2)
      (record { in_place = woken.0; same_idle = woken.1; same_todo = λ t i. refl })

raise-Keeps : {k : Kernel} (s : Semaphore) (mid : Kernel) → Keeps k mid → Keeps k (raise s mid)
raise-Keeps s mid x = record {
  in_place = x.in_place;
  same_idle = x.same_idle;
  same_todo = x.same_todo;
}

pub sema_up-Keeps :
    (s : Semaphore) (k k' : Kernel) → sema_up s k ≡ ok k' → InPlace k.waiters k.sched → Keeps k k'
unfolding sema_up
sema_up-Keeps s k k' h p =
    let x = bind-ok (wake_first s (k.waiters s) k) _ k' h in
    subst (Keeps k) (ok-inj _ k' x.2)
      (raise-Keeps s x.0 (wake_first-Keeps s (k.waiters s) k x.0 refl x.1 p))

sema_down-Keeps :
    (s : Semaphore) (k k' : Kernel)
    → is_idle k.sched.running k.sched.idle_thread ≡ false
    → sema_down s k ≡ ok k'
    → InPlace k.waiters k.sched
    → Keeps k k'
sema_down-Keeps s k k' busy h p = elim (sema_down-either s k k' h) [
  | inl w ↦
      let x = wait_in-block s k k' w in
      let b = thread_block-waits k.sched x.0 p s busy x.1 in
      record {
        in_place =
            subst (λ w. InPlace w k'.sched) (sym x.3)
              (subst (InPlace (assign_sema k.waiters s (k.waiters s ++ (k.sched.running ∷ []))))
                (sym x.2) b.0);
        same_idle = ap (λ (s : Scheduler). s.idle_thread) x.2 ∙ b.1;
        same_todo = λ t i.
            ap (λ (f : ℕ → List Call). f t) (wait_in-todo s k k' w)
            ∙ other_todo k (call_sema_down s ∷ k.todo k.sched.running) t busy i;
      }
  | inr e ↦ subst (Keeps k) (sym e) (same_Keeps refl refl (λ t i. refl) p)
]

cond_wait-Keeps :
    (c l : ℕ) (k k' : Kernel)
    → is_idle k.sched.running k.sched.idle_thread ≡ false
    → cond_wait c l k ≡ ok k'
    → InPlace k.waiters k.sched
    → Keeps k k'
cond_wait-Keeps c l k k' busy h p =
    let x = cond_wait-pending c l k k' h in
    let y = cond_wait-waiters c l k k' h in
    let t = k.sched.running in
    let emptied = assign_sema k.waiters (of_waiter t) [] in
    let q =
      Queues-fewer emptied
        (λ s u.
          assign_sema_cases (λ s us. count u us ≤ count u (k.waiters s)) k.waiters (of_waiter t) []
            (omega arith) (λ r e. omega arith) s)
        p.queues in
    record {
      in_place =
          subst (λ w. InPlace w k'.sched) (sym y.1)
            (subst (InPlace emptied) (sym y.0) (record { queues = q; current = p.current }));
      same_idle = ap (λ (s : Scheduler). s.idle_thread) y.0;
      same_todo = λ u i.
          ap (λ (f : ℕ → List Call). f u) x.1 ∙ other_todo k (waits_for t l ++ k.todo t) u busy i;
    }

signal_Keeps :
    (c : ℕ) (ts : List ℕ) (k : Kernel)
    → is_idle k.sched.running k.sched.idle_thread ≡ false
    → InPlace k.waiters k.sched
    → Keeps k (signal_first c ts k)
signal_Keeps c [] k busy p = same_Keeps refl refl (λ t i. refl) p
signal_Keeps c (t ∷ ts) k busy p =
    same_Keeps refl refl
      (λ u i. other_todo k (call_sema_up (of_waiter t) ∷ k.todo k.sched.running) u busy i) p

broadcast_Keeps :
    (c l : ℕ) (ts : List ℕ) (k : Kernel)
    → is_idle k.sched.running k.sched.idle_thread ≡ false
    → InPlace k.waiters k.sched
    → Keeps k (broadcast_round c l ts k)
broadcast_Keeps c l [] k busy p = same_Keeps refl refl (λ t i. refl) p
broadcast_Keeps c l (t ∷ ts) k busy p =
    pending-Keeps k (call_cond_signal c l ∷ call_cond_broadcast c l ∷ []) busy p

pub exec-Keeps :
    (c : Call) (k k' : Kernel)
    → is_idle k.sched.running k.sched.idle_thread ≡ false
    → exec c k ≡ ok k'
    → InPlace k.waiters k.sched
    → Keeps k k'
unfolding exec cond_broadcast
exec-Keeps (call_sema_down s) k k' busy h p = sema_down-Keeps s k k' busy h p
exec-Keeps (call_sema_up s) k k' busy h p = sema_up-Keeps s k k' h p
exec-Keeps (call_lock_acquire l) k k' busy h p =
    subst (Keeps k) (sym ((lock_acquire-pending l k k' h).1))
      (pending-Keeps k (call_sema_down (of_lock l) ∷ call_hold l ∷ call_link l ∷ []) busy p)
exec-Keeps (call_lock_release l) k k' busy h p =
    subst (Keeps k) (sym ((lock_release-pending l k k' h).1))
      (pending-Keeps k (call_forget l ∷ call_unlink l ∷ call_sema_up (of_lock l) ∷ []) busy p)
exec-Keeps (call_cond_wait c l) k k' busy h p = cond_wait-Keeps c l k k' busy h p
exec-Keeps (call_cond_signal c l) k k' busy h p =
    subst (Keeps k) (sym (cond_signal-first c l k k' h))
      (signal_Keeps c (k.cond_waiters c) k busy p)
exec-Keeps (call_cond_broadcast c l) k k' busy h p =
    subst (Keeps k) (ok-inj _ k' h) (broadcast_Keeps c l (k.cond_waiters c) k busy p)
exec-Keeps (call_hold l) k k' busy h p =
    subst (Keeps k) (ok-inj _ k' h) (same_Keeps refl refl (λ t i. refl) p)
exec-Keeps (call_link l) k k' busy h p =
    subst (Keeps k) (ok-inj _ k' h) (same_Keeps refl refl (λ t i. refl) p)
exec-Keeps (call_forget l) k k' busy h p =
    subst (Keeps k) (ok-inj _ k' h) (same_Keeps refl refl (λ t i. refl) p)
exec-Keeps (call_unlink l) k k' busy h p =
    subst (Keeps k) (ok-inj _ k' h) (same_Keeps refl refl (λ t i. refl) p)
