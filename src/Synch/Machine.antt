-- ===== src/Synch/Machine.antt =====
-- What threads may do next: their calls, interrupts, and the end of a thread with `release_locks` of
-- threads/thread.c.
use os_labratory_spring.Prelude.{
  ℕ, ◌≡◌, Bool, true, false, List, [], ◌∷◌, ◌==◌, Result, ok, ◌>>=◌, ◌>>◌, assert,
}
use os_labratory_spring.Threads.{
  Scheduler, assign, count, is_idle, thread_current, thread_block, tick, leave, thread_create,
}
use os_labratory_spring.Synch.{
  Semaphore, sema, of_lock, of_waiter, Call, call_sema_down, call_sema_up, call_lock_acquire,
  call_lock_release, call_cond_wait, call_cond_signal, call_cond_broadcast, call_hold, call_link,
  call_forget, call_unlink, Kernel, pending, sema_up, lock_held_by_current_thread, forget, unlink,
  lock_try_acquire, exec,
}

-- `lock_release` with interrupts off, and the `list_remove` behind it.
unfoldable pub give_back : ℕ → Kernel → Result Kernel
unfolding lock_held_by_current_thread sema_up
give_back l k = lock_held_by_current_thread l k >>= λ held.
    assert held >> sema_up (of_lock l) (unlink l (forget l k)) >>= λ k'. ok (unlink l k')

-- `release_locks`; the loop reads the element behind a lock before it gives that lock back.
unfoldable pub release_each : List ℕ → Kernel → Result Kernel
unfolding give_back
release_each [] k = ok k
release_each (l ∷ ls) k = give_back l k >>= λ k'. release_each ls k'

unfoldable pub release_locks : Kernel → Result Kernel
unfolding thread_current release_each
release_locks k = thread_current k.sched >>= λ t. release_each (k.lock_list t) k

-- `thread_exit`, behind `process_exit`.
unfoldable pub thread_exit : Kernel → Result Kernel
unfolding release_locks leave
thread_exit k = release_locks k >>= λ k'. leave k'.sched >>= λ s. ok (record k' { sched = s })

-- The calls that code outside synch.c makes.
abbrev pub Public : Call → Type 0
Public (call_sema_down (sema s)) = Unit
Public (call_sema_down (of_lock l)) = ⊥
Public (call_sema_down (of_waiter t)) = ⊥
Public (call_sema_up (sema s)) = Unit
Public (call_sema_up (of_lock l)) = ⊥
Public (call_sema_up (of_waiter t)) = ⊥
Public (call_lock_acquire l) = Unit
Public (call_lock_release l) = Unit
Public (call_cond_wait c l) = Unit
Public (call_cond_signal c l) = Unit
Public (call_cond_broadcast c l) = Unit
Public (call_hold l) = ⊥
Public (call_link l) = ⊥
Public (call_forget l) = ⊥
Public (call_unlink l) = ⊥

-- A page that no thread uses: it is in no list and not in a call.
pub record IsUnused (k : Kernel) (t : ℕ) : Type 0 where
  pub no_calls : k.todo t ≡ []
  pub no_locks : k.lock_list t ≡ []
  pub not_running : (t == k.sched.running) ≡ false
  pub not_idle : is_idle t k.sched.idle_thread ≡ false
  pub not_ready : count t k.sched.ready_list ≡ 0
  pub not_waiting : (s : Semaphore) → count t (k.waiters s) ≡ 0

-- A thread that is in no call and is not the idle thread, which only blocks.
pub record IsFree (k : Kernel) : Type 0 where
  pub no_calls : k.todo k.sched.running ≡ []
  pub busy : is_idle k.sched.running k.sched.idle_thread ≡ false

-- The steps of the kernel: a call of the running thread that it has still to do, a new call, a
-- round of the loop of `idle`, a timer interrupt, and the end and the start of a thread.
pub data Step (k : Kernel) : Kernel → Type 0 where
  goes_on :
      {k' : Kernel} (c : Call) (cs : List Call)
      → k.todo k.sched.running ≡ c ∷ cs
      → exec c (record k { todo = assign k.todo k.sched.running cs }) ≡ ok k'
      → Step k k'
  calls : (c : Call) → Public c → IsFree k → Step k (pending (c ∷ []) k)
  tries :
      {k' : Kernel} (l : ℕ) (success : Bool)
      → IsFree k
      → lock_try_acquire l k ≡ ok (success, k')
      → Step k k'
  idles :
      {s : Scheduler}
      → is_idle k.sched.running k.sched.idle_thread ≡ true
      → thread_block k.sched ≡ ok s
      → Step k (record k { sched = s })
  is_interrupted : {s : Scheduler} → tick k.sched ≡ ok s → Step k (record k { sched = s })
  exits : {k' : Kernel} → IsFree k → thread_exit k ≡ ok k' → Step k k'
  creates :
      {s : Scheduler} (t tid : ℕ)
      → IsUnused k t
      → thread_create t tid k.sched ≡ ok s
      → Step k (record k { sched = s })

pub data Reaches (k : Kernel) : Kernel → Type 0 where
  here : Reaches k k
  then_step : {k' k'' : Kernel} → Reaches k k' → Step k' k'' → Reaches k k''
