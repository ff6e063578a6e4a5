-- ===== src/Synch.antt =====
-- Semaphores, locks and condition variables: threads/synch.c, and `thread_exit` and `release_locks`
-- of threads/thread.c, which give the locks of a thread back.  A call is one stretch of code that no
-- interrupt divides; what a function of synch.c does behind such a stretch is again a call, in the
-- list of what its thread is still to do.
pub mod Phases
pub mod Machine
pub mod Moves
pub mod Own
pub mod Outcomes
pub mod Pending
pub mod Calls
pub mod Exclusion
pub mod Through
pub mod Exits
pub mod Releases
pub mod Runs
pub mod Locks
pub mod Queues
pub mod Changes
pub mod Places
pub mod Switches
pub mod Leaves
pub mod Elements
pub mod Steps
use os_labratory_spring.Prelude.{
  ℕ, ◌+◌, ◌-◌, ◌%◌, ◌^◌, ◌≡◌, Bool, true, false, not, Option, none, some, List, [], ◌∷◌, ◌++◌, ◌==◌,
  if◌then◌else◌, Result, ok, ◌>>=◌, ◌>>◌, assert,
}
use os_labratory_spring.Threads.{
  Scheduler, assign, list_remove, count, is_idle, thread_current, thread_block, thread_unblock,
  tick, leave, thread_create,
}

-- A `struct semaphore`: one by itself, the one in a lock, and the one in the `struct
-- semaphore_elem` on the stack of a thread in `cond_wait`.
pub data Semaphore : Type 0 where
  sema : ℕ → Semaphore
  of_lock : ℕ → Semaphore
  of_waiter : ℕ → Semaphore

abbrev pub same_semaphore : Semaphore → Semaphore → Bool
same_semaphore (sema a) (sema b) = a == b
same_semaphore (sema a) (of_lock b) = false
same_semaphore (sema a) (of_waiter b) = false
same_semaphore (of_lock a) (sema b) = false
same_semaphore (of_lock a) (of_lock b) = a == b
same_semaphore (of_lock a) (of_waiter b) = false
same_semaphore (of_waiter a) (sema b) = false
same_semaphore (of_waiter a) (of_lock b) = false
same_semaphore (of_waiter a) (of_waiter b) = a == b

-- A write to a field of a semaphore.
abbrev pub assign_sema {ℓ} : {A : Type ℓ} → (Semaphore → A) → Semaphore → A → Semaphore → A
assign_sema f s a r = if same_semaphore r s then a else f r

-- The functions of synch.c, and the parts of `lock_acquire` and `lock_release` before, between and
-- behind which a thread may lose the processor: the write of the holder (`hold`, `forget`), and that
-- of the list of locks (`link`, `unlink`).
pub data Call : Type 0 where
  call_sema_down : Semaphore → Call
  call_sema_up : Semaphore → Call
  call_lock_acquire : ℕ → Call
  call_lock_release : ℕ → Call
  call_cond_wait : ℕ → ℕ → Call
  call_cond_signal : ℕ → ℕ → Call
  call_cond_broadcast : ℕ → ℕ → Call
  call_hold : ℕ → Call
  call_link : ℕ → Call
  call_forget : ℕ → Call
  call_unlink : ℕ → Call

-- The scheduler, the semaphores, the locks, the `lock_list` of each thread, the threads whose
-- `struct semaphore_elem` is in the list of a condition, and what each thread is still to do of the
-- calls that it is in.
pub record Kernel : Type 0 where
  pub sched : Scheduler
  pub value : Semaphore → ℕ
  pub waiters : Semaphore → List ℕ
  pub holder : ℕ → Option ℕ
  pub lock_list : ℕ → List ℕ
  pub cond_waiters : ℕ → List ℕ
  pub todo : ℕ → List Call

-- The calls that the running thread is to make before the rest.
abbrev pub pending : List Call → Kernel → Kernel
pending cs k = record k { todo = assign k.todo k.sched.running (cs ++ k.todo k.sched.running) }

-- `sema_init`
unfoldable pub sema_init : Semaphore → ℕ → Kernel → Kernel
sema_init s value k = record k {
  value = assign_sema k.value s value;
  waiters = assign_sema k.waiters s [];
}

-- The body of the loop of `sema_down`; the thread has the next round still to do.
unfoldable pub wait_in : Semaphore → Kernel → Result Kernel
unfolding thread_current thread_block
wait_in s k = thread_current k.sched >>= λ t. thread_block k.sched >>= λ sched.
    ok (record (pending (call_sema_down s ∷ []) k) {
      sched = sched;
      waiters = assign_sema k.waiters s (k.waiters s ++ (t ∷ []));
    })

-- `sema->value--`
abbrev pub lower : Semaphore → Kernel → Kernel
lower s k = record k { value = assign_sema k.value s (k.value s - 1) }

-- One round of the loop of `sema_down` and, when the value is positive, what follows the loop.
unfoldable pub sema_down : Semaphore → Kernel → Result Kernel
unfolding wait_in
sema_down s k = if k.value s == 0 then wait_in s k else ok (lower s k)

-- `sema_try_down`
unfoldable pub sema_try_down : Semaphore → Kernel → Bool × Kernel
sema_try_down s k = if k.value s == 0 then (false, k) else (true, lower s k)

-- `sema->value++`
abbrev pub raise : Semaphore → Kernel → Kernel
raise s k = record k { value = assign_sema k.value s ((k.value s + 1) % 2 ^ 32) }

-- `thread_unblock` of the first waiter, if there is one.
unfoldable pub wake_first : Semaphore → List ℕ → Kernel → Result Kernel
unfolding thread_unblock
wake_first s [] k = ok k
wake_first s (t ∷ ts) k = thread_unblock t k.sched >>= λ sched.
    ok (record k { sched = sched; waiters = assign_sema k.waiters s ts })

-- `sema_up`
unfoldable pub sema_up : Semaphore → Kernel → Result Kernel
unfolding wake_first
sema_up s k = wake_first s (k.waiters s) k >>= λ k'. ok (raise s k')

abbrev pub is_holder : ℕ → Option ℕ → Bool
is_holder t none = false
is_holder t (some u) = u == t

-- `lock_held_by_current_thread`
unfoldable pub lock_held_by_current_thread : ℕ → Kernel → Result Bool
unfolding thread_current
lock_held_by_current_thread l k = thread_current k.sched >>= λ t. ok (is_holder t (k.holder l))

-- `lock_init`
unfoldable pub lock_init : ℕ → Kernel → Kernel
unfolding sema_init
lock_init l k = sema_init (of_lock l) 1 (record k { holder = assign k.holder l none })

-- `lock->holder = thread_current ()`
abbrev pub hold : ℕ → Kernel → Kernel
hold l k = record k { holder = assign k.holder l (some k.sched.running) }

-- `list_push_back` to the list of the running thread
abbrev pub link : ℕ → Kernel → Kernel
link l k = record k {
  lock_list = assign k.lock_list k.sched.running (k.lock_list k.sched.running ++ (l ∷ []));
}

-- `lock->holder = NULL`
abbrev pub forget : ℕ → Kernel → Kernel
forget l k = record k { holder = assign k.holder l none }

-- `list_remove` of the element of a lock, from whichever list it is in.
abbrev pub unlink : ℕ → Kernel → Kernel
unlink l k = record k { lock_list = λ t. list_remove l (k.lock_list t) }

-- `lock_acquire`
unfoldable pub lock_acquire : ℕ → Kernel → Result Kernel
unfolding lock_held_by_current_thread
lock_acquire l k = lock_held_by_current_thread l k >>= λ held.
    assert (not held)
    >> ok (pending (call_sema_down (of_lock l) ∷ call_hold l ∷ call_link l ∷ []) k)

-- `lock_try_acquire`, with its result.
unfoldable pub lock_try_acquire : ℕ → Kernel → Result (Bool × Kernel)
unfolding lock_held_by_current_thread sema_try_down
lock_try_acquire l k = lock_held_by_current_thread l k >>= λ held.
    let x = sema_try_down (of_lock l) k in
    assert (not held) >> ok (x.0, if x.0 then pending (call_hold l ∷ call_link l ∷ []) x.1 else x.1)

-- `lock_release`
unfoldable pub lock_release : ℕ → Kernel → Result Kernel
unfolding lock_held_by_current_thread
lock_release l k = lock_held_by_current_thread l k >>= λ held.
    assert held >> ok (pending (call_forget l ∷ call_unlink l ∷ call_sema_up (of_lock l) ∷ []) k)

-- `cond_wait`; the list of the condition is only used with the lock held.
unfoldable pub cond_wait : ℕ → ℕ → Kernel → Result Kernel
unfolding lock_held_by_current_thread sema_init
cond_wait c l k = lock_held_by_current_thread l k >>= λ held.
    let t = k.sched.running in
    let k' = sema_init (of_waiter t) 0 k in
    assert held
    >> ok
        (record (pending
          (call_lock_release l ∷ call_sema_down (of_waiter t) ∷ call_lock_acquire l ∷ []) k') {
            cond_waiters = assign k.cond_waiters c (k.cond_waiters c ++ (t ∷ []));
          })

-- The `sema_up` of the first of the waiters of a condition.
abbrev pub signal_first : ℕ → List ℕ → Kernel → Kernel
signal_first c [] k = k
signal_first c (t ∷ ts) k = record (pending (call_sema_up (of_waiter t) ∷ []) k) {
  cond_waiters = assign k.cond_waiters c ts;
}

-- `cond_signal`
unfoldable pub cond_signal : ℕ → ℕ → Kernel → Result Kernel
unfolding lock_held_by_current_thread
cond_signal c l k = lock_held_by_current_thread l k >>= λ held.
    assert held >> ok (signal_first c (k.cond_waiters c) k)

-- One round of the loop of `cond_broadcast`, with the next one still to do.
abbrev pub broadcast_round : ℕ → ℕ → List ℕ → Kernel → Kernel
broadcast_round c l [] k = k
broadcast_round c l (t ∷ ts) k = pending (call_cond_signal c l ∷ call_cond_broadcast c l ∷ []) k

unfoldable pub cond_broadcast : ℕ → ℕ → Kernel → Kernel
cond_broadcast c l k = broadcast_round c l (k.cond_waiters c) k

-- What a call of the running thread does.
unfoldable pub exec : Call → Kernel → Result Kernel
unfolding sema_down sema_up lock_acquire lock_release cond_wait cond_signal cond_broadcast
exec (call_sema_down s) k = sema_down s k
exec (call_sema_up s) k = sema_up s k
exec (call_lock_acquire l) k = lock_acquire l k
exec (call_lock_release l) k = lock_release l k
exec (call_cond_wait c l) k = cond_wait c l k
exec (call_cond_signal c l) k = cond_signal c l k
exec (call_cond_broadcast c l) k = ok (cond_broadcast c l k)
exec (call_hold l) k = ok (hold l k)
exec (call_link l) k = ok (link l k)
exec (call_forget l) k = ok (forget l k)
exec (call_unlink l) k = ok (unlink l k)
