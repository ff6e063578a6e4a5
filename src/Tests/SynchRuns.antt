-- ===== src/Tests/SynchRuns.antt =====
-- Runs of three threads: the main thread, 1, thread 2, and the idle thread, 9; and of their lock, 5.
use os_labratory_spring.Prelude.{
  ℕ, ◌≡◌, ◌<◌, ◌≤◌, refl, subst, ◌⊎◌, inl, inr, true, false, none, some, [], ◌∷◌, ◌==◌,
  if◌then◌else◌, Result, ok, panic, hang, arith, Bool-cases,
}
use os_labratory_spring.Threads.{
  Status, thread_running, thread_ready, thread_blocked, Scheduler, assign, count, is_idle, ticks,
}
use os_labratory_spring.Threads.Rounds.{Sound}
use os_labratory_spring.Threads.Turns.{ticks-runs}
use os_labratory_spring.Synch.{
  of_lock, call_lock_acquire, call_lock_release, call_sema_down, call_hold, call_link, Kernel,
  pending, lock_init, exec, is_holder, sema_up,
}
use os_labratory_spring.Synch.Machine.{
  goes_on, calls, Reaches, here, then_step, IsFree, thread_exit,
}
use os_labratory_spring.Synch.Runs.{IsStart}
use os_labratory_spring.Synch.Locks.{HasLock, lock_acquire-exclusive, holder-lock_list}
use os_labratory_spring.Synch.Leaves.{thread_exit-releases}
use os_labratory_spring.Synch.Elements.{Placed}
use os_labratory_spring.Synch.Steps.{Reaches-Placed, sema_up-returns}

abbrev statuses : ℕ → Status
statuses t = if t == 1 then thread_running else if t == 2 then thread_ready else thread_blocked

abbrev scheduler : Scheduler
scheduler = record {
  status = statuses;
  tid = λ t. t;
  has_pagedir = λ t. t == 2;
  running = 1;
  ready_list = 2 ∷ [];
  all_list = 1 ∷ 9 ∷ 2 ∷ [];
  idle_thread = some 9;
  initial_thread = 1;
  idle_ticks = 0;
  kernel_ticks = 0;
  user_ticks = 0;
  thread_ticks = 0;
  freed = [];
}

abbrev booted : Kernel
booted = record {
  sched = scheduler;
  value = λ s. 0;
  waiters = λ s. [];
  holder = λ l. none;
  lock_list = λ t. [];
  cond_waiters = λ c. [];
  todo = λ t. [];
}

booted-IsStart : IsStart 5 booted
booted-IsStart = record { no_calls = λ t. refl; no_locks = λ t. refl }

-- The next call of the running thread.
abbrev result : Result Kernel → Kernel
result (ok k) = k
result panic = booted
result hang = booted

abbrev goes : Kernel → Kernel
unfolding exec
goes k = elim (k.todo k.sched.running) [
  | [] ↦ k
  | c ∷ cs ↦ result (exec c (record k { todo = assign k.todo k.sched.running cs }))
]

abbrev k0 : Kernel
unfolding lock_init
k0 = lock_init 5 booted

abbrev k1 : Kernel
k1 = pending (call_lock_acquire 5 ∷ []) k0

abbrev k2 : Kernel
k2 = goes k1

abbrev k3 : Kernel
k3 = goes k2

abbrev k4 : Kernel
k4 = goes k3

abbrev k5 : Kernel
k5 = goes k4

to_k5 : Reaches (lock_init 5 booted) k5
unfolding lock_init exec goes
to_k5 =
    then_step
      (then_step
        (then_step
          (then_step
            (then_step here
              (calls (call_lock_acquire 5) tt (record { no_calls = refl; busy = refl })))
            (goes_on _ _ refl refl))
          (goes_on _ _ refl refl))
        (goes_on _ _ refl refl))
      (goes_on _ _ refl refl)

k5-HasLock : HasLock 5 k5 1
unfolding lock_init exec goes
k5-HasLock = omega arith

lock_acquire-exclusive_example : ◌≡◌ {A = ℕ} 1 1
lock_acquire-exclusive_example =
    lock_acquire-exclusive 5 1 1 booted k5 booted-IsStart to_k5 k5-HasLock k5-HasLock

k5-calls : k5.todo 1 ≡ []
unfolding lock_init exec goes
k5-calls = refl

holder-lock_list_example :
    ((is_holder 1 (k5.holder 5) ≡ true) × (count 5 (k5.lock_list 1) ≡ 1))
    ⊎ ((is_holder 1 (k5.holder 5) ≡ false) × (count 5 (k5.lock_list 1) ≡ 0))
holder-lock_list_example = holder-lock_list 5 1 booted k5 booted-IsStart to_k5 k5-calls

-- The lock is given back.
abbrev k6 : Kernel
k6 = goes (goes (goes (goes (pending (call_lock_release 5 ∷ []) k5))))

to_k6 : Reaches (lock_init 5 booted) k6
unfolding lock_init exec goes
to_k6 =
    then_step
      (then_step
        (then_step
          (then_step
            (then_step to_k5
              (calls (call_lock_release 5) tt (record { no_calls = refl; busy = refl })))
            (goes_on _ _ refl refl))
          (goes_on _ _ refl refl))
        (goes_on _ _ refl refl))
      (goes_on _ _ refl refl)

k6-calls : (t : ℕ) → k6.todo t ≡ []
unfolding lock_init exec goes
k6-calls t = elim (Bool-cases (t == 1)) [ inl e ↦ rw e refl | inr e ↦ rw e refl ]

k6-holder : k6.holder 5 ≡ none
unfolding lock_init exec goes
k6-holder = refl

-- Thread 1 has the lock, and thread 2 is in front of the `sema_down` for it.
abbrev contended : Kernel
contended = record booted {
  sched = record scheduler {
    status =
        λ t. if t == 2 then thread_running else if t == 1 then thread_ready else thread_blocked;
    running = 2;
    ready_list = 1 ∷ [];
  };
  holder = λ l. some 1;
  todo = λ t. if t == 2 then call_sema_down (of_lock 5) ∷ call_hold 5 ∷ call_link 5 ∷ [] else [];
}

ready_count : (t : ℕ) → count t (1 ∷ []) ≤ 1
ready_count t = elim (Bool-cases (1 == t)) [
  | inl e ↦ rw e (omega arith)
  | inr e ↦ rw e (omega arith)
]

ready_one : (t : ℕ) → 0 < count t (1 ∷ []) → 1 ≡ t
ready_one t = elim (Bool-cases (1 == t)) [
  | inl e ↦ λ h. ground (arith, e)
  | inr e ↦ rw e (λ h. absurd (omega arith))
]

idle_nine : (t : ℕ) → is_idle t (some 9) ≡ true → 9 ≡ t
idle_nine t h = ground (arith, h)

contended-Placed : Placed contended
contended-Placed = record {
  in_place = record {
    queues = record {
      ready_status =
          λ t h. subst (λ t. contended.sched.status t ≡ thread_ready) (ready_one t h) refl;
      ready_once = ready_count;
      waiting_status = λ s t h. absurd (omega arith);
      waiting_once = λ s t. omega arith;
      one_queue = λ s r t h h'. absurd (omega arith);
      idle_apart = λ t i. (subst (λ t. count t (1 ∷ []) ≡ 0) (idle_nine t i) refl, λ s. refl);
    };
    current = refl;
  };
  idle_calls = λ t i. subst (λ t. contended.todo t ≡ []) (idle_nine t i) refl;
}

abbrev waiting : Kernel
waiting = goes contended

to_waiting : Reaches contended waiting
unfolding exec goes
to_waiting = then_step here (goes_on _ _ refl refl)

waiting-waiters : waiting.waiters (of_lock 5) ≡ 2 ∷ []
unfolding exec goes
waiting-waiters = refl

Reaches-Placed_example : Placed waiting
Reaches-Placed_example = Reaches-Placed to_waiting contended-Placed

sema_up-returns_example : (k : Kernel) × (sema_up (of_lock 5) waiting ≡ ok k)
sema_up-returns_example = sema_up-returns (of_lock 5) contended waiting contended-Placed to_waiting

-- Three threads that compute: thread 3 has its turn within 8 ticks.
abbrev computing : Scheduler
computing = record scheduler { ready_list = 2 ∷ 3 ∷ [] }

computing-Sound : Sound computing
computing-Sound = record { current = refl; busy = (refl, (refl, tt)) }

ticks-runs_example :
    (m : ℕ) × (m ≤ 8) × (s : Scheduler) × (ticks m computing ≡ ok s) × (s.running ≡ 3)
ticks-runs_example = ticks-runs (2 ∷ []) 3 [] computing computing-Sound refl

-- Thread 1 ends with the lock, and thread 2 runs.
abbrev ended : Kernel
unfolding thread_exit
ended = result (thread_exit k5)

k5-exits : thread_exit k5 ≡ ok ended
unfolding lock_init exec goes thread_exit
k5-exits = refl

k5-IsFree : IsFree k5
unfolding lock_init exec goes
k5-IsFree = record { no_calls = refl; busy = refl }

thread_exit-releases_example :
    (count 5 (ended.lock_list k5.sched.running) ≡ 0)
    × (is_holder k5.sched.running (ended.holder 5) ≡ false)
thread_exit-releases_example =
    thread_exit-releases 5 booted k5 ended booted-IsStart to_k5 k5-IsFree k5-exits
