-- ===== src/Threads.antt =====
-- The scheduler: threads/thread.c, with `struct thread` of threads/thread.h.  A thread is named by
-- the address of its page, and each operation is a stretch of code with interrupts off.
pub mod Rounds
pub mod Turns
use os_labratory_spring.Prelude.{
  ℕ, zero, suc, ◌+◌, ◌≡◌, Bool, true, false, not, Option, none, some, List, [], ◌∷◌, ◌++◌, leb,
  ◌==◌, if◌then◌else◌, Result, ok, panic, ◌>>=◌, ◌>>◌, assert,
}

-- `enum thread_status`
pub data Status : Type 0 where
  thread_running : Status
  thread_ready : Status
  thread_blocked : Status
  thread_dying : Status

abbrev pub is_running : Status → Bool
is_running thread_running = true
is_running thread_ready = false
is_running thread_blocked = false
is_running thread_dying = false

abbrev pub is_blocked : Status → Bool
is_blocked thread_running = false
is_blocked thread_ready = false
is_blocked thread_blocked = true
is_blocked thread_dying = false

abbrev pub is_dying : Status → Bool
is_dying thread_running = false
is_dying thread_ready = false
is_dying thread_blocked = false
is_dying thread_dying = true

-- The variables of thread.c and the fields of the threads that it uses.
pub record Scheduler : Type 0 where
  pub status : ℕ → Status
  pub tid : ℕ → ℕ
  pub has_pagedir : ℕ → Bool
  pub running : ℕ
  pub ready_list : List ℕ
  pub all_list : List ℕ
  pub idle_thread : Option ℕ
  pub initial_thread : ℕ
  pub idle_ticks : ℕ
  pub kernel_ticks : ℕ
  pub user_ticks : ℕ
  pub thread_ticks : ℕ
  pub freed : List ℕ

-- A write to a field of the thread, semaphore or lock at an address.
abbrev pub assign {ℓ} : {A : Type ℓ} → (ℕ → A) → ℕ → A → ℕ → A
assign f t a u = if u == t then a else f u

-- `list_remove` of the element of `t`.
abbrev pub list_remove : ℕ → List ℕ → List ℕ
list_remove t [] = []
list_remove t (u ∷ us) = if u == t then us else u ∷ list_remove t us

-- How often a thread is in a list.
abbrev pub count : ℕ → List ℕ → ℕ
count l [] = 0
count l (m ∷ ms) = if m == l then suc (count l ms) else count l ms

abbrev pub set_status : ℕ → Status → Scheduler → Scheduler
set_status t new s = record s { status = assign s.status t new }

-- `thread_current`, but for the check of `magic`.
unfoldable pub thread_current : Scheduler → Result ℕ
thread_current s = assert (is_running (s.status s.running)) >> ok s.running

-- `next_thread_to_run`, which also takes the thread out of the ready list.
abbrev pub take_next : List ℕ → Scheduler → Option ℕ × Scheduler
take_next [] s = (s.idle_thread, s)
take_next (t ∷ ts) s = (some t, record s { ready_list = ts })

unfoldable pub next_thread_to_run : Scheduler → Option ℕ × Scheduler
next_thread_to_run s = take_next s.ready_list s

-- `thread_schedule_tail` in the thread that runs now; `prev` is NULL when there was no switch.
unfoldable pub thread_schedule_tail : Option ℕ → Scheduler → Result Scheduler
thread_schedule_tail prev s =
    let s' : Scheduler = record s {
      status = assign s.status s.running thread_running;
      thread_ticks = 0;
    } in
    elim prev [
      | none ↦ ok s'
      | some t ↦
          if is_dying (s'.status t)
          then if t == s.initial_thread
            then ok s'
            else (assert (not (t == s.running)) >> ok (record s' { freed = t ∷ s.freed }))
          else ok s'
    ]

-- `schedule` from the check of `next` on; `switch_threads` makes it the running thread.
unfoldable pub switch_to : ℕ → Option ℕ → Scheduler → Result Scheduler
unfolding thread_schedule_tail
switch_to cur none s = panic
switch_to cur (some next) s =
    thread_schedule_tail (if cur == next then none else some cur) (record s { running = next })

-- `schedule`
unfoldable pub schedule : Scheduler → Result Scheduler
unfolding next_thread_to_run switch_to
schedule s =
    assert (not (is_running (s.status s.running)))
    >> switch_to s.running ((next_thread_to_run s).0) ((next_thread_to_run s).1)

-- `thread_block`
unfoldable pub thread_block : Scheduler → Result Scheduler
unfolding thread_current schedule
thread_block s = thread_current s >>= λ t. schedule (set_status t thread_blocked s)

-- `thread_unblock`
unfoldable pub thread_unblock : ℕ → Scheduler → Result Scheduler
thread_unblock t s =
    assert (is_blocked (s.status t))
    >> ok (record s {
      ready_list = s.ready_list ++ (t ∷ []);
      status = assign s.status t thread_ready;
    })

-- `cur != idle_thread`
abbrev pub is_idle : ℕ → Option ℕ → Bool
is_idle t none = false
is_idle t (some i) = t == i

-- `thread_yield`
unfoldable pub thread_yield : Scheduler → Result Scheduler
unfolding thread_current schedule
thread_yield s = thread_current s >>= λ cur. schedule (
    set_status cur thread_ready (record s {
      ready_list = if is_idle cur s.idle_thread then s.ready_list else s.ready_list ++ (cur ∷ []);
    }))

-- The statistics of `thread_tick`.
unfoldable pub count_tick : ℕ → Scheduler → Scheduler
count_tick t s =
    if is_idle t s.idle_thread
    then record s { idle_ticks = s.idle_ticks + 1 }
    else if s.has_pagedir t
    then record s { user_ticks = s.user_ticks + 1 }
    else record s { kernel_ticks = s.kernel_ticks + 1 }

-- `thread_tick`, with whether the interrupt is to yield on its return.
unfoldable pub thread_tick : Scheduler → Result (Bool × Scheduler)
unfolding thread_current count_tick
thread_tick s = thread_current s >>= λ t.
    ok (leb 4 (s.thread_ticks + 1), record (count_tick t s) { thread_ticks = s.thread_ticks + 1 })

-- A timer interrupt: `thread_tick`, and the `thread_yield` on the return that it asks for.
unfoldable pub tick : Scheduler → Result Scheduler
unfolding thread_tick thread_yield
tick s = thread_tick s >>= λ x. if x.0 then thread_yield x.1 else ok x.1

unfoldable pub ticks : ℕ → Scheduler → Result Scheduler
unfolding tick
ticks zero s = ok s
ticks (suc n) s = tick s >>= λ s'. ticks n s'

-- The end of `thread_exit`, behind `release_locks`.
unfoldable pub leave : Scheduler → Result Scheduler
unfolding thread_current schedule
leave s = thread_current s >>= λ t.
    schedule (set_status t thread_dying (record s { all_list = list_remove t s.all_list }))

-- `thread_alive`
unfoldable pub thread_alive : ℕ → Scheduler → Bool
thread_alive pid s = any_tid s.tid s.all_list
  where
    any_tid : (ℕ → ℕ) → List ℕ → Bool
    any_tid tid [] = false
    any_tid tid (t ∷ ts) = if tid t == pid then true else any_tid tid ts

-- `init_thread` and the `thread_unblock` of `thread_create`, for a page `t` that `palloc_get_page`
-- gives and the number that `allocate_tid` does.
unfoldable pub thread_create : ℕ → ℕ → Scheduler → Result Scheduler
unfolding thread_unblock
thread_create t tid s = thread_unblock t (record s {
  status = assign s.status t thread_blocked;
  tid = assign s.tid t tid;
  has_pagedir = assign s.has_pagedir t false;
  all_list = s.all_list ++ (t ∷ []);
})
