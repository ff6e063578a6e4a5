-- ===== src/Sleep.antt =====
-- The sleeping threads of devices/timer.c.
pub mod Wake
use os_labratory_spring.Prelude.{ℕ, ◌+◌, List, [], ◌∷◌, ◌++◌, ltb, ◌==◌, if◌then◌else◌}

-- A thread in `sleep_list`, with the tick at which it wants to run.
pub record Sleeper : Type 0 where
  pub thread : ℕ
  pub wake : ℕ

-- The tick counter, `sleep_list`, and the threads that have been unblocked, in that order.
pub record Timer : Type 0 where
  pub now : ℕ
  pub sleeping : List Sleeper
  pub ready : List ℕ

-- `list_insert_ordered` with `cmp_ticks`.
unfoldable pub insert_ordered : Sleeper → List Sleeper → List Sleeper
insert_ordered s [] = s ∷ []
insert_ordered s (t ∷ ts) = if ltb s.wake t.wake then s ∷ t ∷ ts else t ∷ insert_ordered s ts

-- `timer_sleep` in thread `thread`; a negative number of ticks is 0 here.
unfoldable pub timer_sleep : ℕ → ℕ → Timer → Timer
unfolding insert_ordered
timer_sleep thread n timer = if n == 0 then timer else record timer {
  sleeping = insert_ordered (record { thread = thread; wake = timer.now + n }) timer.sleeping;
}

-- The loop of `timer_interrupt`: it stops at the first thread that is to sleep on.
unfoldable pub wake_loop : ℕ → List Sleeper → List ℕ → Timer
wake_loop now [] ready = record { now = now; sleeping = []; ready = ready }
wake_loop now (s ∷ ss) ready =
    if ltb now s.wake
    then record { now = now; sleeping = s ∷ ss; ready = ready }
    else wake_loop now ss (ready ++ (s.thread ∷ []))

-- `timer_interrupt`, but for `thread_tick`.
unfoldable pub timer_interrupt : Timer → Timer
unfolding wake_loop
timer_interrupt timer = wake_loop (timer.now + 1) timer.sleeping timer.ready
