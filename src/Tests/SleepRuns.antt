-- ===== src/Tests/SleepRuns.antt =====
-- Runs of the timer.
use os_labratory_spring.Prelude.{◌≡◌, [], ◌∷◌, ◌++◌, arith}
use os_labratory_spring.Sleep.{Timer, timer_interrupt}
use os_labratory_spring.Sleep.Wake.{Sorted, asleep, due, timer_interrupt-due}

abbrev two_asleep : Timer
two_asleep = record {
  now = 4;
  sleeping = record { thread = 1; wake = 5 } ∷ record { thread = 2; wake = 9 } ∷ [];
  ready = 3 ∷ [];
}

two_asleep-Sorted : Sorted two_asleep.sleeping
two_asleep-Sorted = ((omega arith, tt), (tt, tt))

timer_interrupt-due_example :
    (timer_interrupt two_asleep ≡ record {
      now = 5;
      sleeping = asleep 5 two_asleep.sleeping;
      ready = (3 ∷ []) ++ due 5 two_asleep.sleeping;
    })
    × Sorted (asleep 5 two_asleep.sleeping)
timer_interrupt-due_example = timer_interrupt-due two_asleep two_asleep-Sorted
