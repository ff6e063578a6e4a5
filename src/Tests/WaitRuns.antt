-- ===== src/Tests/WaitRuns.antt =====
-- Runs of a parent with one child, process 7, which ends with `exit (42)`.
use os_labratory_spring.Prelude.{ℕ, ◌≡◌, refl, true, false, none, [], ◌∷◌, arith}
use os_labratory_spring.Wait.{
  exit_set, get_child_process, Step, ChildProcess, not_loaded, before_down, comes_down,
  add_child_process, State, idle, returned, finish_wait, begin_wait, alive, done, faulted,
  child_writes, Reaches, here, then_step, waits, sets_status, sets_exit, ups,
}
use os_labratory_spring.Wait.Ends.{
  IsStart, process_wait-status, process_wait-returns, sema_up-freed,
}

abbrev at_start : State
unfolding add_child_process
at_start = record { children = add_child_process true 5 [] 7; parent = idle; child = alive }

abbrev entry : ChildProcess
entry = record {
  pid = 7;
  load = not_loaded;
  wait = false;
  exit = false;
  status = 5;
  load_sema = 0;
  exit_sema = 0;
}

at_start-IsStart : IsStart 7 at_start
unfolding add_child_process
at_start-IsStart = record {
  cp = entry;
  idle_parent = refl;
  live_child = refl;
  listed = refl;
  flags = (refl, refl, refl);
}

-- The parent waits, and then the child ends.
abbrev waiting : State
waiting = record {
  children = record entry { wait = true } ∷ [];
  parent = before_down 7;
  child = alive;
}

abbrev ended : ChildProcess
ended = record entry { wait = true; exit = true; status = 42; exit_sema = 1 }

abbrev signalled : State
signalled = record { children = ended ∷ []; parent = before_down 7; child = done }

abbrev over : State
over = record { children = []; parent = returned 42; child = done }

to_signalled : Reaches 7 42 at_start signalled
unfolding add_child_process begin_wait child_writes
to_signalled =
    then_step
      (then_step (then_step (then_step here (waits refl)) (sets_status refl)) (sets_exit refl))
      (ups refl)

to_over : Reaches 7 42 at_start over
unfolding finish_wait
to_over = then_step to_signalled (comes_down {cp = ended} refl refl (omega arith))

abbrev exit_status : ℕ
exit_status = 42

process_wait-status_example : exit_status ≡ 42
process_wait-status_example =
    process_wait-status 7 42 exit_status at_start over at_start-IsStart to_over refl

process_wait-returns_example : (u : State) × Reaches 7 42 signalled u × (u.parent ≡ returned 42)
process_wait-returns_example =
    process_wait-returns 7 42 at_start signalled at_start-IsStart to_signalled refl

sema_up-freed_example :
    (t : State) × (t' : State) × Reaches 7 42 at_start t
    × (t.child ≡ exit_set)
    × (get_child_process t.children 7 ≡ none)
    × Step 7 42 t t'
    × (t'.child ≡ faulted)
unfolding add_child_process
sema_up-freed_example = sema_up-freed 7 42 at_start at_start-IsStart refl
