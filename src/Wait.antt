-- ===== src/Wait.antt =====
-- The children of a process: `struct child_process` and its functions in userprog/syscall.c, and
-- `process_wait` and the end of `process_exit` in userprog/process.c, as steps of the parent and of
-- a child between which the scheduler may switch.
pub mod Runs
pub mod Ends
use os_labratory_spring.Prelude.{
  ℕ, suc, ◌+◌, ◌-◌, ◌^◌, ◌<◌, ◌≡◌, Bool, true, false, Option, none, some, List, [], ◌∷◌, ◌++◌, ◌==◌,
  if◌then◌else◌,
}
use os_labratory_spring.Descriptors.{error_word}

-- `load` of a child: NOT_LOADED, LOAD_SUCCESS and LOAD_FAIL.
pub data Load : Type 0 where
  not_loaded : Load
  load_success : Load
  load_fail : Load

-- `struct child_process`, with the values of its semaphores.
pub record ChildProcess : Type 0 where
  pub pid : ℕ
  pub load : Load
  pub wait : Bool
  pub exit : Bool
  pub status : ℕ
  pub load_sema : ℕ
  pub exit_sema : ℕ

-- `add_child_process`; `mem` tells whether `malloc` finds room, and `status` what it finds there.
unfoldable pub add_child_process : Bool → ℕ → List ChildProcess → ℕ → List ChildProcess
add_child_process false status children pid = children
add_child_process true status children pid =
    children
    ++ (record {
      pid = pid;
      load = not_loaded;
      wait = false;
      exit = false;
      status = status;
      load_sema = 0;
      exit_sema = 0;
    }
        ∷ [])

-- `get_child_process`
abbrev pub get_child_process : List ChildProcess → ℕ → Option ChildProcess
get_child_process [] pid = none
get_child_process (cp ∷ cps) pid = if pid == cp.pid then some cp else get_child_process cps pid

-- `remove_child_process` of the child that `get_child_process` gives.
abbrev pub remove_child_process : List ChildProcess → ℕ → List ChildProcess
remove_child_process [] pid = []
remove_child_process (cp ∷ cps) pid =
    if pid == cp.pid then cps else cp ∷ remove_child_process cps pid

-- A write through the pointer that `get_child_process` gives.
abbrev pub put_child : List ChildProcess → ChildProcess → List ChildProcess
put_child [] new = []
put_child (cp ∷ cps) new = if new.pid == cp.pid then new ∷ cps else cp ∷ put_child cps new

-- Where the parent is: before `process_wait`, before its `sema_down` on a child, or behind it with
-- the value returned.
pub data Parent : Type 0 where
  idle : Parent
  before_down : ℕ → Parent
  returned : ℕ → Parent

-- `process_wait` from the read of the status on.
unfoldable pub finish_wait : List ChildProcess → ChildProcess → Parent × List ChildProcess
finish_wait children cp = (returned cp.status, remove_child_process children cp.pid)

-- `process_wait` up to its `sema_down`.
unfoldable pub begin_wait : List ChildProcess → ℕ → Parent × List ChildProcess
unfolding finish_wait
begin_wait children pid = elim (get_child_process children pid) [
  | none ↦ (returned error_word, children)
  | some cp ↦
      let cp' = record cp { wait = true } in
      let children' = put_child children cp' in
      let go = if cp.exit then finish_wait children' cp' else (before_down cp.pid, children') in
      if cp.wait then (returned error_word, children) else go
]

-- The rest of `exec` once the child has told whether it is loaded.
unfoldable pub finish_exec : List ChildProcess → ChildProcess → ℕ × List ChildProcess
finish_exec children cp = elim cp.load [
  | load_fail ↦ (error_word, remove_child_process children cp.pid)
  | _ ↦ (cp.pid, children)
]

-- How far a child is that ends with `exit (status)`: in `exit`, then in `process_exit` before its
-- `exit = true`, before its `sema_up` and behind it.  A write to a `struct child_process` that is
-- freed is a fault.
pub data Progress : Type 0 where
  alive : Progress
  status_set : Progress
  exit_set : Progress
  done : Progress
  faulted : Progress

pub record State : Type 0 where
  pub children : List ChildProcess
  pub parent : Parent
  pub child : Progress

-- A write of a child to its `struct child_process`.
unfoldable pub child_writes :
    List ChildProcess → ℕ → (ChildProcess → ChildProcess) → Progress → Progress × List ChildProcess
child_writes children pid f next = elim (get_child_process children pid) [
  | none ↦ (faulted, children)
  | some cp ↦ (next, put_child children (f cp))
]

abbrev pub with_parent : State → Parent × List ChildProcess → State
with_parent s x = record s { parent = x.0; children = x.1 }

abbrev pub with_child : State → Progress × List ChildProcess → State
with_child s x = record s { child = x.0; children = x.1 }

-- The steps of a parent that waits for the child `pid`, and of that child, which has a parent that
-- is alive and an executable, and ends with `exit (status)`.
pub data Step (pid status : ℕ) : State → State → Type 0 where
  waits :
      {s : State} → s.parent ≡ idle → Step pid status s (with_parent s (begin_wait s.children pid))
  comes_down :
      {s : State} {cp : ChildProcess}
      → s.parent ≡ before_down pid
      → get_child_process s.children pid ≡ some cp
      → 0 < cp.exit_sema
      → Step pid status s (with_parent s (finish_wait s.children cp))
  sets_status :
      {s : State}
      → s.child ≡ alive
      → Step pid status s (
          with_child s
            (child_writes s.children pid (λ cp. record cp { status = status }) status_set))
  sets_exit :
      {s : State}
      → s.child ≡ status_set
      → Step pid status s
          (with_child s (child_writes s.children pid (λ cp. record cp { exit = true }) exit_set))
  ups :
      {s : State}
      → s.child ≡ exit_set
      → Step pid status s (
          with_child s
            (child_writes s.children pid (λ cp. record cp { exit_sema = cp.exit_sema + 1 }) done))

-- The states that steps lead to.
pub data Reaches (pid status : ℕ) : State → State → Type 0 where
  here : {s : State} → Reaches pid status s s
  then_step :
      {s t u : State} → Reaches pid status s t → Step pid status t u → Reaches pid status s u
