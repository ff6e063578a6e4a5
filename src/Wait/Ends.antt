-- ===== src/Wait/Ends.antt =====
-- How the runs of a parent and its child end.
use os_labratory_spring.Prelude.{
  ℕ, ◌+◌, ◌≡◌, refl, ap, sym, subst, ◌∙◌, inl, inr, true, false, none, some, List, [], ◌∷◌, ◌==◌,
  Bool-cases, eq→==,
}
use os_labratory_spring.Wait.{
  ChildProcess, get_child_process, put_child, remove_child_process, Parent, idle, before_down,
  returned, finish_wait, begin_wait, Progress, alive, status_set, exit_set, done, faulted, State,
  child_writes, with_parent, with_child, Step, waits, comes_down, sets_status, sets_exit, ups,
  Reaches, here, then_step,
}
use os_labratory_spring.Wait.Runs.{
  Tracked, Holds, Inv, if_cases, Reaches-Inv, get_child_process-pid, get_child_process-put_child,
}

-- A start of a run: the child is alive, and the parent, which has not waited for it, has it in its
-- list as `add_child_process` put it there, whatever its status is then.
pub record IsStart (pid : ℕ) (s : State) : Type 0 where
  pub cp : ChildProcess
  pub idle_parent : s.parent ≡ idle
  pub live_child : s.child ≡ alive
  pub listed : get_child_process s.children pid ≡ some cp
  pub flags : (cp.wait ≡ false) × (cp.exit ≡ false) × (cp.exit_sema ≡ 0)

IsStart-Inv : (pid status : ℕ) (s : State) → IsStart pid s → Inv pid status s
IsStart-Inv pid status s h =
    let t : Tracked pid status false alive s.children = record {
      cp = h.cp;
      listed = h.listed;
      flag = h.flags.0;
      written = (h.flags.1, h.flags.2);
    } in
    subst (λ (p : Parent). Holds pid status s.child s.children p) (sym h.idle_parent)
      (subst (λ (c : Progress). Tracked pid status false c s.children) (sym h.live_child) t)

-- In every order of the steps of a parent that waits and of its child that ends with
-- `exit (status)`, what `process_wait` returns is that status.
pub process_wait-status :
    (pid status value : ℕ) (s t : State)
    → IsStart pid s
    → Reaches pid status s t
    → t.parent ≡ returned value
    → value ≡ status
process_wait-status pid status value s t h r e =
    subst (λ (p : Parent). Holds pid status t.child t.children p) e
      (Reaches-Inv r (IsStart-Inv pid status s h))

-- A parent in front of `process_wait`, with a child that is done.
idle-returns :
    (pid status : ℕ) (t : State)
    → t.parent ≡ idle
    → Tracked pid status false done t.children
    → (u : State) × Reaches pid status t u × (u.parent ≡ returned status)
unfolding begin_wait finish_wait
idle-returns pid status t e k = (
  with_parent t (begin_wait t.children pid),
  then_step here (waits e),
  rw (begin_wait, k.listed, k.flag)
      (if_cases (λ x. x.0 ≡ returned status) k.cp.exit
        (finish_wait (put_child t.children (record (k.cp) { wait = true }))
          (record (k.cp) { wait = true }))
        (before_down k.cp.pid, put_child t.children (record (k.cp) { wait = true }))
        (λ x. ap returned k.written.1)
        (λ x. absurd (let yes_exit : k.cp.exit ≡ true = k.written.0 in cc))),
)

down-returns :
    (pid status : ℕ) (t : State)
    → t.parent ≡ before_down pid
    → Tracked pid status true done t.children
    → (u : State) × Reaches pid status t u × (u.parent ≡ returned status)
unfolding finish_wait
down-returns pid status t e k = (
  with_parent t (finish_wait t.children k.cp),
  then_step here (comes_down e k.listed k.written.2),
  ap returned k.written.1,
)

-- Once the child is behind its `sema_up`, in whatever order it came there, `process_wait` has
-- returned its status or a step of the parent makes it return that: no wake-up is lost.
pub process_wait-returns :
    (pid status : ℕ) (s t : State)
    → IsStart pid s
    → Reaches pid status s t
    → t.child ≡ done
    → (u : State) × Reaches pid status t u × (u.parent ≡ returned status)
process_wait-returns pid status s t h r e = go t.parent refl (
    subst (λ (c : Progress). Holds pid status c t.children t.parent) e
      (Reaches-Inv r (IsStart-Inv pid status s h)))
  where
    go :
        (p : Parent)
        → t.parent ≡ p
        → Holds pid status done t.children p
        → (u : State) × Reaches pid status t u × (u.parent ≡ returned status)
    go idle at k = idle-returns pid status t at k
    go (before_down q) at (same_pid, k) = down-returns pid status t (at ∙ ap before_down same_pid) k
    go (returned value) at same_status = (t, here, at ∙ ap returned same_status)

remove_child_process-put_child :
    (cps : List ChildProcess) (new : ChildProcess) (pid : ℕ)
    → pid ≡ new.pid
    → remove_child_process (put_child cps new) pid ≡ remove_child_process cps pid
remove_child_process-put_child [] new pid e = refl
remove_child_process-put_child (q ∷ qs) new pid e = elim (Bool-cases (new.pid == q.pid)) [
  | inl at ↦ rw (e, at, eq→== new.pid new.pid refl) refl
  | inr at ↦
      rw (e, at, at)
        (ap (λ (cps : List ChildProcess). q ∷ cps)
          (remove_child_process-put_child qs new new.pid refl))
]

get_child_process-put :
    (cps : List ChildProcess) (new cp : ChildProcess) (pid : ℕ)
    → pid ≡ new.pid
    → get_child_process cps pid ≡ some cp
    → get_child_process (put_child cps new) pid ≡ some new
get_child_process-put cps new cp pid e h =
    rw e
      (get_child_process-put_child cps new cp (ap (λ (q : ℕ). get_child_process cps q) (sym e) ∙ h))

child_writes-put :
    (cps : List ChildProcess) (pid : ℕ) (cp : ChildProcess) (f : ChildProcess → ChildProcess)
    (next : Progress)
    → get_child_process cps pid ≡ some cp
    → child_writes cps pid f next ≡ (next, put_child cps (f cp))
unfolding child_writes
child_writes-put cps pid cp f next h = rw (child_writes, h) refl

child_writes-freed :
    (cps : List ChildProcess) (pid : ℕ) (f : ChildProcess → ChildProcess) (next : Progress)
    → get_child_process cps pid ≡ none
    → (child_writes cps pid f next).0 ≡ faulted
unfolding child_writes
child_writes-freed cps pid f next h = rw (child_writes, h) refl

-- A wait for a child that has set `exit` frees its entry.
begin_wait-frees :
    (cps : List ChildProcess) (pid : ℕ) (cp : ChildProcess)
    → get_child_process cps pid ≡ some cp
    → cp.wait ≡ false
    → cp.exit ≡ true
    → (begin_wait cps pid).1 ≡ remove_child_process cps pid
unfolding begin_wait finish_wait
begin_wait-frees cps pid cp h w e =
    let at = get_child_process-pid cps pid cp h in
    rw (begin_wait, h, w)
      (if_cases (λ x. x.1 ≡ remove_child_process cps pid) cp.exit
        (finish_wait (put_child cps (record cp { wait = true })) (record cp { wait = true }))
        (before_down cp.pid, put_child cps (record cp { wait = true }))
        (λ x.
          ap (λ (q : ℕ). remove_child_process (put_child cps (record cp { wait = true })) q)
            (sym at)
          ∙ remove_child_process-put_child cps (record cp { wait = true }) pid at)
        (λ x. absurd cc))

-- From every start where no other child has the pid, the parent can free the struct of the child
-- while the child is between its `exit = true` and its `sema_up`, which then writes freed memory.
pub sema_up-freed :
    (pid status : ℕ) (s : State)
    → IsStart pid s
    → get_child_process (remove_child_process s.children pid) pid ≡ none
    → (t : State) × (t' : State) × Reaches pid status s t
      × (t.child ≡ exit_set)
      × (get_child_process t.children pid ≡ none)
      × Step pid status t t'
      × (t'.child ≡ faulted)
sema_up-freed pid status s h alone =
    let cp1 : ChildProcess = record (h.cp) { status = status } in
    let cp2 : ChildProcess = record cp1 { exit = true } in
    let at = get_child_process-pid s.children pid h.cp h.listed in
    let cps1 = put_child s.children cp1 in
    let cps2 = put_child cps1 cp2 in
    let listed1 : get_child_process cps1 pid ≡ some cp1 =
      get_child_process-put s.children cp1 h.cp pid at h.listed in
    let listed2 : get_child_process cps2 pid ≡ some cp2 =
      get_child_process-put cps1 cp2 cp1 pid at listed1 in
    let s1 : State = record s { child = status_set; children = cps1 } in
    let s2 : State = record s { child = exit_set; children = cps2 } in
    let s3 : State = with_parent s2 (begin_wait cps2 pid) in
    let first : Step pid status s s1 =
      subst (λ (x : Progress × List ChildProcess). Step pid status s (with_child s x))
        (child_writes-put s.children pid h.cp (λ cp. record cp { status = status }) status_set
          h.listed)
        (sets_status h.live_child) in
    let second : Step pid status s1 s2 =
      subst (λ (x : Progress × List ChildProcess). Step pid status s1 (with_child s1 x))
        (child_writes-put cps1 pid cp1 (λ cp. record cp { exit = true }) exit_set listed1)
        (sets_exit refl) in
    let gone : get_child_process s3.children pid ≡ none =
      ap (λ (cps : List ChildProcess). get_child_process cps pid)
        (begin_wait-frees cps2 pid cp2 listed2 h.flags.0 refl
          ∙ remove_child_process-put_child cps1 cp2 pid at
          ∙ remove_child_process-put_child s.children cp1 pid at)
      ∙ alone in
    (
      s3,
      with_child s3
          (child_writes s3.children pid (λ cp. record cp { exit_sema = cp.exit_sema + 1 }) done),
      then_step (then_step (then_step here first) second) (waits h.idle_parent),
      refl,
      gone,
      ups refl,
      child_writes-freed s3.children pid (λ cp. record cp { exit_sema = cp.exit_sema + 1 }) done
          gone,
    )
