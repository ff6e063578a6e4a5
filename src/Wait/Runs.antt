-- ===== src/Wait/Runs.antt =====
-- What the runs of a parent and its child come to.
use os_labratory_spring.Prelude.{
  ℕ, ◌+◌, ◌<◌, ◌≡◌, refl, ap, sym, subst, ◌∙◌, inl, inr, Bool, true, false, some, List, [], ◌∷◌,
  ◌==◌, if◌then◌else◌, arith, Bool-cases, eq→==,
}
use os_labratory_spring.Wait.{
  ChildProcess, get_child_process, put_child, Parent, idle, before_down, returned, finish_wait,
  begin_wait, Progress, alive, status_set, exit_set, done, faulted, State, child_writes, with_child,
  Step, waits, comes_down, sets_status, sets_exit, ups, Reaches, here, then_step,
}

-- What the child has written, by how far it is.
abbrev pub Recorded : ℕ → Progress → ChildProcess → Type 0
Recorded status alive cp = (cp.exit ≡ false) × (cp.exit_sema ≡ 0)
Recorded status status_set cp = (cp.exit ≡ false) × (cp.status ≡ status)
Recorded status exit_set cp = (cp.exit ≡ true) × (cp.status ≡ status)
Recorded status done cp = (cp.exit ≡ true) × (cp.status ≡ status) × (0 < cp.exit_sema)
Recorded status faulted cp = ⊥

-- The entry of the child in the list of its parent.
pub record Tracked (pid status : ℕ) (waited : Bool) (child : Progress) (cps : List ChildProcess)
    : Type 0 where
  pub cp : ChildProcess
  pub listed : get_child_process cps pid ≡ some cp
  pub flag : cp.wait ≡ waited
  pub written : Recorded status child cp

-- A state of a run: the parent has yet to take the status, or has taken the right one.
abbrev pub Holds : ℕ → ℕ → Progress → List ChildProcess → Parent → Type 0
Holds pid status child cps idle = Tracked pid status false child cps
Holds pid status child cps (before_down q) = (q ≡ pid) × Tracked pid status true child cps
Holds pid status child cps (returned value) = value ≡ status

abbrev pub Inv : ℕ → ℕ → State → Type 0
Inv pid status s = Holds pid status s.child s.children s.parent

pub option_same : {a b : ChildProcess} → some a ≡ some b → a ≡ b
option_same h = cc

pub get_child_process-pid :
    (cps : List ChildProcess) (pid : ℕ) (cp : ChildProcess)
    → get_child_process cps pid ≡ some cp
    → pid ≡ cp.pid
get_child_process-pid [] pid cp h = absurd cc
get_child_process-pid (q ∷ qs) pid cp h = elim (Bool-cases (pid == q.pid)) [
  | inl e ↦
      let first : get_child_process (q ∷ qs) pid ≡ some q = rw e refl in
      let same_child : q ≡ cp = cc in
      let at : pid ≡ q.pid = ground (arith, e) in at ∙ ap (λ (c : ChildProcess). c.pid) same_child
  | inr e ↦
      let later : get_child_process (q ∷ qs) pid ≡ get_child_process qs pid = rw e refl in
      get_child_process-pid qs pid cp (sym later ∙ h)
]

pub get_child_process-put_child :
    (cps : List ChildProcess) (new cp : ChildProcess)
    → get_child_process cps new.pid ≡ some cp
    → get_child_process (put_child cps new) new.pid ≡ some new
get_child_process-put_child [] new cp h = absurd cc
get_child_process-put_child (q ∷ qs) new cp h = elim (Bool-cases (new.pid == q.pid)) [
  | inl e ↦ let self : (new.pid == new.pid) ≡ true = eq→== new.pid new.pid refl in rw (e, self) refl
  | inr e ↦
      let later : get_child_process (q ∷ qs) new.pid ≡ get_child_process qs new.pid = rw e refl in
      let rest = get_child_process-put_child qs new cp (sym later ∙ h) in rw (e, e) rest
]

-- The entry after a write to it.
Tracked-put_child :
    {pid status : ℕ} {w w' : Bool} {child child' : Progress} {cps : List ChildProcess}
    (t : Tracked pid status w child cps) (new : ChildProcess)
    → new.pid ≡ t.cp.pid
    → new.wait ≡ w'
    → Recorded status child' new
    → Tracked pid status w' child' (put_child cps new)
Tracked-put_child {pid} {cps = cps} t new same_pid flag written =
    let at : new.pid ≡ pid = same_pid ∙ sym (get_child_process-pid cps pid t.cp t.listed) in
    record {
      cp = new;
      listed =
          subst (λ (q : ℕ). get_child_process (put_child cps new) q ≡ some new) at
            (get_child_process-put_child cps new t.cp
              (ap (λ (q : ℕ). get_child_process cps q) at ∙ t.listed));
      flag = flag;
      written = written;
    }

child_writes-Tracked :
    {pid status : ℕ} {w : Bool} {child : Progress} {cps : List ChildProcess}
    (t : Tracked pid status w child cps) (f : ChildProcess → ChildProcess) (next : Progress)
    → (f t.cp).pid ≡ t.cp.pid
    → (f t.cp).wait ≡ t.cp.wait
    → Recorded status next (f t.cp)
    → Tracked pid status w ((child_writes cps pid f next).0) ((child_writes cps pid f next).1)
unfolding child_writes
child_writes-Tracked {pid} {status} {w} {child} {cps} t f next same_pid same_wait written =
    let r = Tracked-put_child t (f t.cp) same_pid (same_wait ∙ t.flag) written in
    rw (child_writes, t.listed) r

pub exited :
    (status : ℕ) (child : Progress) (cp : ChildProcess)
    → Recorded status child cp
    → cp.exit ≡ true
    → cp.status ≡ status
exited status alive cp (e, z) h = absurd cc
exited status status_set cp (e, z) h = z
exited status exit_set cp (e, z) h = z
exited status done cp (e, z, p) h = z
exited status faulted cp e h = absurd e

upped :
    (status : ℕ) (child : Progress) (cp : ChildProcess)
    → Recorded status child cp
    → 0 < cp.exit_sema
    → cp.status ≡ status
upped status alive cp (e, z) h = absurd (omega arith)
upped status status_set cp (e, z) h = z
upped status exit_set cp (e, z) h = z
upped status done cp (e, z, p) h = z
upped status faulted cp e h = absurd e

Recorded-wait :
    (status : ℕ) (child : Progress) (cp : ChildProcess)
    → Recorded status child cp
    → Recorded status child (record cp { wait = true })
Recorded-wait status alive cp h = h
Recorded-wait status status_set cp h = h
Recorded-wait status exit_set cp h = h
Recorded-wait status done cp h = h
Recorded-wait status faulted cp h = h

pub if_cases :
    (P : Parent × List ChildProcess → Type 0) (b : Bool) (x y : Parent × List ChildProcess)
    → (b ≡ true → P x)
    → (b ≡ false → P y)
    → P (if b then x else y)
if_cases P true x y f g = f refl
if_cases P false x y f g = g refl

begin_wait-Holds :
    {pid status : ℕ} {child : Progress} {cps : List ChildProcess}
    → Tracked pid status false child cps
    → Holds pid status child ((begin_wait cps pid).1) ((begin_wait cps pid).0)
unfolding begin_wait finish_wait
begin_wait-Holds {pid} {status} {child} {cps} t =
    let cp' : ChildProcess = record (t.cp) { wait = true } in
    rw (begin_wait, t.listed, t.flag)
      (if_cases (λ x. Holds pid status child x.1 x.0) t.cp.exit
        (finish_wait (put_child cps cp') cp') (before_down t.cp.pid, put_child cps cp')
        (λ e. exited status child t.cp t.written e)
        (λ e. (
          sym (get_child_process-pid cps pid t.cp t.listed),
          Tracked-put_child t cp' refl refl (Recorded-wait status child t.cp t.written),
        )))

-- A write of the child keeps what holds, for a write that does what its progress says.
child_step :
    (pid status : ℕ) (s : State) (f : ChildProcess → ChildProcess) (next : Progress)
    → ((cp : ChildProcess) → ((f cp).pid ≡ cp.pid) × ((f cp).wait ≡ cp.wait))
    → ((cp : ChildProcess) → Recorded status s.child cp → Recorded status next (f cp))
    → Inv pid status s
    → Inv pid status (with_child s (child_writes s.children pid f next))
child_step pid status s f next same_fields writes h = go s.parent h
  where
    go :
        (parent : Parent)
        → Holds pid status s.child s.children parent
        → Holds pid status
            ((child_writes s.children pid f next).0)
            ((child_writes s.children pid f next).1)
            parent
    go idle t =
        child_writes-Tracked t f next ((same_fields t.cp).0) ((same_fields t.cp).1)
          (writes t.cp t.written)
    go (before_down q) (e, t) = (
      e,
      child_writes-Tracked t f next ((same_fields t.cp).0) ((same_fields t.cp).1)
          (writes t.cp t.written),
    )
    go (returned value) e = e

at_progress :
    (status : ℕ) {child c : Progress} (next : Progress) (f : ChildProcess → ChildProcess)
    → child ≡ c
    → ((cp : ChildProcess) → Recorded status c cp → Recorded status next (f cp))
    → (cp : ChildProcess) → Recorded status child cp
    → Recorded status next (f cp)
at_progress status next f e h cp w = h cp (subst (λ (c : Progress). Recorded status c cp) e w)

-- Every step keeps what holds.
Step-Inv :
    {pid status : ℕ} {s t : State} → Step pid status s t → Inv pid status s → Inv pid status t
unfolding finish_wait
Step-Inv {pid} {status} (waits {s} e) h =
    begin_wait-Holds (subst (λ (p : Parent). Holds pid status s.child s.children p) e h)
Step-Inv {pid} {status} (comes_down {s} {cp} e listed up) h =
    let t = (subst (λ (p : Parent). Holds pid status s.child s.children p) e h).1 in
    let same_child : t.cp ≡ cp = option_same (sym t.listed ∙ listed) in
    upped status s.child cp
      (subst (λ (c : ChildProcess). Recorded status s.child c) same_child t.written) up
Step-Inv {pid} {status} (sets_status {s} e) h =
    child_step pid status s (λ cp. record cp { status = status }) status_set (λ cp. (refl, refl))
      (at_progress status status_set (λ cp. record cp { status = status }) e (λ cp w. (w.0, refl)))
      h
Step-Inv {pid} {status} (sets_exit {s} e) h =
    child_step pid status s (λ cp. record cp { exit = true }) exit_set (λ cp. (refl, refl))
      (at_progress status exit_set (λ cp. record cp { exit = true }) e (λ cp w. (refl, w.1))) h
Step-Inv {pid} {status} (ups {s} e) h =
    child_step pid status s (λ cp. record cp { exit_sema = cp.exit_sema + 1 }) done
      (λ cp. (refl, refl))
      (at_progress status done (λ cp. record cp { exit_sema = cp.exit_sema + 1 }) e
        (λ cp w. (w.0, w.1, omega arith)))
      h

pub Reaches-Inv :
    {pid status : ℕ} {s t : State} → Reaches pid status s t → Inv pid status s → Inv pid status t
Reaches-Inv here h = h
Reaches-Inv (then_step r step) h = Step-Inv step (Reaches-Inv r h)
