-- ===== src/Threads/Rounds.antt =====
-- Which thread the scheduler runs next: `schedule` and `thread_yield` of threads/thread.c.

use os_labratory_spring.Prelude.{
  ℕ, ◌≡◌, refl, sym, subst, ap, ◌∙◌, inl, inr, Bool, true, false, none, some, List, [], ◌∷◌, ◌++◌,
  ◌==◌, if◌then◌else◌, ok, Bool-cases, assert-ok, ok-inj, All, eq→==,
}
use os_labratory_spring.Threads.{
  Status, thread_running, thread_ready, is_running, is_dying, Scheduler, assign, set_status,
  thread_current, take_next, next_thread_to_run, thread_schedule_tail, switch_to, schedule, is_idle,
  thread_yield,
}

-- The scheduler behind a switch to `t`, which was in front of `ts` in the ready list.
abbrev pub switched : ℕ → List ℕ → Scheduler → Scheduler
switched t ts s = record s {
  ready_list = ts;
  running = t;
  status = assign s.status t thread_running;
  thread_ticks = 0;
}

dying_after :
    (status : ℕ → Status) (t u : ℕ)
    → is_dying (status u) ≡ false
    → is_dying (assign status t thread_running u) ≡ false
dying_after status t u h = elim (Bool-cases (u == t)) [ inl e ↦ rw e refl | inr e ↦ rw e h ]

tail-switched :
    (t : ℕ) (ts : List ℕ) (s : Scheduler) (stay : Bool)
    → is_dying (s.status s.running) ≡ false
    → thread_schedule_tail
        (if stay then none else some s.running)
        (record s { ready_list = ts; running = t })
      ≡ ok (switched t ts s)
unfolding thread_schedule_tail
tail-switched t ts s true h = refl
tail-switched t ts s false h = rw (dying_after s.status t s.running h) refl

pub next_thread_to_run-front :
    (t : ℕ) (ts : List ℕ) (s : Scheduler)
    → s.ready_list ≡ t ∷ ts
    → next_thread_to_run s ≡ (some t, record s { ready_list = ts })
unfolding next_thread_to_run
next_thread_to_run-front t ts s e = ap (λ us. take_next us s) e

pub next_thread_to_run-idle :
    (s : Scheduler) → s.ready_list ≡ [] → next_thread_to_run s ≡ (s.idle_thread, s)
unfolding next_thread_to_run
next_thread_to_run-idle s e = ap (λ ts. take_next ts s) e

-- `schedule` takes the front of the ready list, whether or not that is the thread that ran.
pub schedule-switched :
    (t : ℕ) (ts : List ℕ) (s : Scheduler)
    → is_running (s.status s.running) ≡ false
    → is_dying (s.status s.running) ≡ false
    → s.ready_list ≡ t ∷ ts
    → schedule s ≡ ok (switched t ts s)
unfolding schedule switch_to
schedule-switched t ts s r d e =
    rw (schedule, r, next_thread_to_run-front t ts s e) (tail-switched t ts s (s.running == t) d)

pub current-running : (s : Scheduler) (t : ℕ) → thread_current s ≡ ok t → t ≡ s.running
unfolding thread_current
current-running s t h = let x = assert-ok _ (ok s.running) t h in sym (ok-inj s.running t x.1)

-- The running thread is marked as running, and the idle thread is not in the ready list.
pub record Sound (s : Scheduler) : Type 0 where
  pub current : is_running (s.status s.running) ≡ true
  pub busy : All (λ t. is_idle t s.idle_thread ≡ false) s.ready_list

-- What `thread_yield` leaves in the ready list behind its first thread.
abbrev pub requeued : Scheduler → List ℕ
requeued s = if is_idle s.running s.idle_thread then [] else s.running ∷ []

pub assign_self {ℓ} : {A : Type ℓ} (f : ℕ → A) (t : ℕ) (a : A) → assign f t a t ≡ a
assign_self f t a = rw (eq→== t t refl) refl

append_if :
    (b : Bool) (ts : List ℕ) (t : ℕ)
    → (if b then ts else ts ++ (t ∷ [])) ≡ ts ++ (if b then [] else t ∷ [])
append_if true [] t = refl
append_if true (u ∷ us) t = ap (λ ts. u ∷ ts) (append_if true us t)
append_if false ts t = refl

-- The scheduler behind a `thread_yield` that `t` follows.
abbrev pub yielded : ℕ → List ℕ → Scheduler → Scheduler
yielded t ts s = switched t (ts ++ requeued s) (set_status s.running thread_ready s)

pub thread_yield-yielded :
    (t : ℕ) (ts : List ℕ) (s : Scheduler)
    → is_running (s.status s.running) ≡ true
    → s.ready_list ≡ t ∷ ts
    → thread_yield s ≡ ok (yielded t ts s)
unfolding thread_yield thread_current
thread_yield-yielded t ts s r e =
    let mid : Scheduler = set_status s.running thread_ready (record s {
      ready_list =
          if is_idle s.running s.idle_thread
          then s.ready_list
          else s.ready_list ++ (s.running ∷ []);
    }) in
    let at : assign s.status s.running thread_ready s.running ≡ thread_ready =
      assign_self s.status s.running thread_ready in
    let front : mid.ready_list ≡ t ∷ (ts ++ requeued s) =
      append_if (is_idle s.running s.idle_thread) s.ready_list s.running
      ∙ ap (λ (us : List ℕ). us ++ requeued s) e in
    rw (thread_yield, r)
      (schedule-switched t (ts ++ requeued s) mid (ap is_running at) (ap is_dying at) front)

append-All : (P : ℕ → Type 0) (xs ys : List ℕ) → All P xs → All P ys → All P (xs ++ ys)
append-All P [] ys h k = k
append-All P (x ∷ xs) ys (p, h) k = (p, append-All P xs ys h k)

requeued-busy : (s : Scheduler) → All (λ t. is_idle t s.idle_thread ≡ false) (requeued s)
requeued-busy s = elim (Bool-cases (is_idle s.running s.idle_thread)) [
  | inl e ↦ rw e tt
  | inr e ↦ rw e (e, tt)
]

pub yielded-Sound :
    (t : ℕ) (ts : List ℕ) (s : Scheduler) → s.ready_list ≡ t ∷ ts → Sound s → Sound (yielded t ts s)
yielded-Sound t ts s e h = record {
  current = ap is_running (assign_self (assign s.status s.running thread_ready) t thread_running);
  busy =
      append-All (λ u. is_idle u s.idle_thread ≡ false) ts (requeued s)
        ((subst (All (λ u. is_idle u s.idle_thread ≡ false)) e h.busy).1) (requeued-busy s);
}
