-- ===== src/Synch/Steps.antt =====
-- The queues in every state that steps lead to, and what follows for `sema_up`.
use os_labratory_spring.Prelude.{
  ℕ, ◌≡◌, refl, sym, subst, ap, ◌∙◌, inl, inr, Bool, false, List, [], ◌∷◌, ◌++◌, Result, ok, ◌>>=◌,
  ◌>>◌, assert, Bool-cases, bind-ok, ok-inj,
}
use os_labratory_spring.Threads.{
  thread_ready, thread_blocked, is_blocked, Scheduler, assign, is_idle, thread_current,
  thread_unblock, leave,
}
use os_labratory_spring.Synch.{
  of_lock, Semaphore, assign_sema, Call, call_hold, call_link, Kernel, forget, unlink, raise,
  wake_first, sema_up, lock_try_acquire, exec,
}
use os_labratory_spring.Synch.Machine.{
  give_back, release_each, release_locks, thread_exit, IsFree, Step, goes_on, calls, tries, idles,
  is_interrupted, exits, creates, Reaches, here, then_step,
}
use os_labratory_spring.Synch.Pending.{lock_try_acquire-cases, give_back-steps}
use os_labratory_spring.Synch.Changes.{waiting_blocked}
use os_labratory_spring.Synch.Places.{InPlace}
use os_labratory_spring.Synch.Switches.{
  thread_block-idles, leave-InPlace, tick-InPlace, thread_create-InPlace,
}
use os_labratory_spring.Synch.Elements.{
  Placed, Keeps, Keeps-Placed, other_todo, same_Keeps, pending-Keeps, sema_up-Keeps, exec-Keeps,
}

-- Two changes of the state one after the other.
Keeps-then : {k mid k' : Kernel} → Keeps k mid → Keeps mid k' → Keeps k k'
Keeps-then x y = record {
  in_place = y.in_place;
  same_idle = y.same_idle ∙ x.same_idle;
  same_todo = λ t i. y.same_todo t (ap (is_idle t) x.same_idle ∙ i) ∙ x.same_todo t i;
}

give_back-Keeps :
    (l : ℕ) (k k' : Kernel) → give_back l k ≡ ok k' → InPlace k.waiters k.sched → Keeps k k'
give_back-Keeps l k k' h p =
    let x = give_back-steps l k k' h in
    let up = sema_up-Keeps (of_lock l) (unlink l (forget l k)) x.1 x.2 p in
    subst (Keeps k) (sym x.3)
      (record { in_place = up.in_place; same_idle = up.same_idle; same_todo = up.same_todo })

release_each-Keeps :
    (ls : List ℕ) (k k' : Kernel)
    → release_each ls k ≡ ok k'
    → InPlace k.waiters k.sched
    → Keeps k k'
unfolding release_each
release_each-Keeps [] k k' h p =
    subst (Keeps k) (ok-inj k k' h) (same_Keeps refl refl (λ t i. refl) p)
release_each-Keeps (l ∷ ls) k k' h p =
    let x = bind-ok (give_back l k) _ k' h in
    let first = give_back-Keeps l k x.0 x.1 p in
    Keeps-then first (release_each-Keeps ls x.0 k' x.2 first.in_place)

thread_exit-Keeps : (k k' : Kernel) → thread_exit k ≡ ok k' → InPlace k.waiters k.sched → Keeps k k'
unfolding thread_exit release_locks
thread_exit-Keeps k k' h p =
    let x = bind-ok (release_locks k) _ k' h in
    let y = bind-ok (thread_current k.sched) _ x.0 x.1 in
    let z = bind-ok (leave (x.0).sched) _ k' x.2 in
    let released = release_each-Keeps (k.lock_list y.0) k x.0 y.2 p in
    let left = leave-InPlace (x.0).sched z.0 released.in_place z.1 in
    subst (Keeps k) (ok-inj _ k' z.2) (
      Keeps-then released
        (record { in_place = left.0; same_idle = left.1; same_todo = λ t i. refl }))

with_sched-Keeps :
    (k : Kernel) (s : Scheduler)
    → InPlace k.waiters s × (s.idle_thread ≡ k.sched.idle_thread)
    → Keeps k (record k { sched = s })
with_sched-Keeps k s x = record { in_place = x.0; same_idle = x.1; same_todo = λ t i. refl }

-- A thread in a call is not the idle thread.
caller_busy :
    (k : Kernel) (c : Call) (cs : List Call)
    → Placed k
    → k.todo k.sched.running ≡ c ∷ cs
    → is_idle k.sched.running k.sched.idle_thread ≡ false
caller_busy k c cs p e = elim (Bool-cases (is_idle k.sched.running k.sched.idle_thread)) [
  | inl i ↦ absurd (let none_left = p.idle_calls k.sched.running i in cc)
  | inr i ↦ i
]

goes_on-Keeps :
    (k k' : Kernel) (c : Call) (cs : List Call)
    → Placed k
    → k.todo k.sched.running ≡ c ∷ cs
    → exec c (record k { todo = assign k.todo k.sched.running cs }) ≡ ok k'
    → Keeps k k'
goes_on-Keeps k k' c cs p e h =
    let busy = caller_busy k c cs p e in
    let popped : Kernel = record k { todo = assign k.todo k.sched.running cs } in
    Keeps-then
      (same_Keeps {k = k} {k' = popped} refl refl (λ t i. other_todo k cs t busy i) p.in_place)
      (exec-Keeps c popped k' busy h p.in_place)

tries-Keeps :
    (k k' : Kernel) (l : ℕ) (success : Bool)
    → Placed k
    → IsFree k
    → lock_try_acquire l k ≡ ok (success, k')
    → Keeps k k'
tries-Keeps k k' l success p f h = elim ((lock_try_acquire-cases l k k' success h).1) [
  | inl x ↦ subst (Keeps k) (sym x.1) (
      same_Keeps refl refl
        (λ t i. other_todo k (call_hold l ∷ call_link l ∷ k.todo k.sched.running) t f.busy i)
        p.in_place)
  | inr x ↦ subst (Keeps k) (sym x) (same_Keeps refl refl (λ t i. refl) p.in_place)
]

Step-Keeps : {k k' : Kernel} → Step k k' → Placed k → Keeps k k'
Step-Keeps {k} {k'} (goes_on c cs e h) p = goes_on-Keeps k k' c cs p e h
Step-Keeps {k} (calls c public f) p = pending-Keeps k (c ∷ []) f.busy p.in_place
Step-Keeps {k} {k'} (tries l success f h) p = tries-Keeps k k' l success p f h
Step-Keeps {k} (idles {s = s} i h) p =
    with_sched-Keeps k s (thread_block-idles k.sched s p.in_place h)
Step-Keeps {k} (is_interrupted {s = s} h) p =
    with_sched-Keeps k s (tick-InPlace k.sched s p.in_place h)
Step-Keeps {k} {k'} (exits f h) p = thread_exit-Keeps k k' h p.in_place
Step-Keeps {k} (creates {s = s} t tid u h) p = with_sched-Keeps k s (
    thread_create-InPlace t tid k.sched s p.in_place
      (record { not_ready = u.not_ready; not_waiting = u.not_waiting }) u.not_idle u.not_running h)

-- Whatever steps the threads take, each thread stays in at most one queue, at most once, and with
-- the status of that queue, the running thread is in none, and neither is the idle thread, which is
-- in no call.
pub Reaches-Placed : {k k' : Kernel} → Reaches k k' → Placed k → Placed k'
Reaches-Placed here p = p
Reaches-Placed (then_step r x) p =
    let before = Reaches-Placed r p in Keeps-Placed (Step-Keeps x before) before

unblock-returns :
    (t : ℕ) (s : Scheduler)
    → s.status t ≡ thread_blocked
    → (s' : Scheduler) × (thread_unblock t s ≡ ok s')
unfolding thread_unblock
unblock-returns t s h = (
  record s { ready_list = s.ready_list ++ (t ∷ []); status = assign s.status t thread_ready },
  ap
      (λ x.
        assert (is_blocked x)
        >> ok (record s {
          ready_list = s.ready_list ++ (t ∷ []);
          status = assign s.status t thread_ready;
        }))
      h,
)

wake_first-returns :
    (s : Semaphore) (ts : List ℕ) (k : Kernel)
    → k.waiters s ≡ ts
    → Placed k
    → (k' : Kernel) × (wake_first s ts k ≡ ok k')
unfolding wake_first
wake_first-returns s [] k e p = (k, refl)
wake_first-returns s (t ∷ ts) k e p =
    let x = unblock-returns t k.sched (waiting_blocked s t ts e p.in_place.queues) in
    (
      record k { sched = x.0; waiters = assign_sema k.waiters s ts },
      ap (λ r. r >>= λ sched. ok (record k { sched = sched; waiters = assign_sema k.waiters s ts }))
          x.1,
    )

-- In every state that steps lead to, `sema_up` returns: the thread that it wakes is blocked, so
-- that the ASSERT of `thread_unblock` holds.
pub sema_up-returns :
    (s : Semaphore) (k k' : Kernel)
    → Placed k
    → Reaches k k'
    → (k'' : Kernel) × (sema_up s k' ≡ ok k'')
unfolding sema_up
sema_up-returns s k k' p r =
    let x = wake_first-returns s (k'.waiters s) k' refl (Reaches-Placed r p) in
    (raise s x.0, ap (λ (w : Result Kernel). w >>= λ k. ok (raise s k)) x.1)
