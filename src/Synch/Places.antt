-- ===== src/Synch/Places.antt =====
-- The queues of the scheduler and of the semaphores under the operations of threads/thread.c.
use os_labratory_spring.Prelude.{
  ℕ, ◌≡◌, refl, sym, subst, ap, ◌∙◌, ◌⊎◌, inl, inr, Bool, true, false, Option, none, some, List, [],
  ◌∷◌, if◌then◌else◌, ok, ◌>>◌, assert, assert-ok, ok-inj, eq→==,
}
use os_labratory_spring.Threads.{
  thread_running, Scheduler, assign, is_idle, next_thread_to_run, thread_schedule_tail, switch_to,
  schedule,
}
use os_labratory_spring.Threads.Rounds.{
  assign_self, next_thread_to_run-front, next_thread_to_run-idle,
}
use os_labratory_spring.Synch.{Semaphore}
use os_labratory_spring.Synch.Queues.{Queues, IsApart}
use os_labratory_spring.Synch.Changes.{Queues-status, Queues-next}

-- The state behind `thread_schedule_tail`, but for counters and pages.
pub record IsTail (s s' : Scheduler) : Type 0 where
  pub tail_status : s'.status ≡ assign s.status s.running thread_running
  pub tail_ready : s'.ready_list ≡ s.ready_list
  pub tail_running : s'.running ≡ s.running
  pub tail_idle : s'.idle_thread ≡ s.idle_thread

tail_if :
    (a b c : Bool) (x y s' : Scheduler)
    → (if a then if b then ok x else (assert c >> ok y) else ok x) ≡ ok s'
    → (x ≡ s') ⊎ (y ≡ s')
tail_if true true c x y s' h = inl (ok-inj x s' h)
tail_if true false true x y s' h = inr (ok-inj y s' h)
tail_if true false false x y s' h = absurd cc
tail_if false b c x y s' h = inl (ok-inj x s' h)

to_tail : (s x s' : Scheduler) → IsTail s x → x ≡ s' → IsTail s s'
to_tail s x s' t e = subst (IsTail s) e t

thread_schedule_tail-IsTail :
    (prev : Option ℕ) (s s' : Scheduler) → thread_schedule_tail prev s ≡ ok s' → IsTail s s'
unfolding thread_schedule_tail
thread_schedule_tail-IsTail none s s' h =
    to_tail s _ s'
      (record { tail_status = refl; tail_ready = refl; tail_running = refl; tail_idle = refl })
      (ok-inj _ s' h)
thread_schedule_tail-IsTail (some t) s s' h = elim (tail_if _ _ _ _ _ s' h) [
  | inl e ↦
      to_tail s _ s'
        (record { tail_status = refl; tail_ready = refl; tail_running = refl; tail_idle = refl }) e
  | inr e ↦
      to_tail s _ s'
        (record { tail_status = refl; tail_ready = refl; tail_running = refl; tail_idle = refl }) e
]

-- The queues of a scheduler, with a running thread.
pub record InPlace (waiters : Semaphore → List ℕ) (s : Scheduler) : Type 0 where
  pub queues : Queues s.status s.ready_list waiters s.idle_thread
  pub current : s.status s.running ≡ thread_running

tail-InPlace :
    {waiters : Semaphore → List ℕ} (s s' : Scheduler)
    → IsTail s s'
    → IsApart s.running s.ready_list waiters
    → Queues s.status s.ready_list waiters s.idle_thread
    → InPlace waiters s'
tail-InPlace {waiters} s s' t a q = record {
  queues =
      rw (t.tail_status, t.tail_ready, t.tail_idle) (Queues-status s.running thread_running a q);
  current = rw (t.tail_status, t.tail_running) (assign_self s.status s.running thread_running);
}

switch_to-InPlace :
    {waiters : Semaphore → List ℕ} (cur next : ℕ) (s s' : Scheduler)
    → switch_to cur (some next) s ≡ ok s'
    → IsApart next s.ready_list waiters
    → Queues s.status s.ready_list waiters s.idle_thread
    → InPlace waiters s' × (s'.idle_thread ≡ s.idle_thread)
unfolding switch_to
switch_to-InPlace cur next s s' h a q =
    let t = thread_schedule_tail-IsTail _ (record s { running = next }) s' h in
    (tail-InPlace (record s { running = next }) s' t a q, t.tail_idle)

no_result : (cur : ℕ) (s s' : Scheduler) → switch_to cur none s ≡ ok s' → ⊥
unfolding switch_to
no_result cur s s' h = absurd cc

-- `schedule` from a state whose running thread has just been given another status.
pub schedule-InPlace :
    {waiters : Semaphore → List ℕ} (s s' : Scheduler)
    → schedule s ≡ ok s'
    → Queues s.status s.ready_list waiters s.idle_thread
    → InPlace waiters s' × (s'.idle_thread ≡ s.idle_thread)
unfolding schedule next_thread_to_run
schedule-InPlace {waiters} s s' h q =
    go s.ready_list s.idle_thread refl refl ((assert-ok _ _ s' h).1)
  where
    go :
        (ready : List ℕ) (idle : Option ℕ)
        → s.ready_list ≡ ready
        → s.idle_thread ≡ idle
        → switch_to s.running ((next_thread_to_run s).0) ((next_thread_to_run s).1) ≡ ok s'
        → InPlace waiters s' × (s'.idle_thread ≡ s.idle_thread)
    go (t ∷ ts) idle e i r =
        let x = Queues-next t ts e q in
        let goes =
          ap (λ (x : Option ℕ × Scheduler). switch_to s.running x.0 x.1)
            (sym (next_thread_to_run-front t ts s e))
          ∙ r in
        switch_to-InPlace s.running t (record s { ready_list = ts }) s' goes x.1 x.0
    go [] none e i r =
        let stops =
          ap (λ (o : Option ℕ). switch_to s.running o s) (sym i)
          ∙ ap (λ (x : Option ℕ × Scheduler). switch_to s.running x.0 x.1)
              (sym (next_thread_to_run-idle s e))
          ∙ r in
        absurd (no_result s.running s s' stops)
    go [] (some t) e i r =
        let goes =
          ap (λ (o : Option ℕ). switch_to s.running o s) (sym i)
          ∙ ap (λ (x : Option ℕ × Scheduler). switch_to s.running x.0 x.1)
              (sym (next_thread_to_run-idle s e))
          ∙ r in
        let apart = q.idle_apart t (ap (is_idle t) i ∙ eq→== t t refl) in
        switch_to-InPlace s.running t s s' goes
          (record { not_ready = apart.0; not_waiting = apart.1 }) q
