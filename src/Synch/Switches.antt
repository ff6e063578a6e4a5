-- ===== src/Synch/Switches.antt =====
-- What each operation of threads/thread.c does to the queues.
use os_labratory_spring.Prelude.{
  ℕ, ◌+◌, ◌≡◌, refl, sym, subst, ap, ◌∙◌, Bool, true, false, List, [], ◌∷◌, ◌++◌, ◌==◌,
  if◌then◌else◌, Result, ok, leb, bind-ok, assert-ok, ok-inj, ne→false,
}
use os_labratory_spring.Threads.{
  thread_ready, thread_blocked, thread_dying, Scheduler, assign, is_idle, set_status, list_remove,
  thread_current, schedule, thread_block, thread_unblock, thread_yield, count_tick, thread_tick,
  tick, leave, thread_create,
}
use os_labratory_spring.Threads.Rounds.{current-running}
use os_labratory_spring.Synch.{Semaphore, assign_sema}
use os_labratory_spring.Synch.Phases.{assign_other}
use os_labratory_spring.Synch.Moves.{not_eq}
use os_labratory_spring.Synch.Queues.{Queues, IsApart}
use os_labratory_spring.Synch.Changes.{Queues-status, Queues-ready, Queues-wait, running-IsApart}
use os_labratory_spring.Synch.Places.{InPlace, schedule-InPlace}

module _ {waiters : Semaphore → List ℕ} (s s' : Scheduler) (p : InPlace waiters s) where
  apart : IsApart s.running s.ready_list waiters
  apart = running-IsApart s.running p.current p.queues

  -- A thread that blocks in the list of a semaphore.
  pub thread_block-waits :
      (r : Semaphore)
      → is_idle s.running s.idle_thread ≡ false
      → thread_block s ≡ ok s'
      → InPlace (assign_sema waiters r (waiters r ++ (s.running ∷ []))) s'
        × (s'.idle_thread ≡ s.idle_thread)
  unfolding thread_block
  thread_block-waits r busy h =
      let x = bind-ok (thread_current s) _ s' h in
      let goes =
        ap (λ t. schedule (set_status t thread_blocked s)) (sym (current-running s x.0 x.1))
        ∙ x.2 in
      schedule-InPlace (set_status s.running thread_blocked s) s' goes
        (Queues-wait r s.running apart busy p.queues)

  -- The idle thread blocks in no list.
  pub thread_block-idles :
      thread_block s ≡ ok s' → InPlace waiters s' × (s'.idle_thread ≡ s.idle_thread)
  unfolding thread_block
  thread_block-idles h =
      let x = bind-ok (thread_current s) _ s' h in
      let goes =
        ap (λ t. schedule (set_status t thread_blocked s)) (sym (current-running s x.0 x.1))
        ∙ x.2 in
      schedule-InPlace (set_status s.running thread_blocked s) s' goes
        (Queues-status s.running thread_blocked apart p.queues)

  pub leave-InPlace : leave s ≡ ok s' → InPlace waiters s' × (s'.idle_thread ≡ s.idle_thread)
  unfolding leave
  leave-InPlace h =
      let x = bind-ok (thread_current s) _ s' h in
      let gone : ℕ → Scheduler =
        λ t. set_status t thread_dying (record s { all_list = list_remove t s.all_list }) in
      let goes = ap (λ t. schedule (gone t)) (sym (current-running s x.0 x.1)) ∙ x.2 in
      schedule-InPlace (gone s.running) s' goes
        (Queues-status s.running thread_dying apart p.queues)

  yield-Queues :
      (b : Bool)
      → is_idle s.running s.idle_thread ≡ b
      → Queues
          (assign s.status s.running thread_ready)
          (if b then s.ready_list else s.ready_list ++ (s.running ∷ []))
          waiters
          s.idle_thread
  yield-Queues true e = Queues-status s.running thread_ready apart p.queues
  yield-Queues false e = Queues-ready s.running apart e p.queues

  pub thread_yield-InPlace :
      thread_yield s ≡ ok s' → InPlace waiters s' × (s'.idle_thread ≡ s.idle_thread)
  unfolding thread_yield
  thread_yield-InPlace h =
      let x = bind-ok (thread_current s) _ s' h in
      let queued : ℕ → Scheduler = λ t. set_status t thread_ready (record s {
        ready_list = if is_idle t s.idle_thread then s.ready_list else s.ready_list ++ (t ∷ []);
      }) in
      let goes = ap (λ t. schedule (queued t)) (sym (current-running s x.0 x.1)) ∙ x.2 in
      schedule-InPlace (queued s.running) s' goes
        (yield-Queues (is_idle s.running s.idle_thread) refl)

  -- A blocked thread that is in no queue becomes ready.
  pub thread_unblock-InPlace :
      (t : ℕ)
      → IsApart t s.ready_list waiters
      → is_idle t s.idle_thread ≡ false
      → (t == s.running) ≡ false
      → thread_unblock t s ≡ ok s'
      → InPlace waiters s' × (s'.idle_thread ≡ s.idle_thread) × (s'.running ≡ s.running)
  unfolding thread_unblock
  thread_unblock-InPlace t a busy other h =
      let e = ok-inj _ s' ((assert-ok _ _ s' h).1) in
      let in_place : InPlace waiters (record s {
        ready_list = s.ready_list ++ (t ∷ []);
        status = assign s.status t thread_ready;
      }) =
        record {
          queues = Queues-ready t a busy p.queues;
          current =
              assign_other s.status t s.running thread_ready
                (ne→false s.running t (λ h. not_eq t s.running other (sym h)))
              ∙ p.current;
        } in
      (
        subst (InPlace waiters) e in_place,
        sym (ap (λ (s : Scheduler). s.idle_thread) e),
        sym (ap (λ (s : Scheduler). s.running) e),
      )

either : (P : Scheduler → Type 0) (b : Bool) (x y : Scheduler) → P x → P y → P (if b then x else y)
either P true x y p q = p
either P false x y p q = q

-- The counters of `thread_tick` are in no queue.
counts-InPlace :
    {waiters : Semaphore → List ℕ} (t : ℕ) (s : Scheduler) (n : ℕ)
    → InPlace waiters s
    → InPlace waiters (record (count_tick t s) { thread_ticks = n })
      × ((count_tick t s).idle_thread ≡ s.idle_thread)
      × ((count_tick t s).running ≡ s.running)
unfolding count_tick
counts-InPlace {waiters} t s n p =
    let Fine : Scheduler → Type 0 = λ c.
      InPlace waiters (record c { thread_ticks = n })
      × (c.idle_thread ≡ s.idle_thread)
      × (c.running ≡ s.running) in
    let same : InPlace waiters s = record { queues = p.queues; current = p.current } in
    either Fine (is_idle t s.idle_thread) (record s { idle_ticks = s.idle_ticks + 1 })
      (if s.has_pagedir t
        then record s { user_ticks = s.user_ticks + 1 }
        else record s { kernel_ticks = s.kernel_ticks + 1 })
      (record { queues = p.queues; current = p.current }, refl, refl)
      (either Fine (s.has_pagedir t) (record s { user_ticks = s.user_ticks + 1 })
        (record s { kernel_ticks = s.kernel_ticks + 1 })
        (record { queues = p.queues; current = p.current }, refl, refl)
        (record { queues = p.queues; current = p.current }, refl, refl))

yields_if :
    {waiters : Semaphore → List ℕ} (b : Bool) (s s' : Scheduler)
    → InPlace waiters s
    → (if b then thread_yield s else ok s) ≡ ok s'
    → InPlace waiters s' × (s'.idle_thread ≡ s.idle_thread)
yields_if true s s' p h = thread_yield-InPlace s s' p h
yields_if {waiters} false s s' p h =
    let e = ok-inj s s' h in
    (subst (InPlace waiters) e p, sym (ap (λ (s : Scheduler). s.idle_thread) e))

pub tick-InPlace :
    {waiters : Semaphore → List ℕ} (s s' : Scheduler)
    → InPlace waiters s
    → tick s ≡ ok s'
    → InPlace waiters s' × (s'.idle_thread ≡ s.idle_thread)
unfolding tick thread_tick
tick-InPlace {waiters} s s' p h =
    let x = bind-ok (thread_tick s) _ s' h in
    let y = bind-ok (thread_current s) _ x.0 x.1 in
    let c = counts-InPlace y.0 s (s.thread_ticks + 1) p in
    let at = ok-inj _ x.0 y.2 in
    let last : Bool × Scheduler → Result Scheduler =
      λ x. if x.0 then thread_yield x.1 else ok x.1 in
    let z =
      yields_if (leb 4 (s.thread_ticks + 1))
        (record (count_tick y.0 s) { thread_ticks = s.thread_ticks + 1 }) s' c.0
        (ap last at ∙ x.2) in
    (z.0, z.1 ∙ c.1)

-- A new thread is in no queue before its `thread_unblock`.
pub thread_create-InPlace :
    {waiters : Semaphore → List ℕ} (t tid : ℕ) (s s' : Scheduler)
    → InPlace waiters s
    → IsApart t s.ready_list waiters
    → is_idle t s.idle_thread ≡ false
    → (t == s.running) ≡ false
    → thread_create t tid s ≡ ok s'
    → InPlace waiters s' × (s'.idle_thread ≡ s.idle_thread)
unfolding thread_create
thread_create-InPlace t tid s s' p a busy other h =
    let x =
      thread_unblock-InPlace
        (record s {
          status = assign s.status t thread_blocked;
          tid = assign s.tid t tid;
          has_pagedir = assign s.has_pagedir t false;
          all_list = s.all_list ++ (t ∷ []);
        })
        s'
        (record {
          queues = Queues-status t thread_blocked a p.queues;
          current =
              assign_other s.status t s.running thread_blocked
                (ne→false s.running t (λ h. not_eq t s.running other (sym h)))
              ∙ p.current;
        })
        t a busy other h in
    (x.0, x.1)
