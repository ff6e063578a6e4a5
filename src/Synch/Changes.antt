-- ===== src/Synch/Changes.antt =====
-- What it does to the queues when a thread enters one, leaves one or changes its status.
use os_labratory_spring.Prelude.{
  ℕ, ◌≤◌, ◌<◌, ◌≡◌, refl, sym, subst, ap, ◌∙◌, inl, inr, false, Option, List, [], ◌∷◌, ◌++◌, ◌==◌,
  arith, Bool-cases, ne→false,
}
use os_labratory_spring.Threads.{
  Status, thread_running, thread_ready, thread_blocked, assign, count, is_idle,
}
use os_labratory_spring.Synch.{Semaphore, same_semaphore, assign_sema}
use os_labratory_spring.Synch.Phases.{assign_cases}
use os_labratory_spring.Synch.Moves.{count-push}
use os_labratory_spring.Synch.Queues.{
  Queues, IsApart, assign_sema_cases, count_self, count_other, count-head, swap_ne, pushed,
  pushed_other, only_here, popped, front_count, front_in, zero_of, same_semaphore_refl,
}

module _ {status : ℕ → Status} {ready : List ℕ} {waiters : Semaphore → List ℕ}
    {idle : Option ℕ} where
  -- The status of a thread in no queue may be anything.
  pub Queues-status :
      (t : ℕ) (x : Status)
      → IsApart t ready waiters
      → Queues status ready waiters idle
      → Queues (assign status t x) ready waiters idle
  Queues-status t x a q = record {
    ready_status =
        assign_cases (λ u y. 0 < count u ready → y ≡ thread_ready) status t x
          (λ h. absurd (let none_in = a.not_ready in omega arith)) (λ u e. q.ready_status u);
    ready_once = q.ready_once;
    waiting_status = λ s.
        assign_cases (λ u y. 0 < count u (waiters s) → y ≡ thread_blocked) status t x
          (λ h. absurd (let none_in = a.not_waiting s in omega arith))
          (λ u e. q.waiting_status s u);
    waiting_once = q.waiting_once;
    one_queue = q.one_queue;
    idle_apart = q.idle_apart;
  }

  -- A thread in no queue is assign at the end of the ready list.
  pub Queues-ready :
      (t : ℕ)
      → IsApart t ready waiters
      → is_idle t idle ≡ false
      → Queues status ready waiters idle
      → Queues (assign status t thread_ready) (ready ++ (t ∷ [])) waiters idle
  Queues-ready t a busy q = record {
    ready_status =
        assign_cases (λ u y. 0 < count u (ready ++ (t ∷ [])) → y ≡ thread_ready) status t
          thread_ready (λ h. refl)
          (λ u e h. q.ready_status u (
            let x = count-push u t ready in
            let z = count_other t u (swap_ne t u e) in omega arith));
    ready_once = λ u. elim (Bool-cases (u == t)) [
      | inl e ↦
          let same : t ≡ u = ground (arith, e) in
          subst (λ u. count u (ready ++ (t ∷ [])) ≤ 1) same
            (let x = count-push t t ready in
              let y = a.not_ready in let z = count_self t in omega arith)
      | inr e ↦
          let x = count-push u t ready in
          let y = q.ready_once u in let z = count_other t u (swap_ne t u e) in omega arith
    ];
    waiting_status = λ s.
        assign_cases (λ u y. 0 < count u (waiters s) → y ≡ thread_blocked) status t thread_ready
          (λ h. absurd (let none_in = a.not_waiting s in omega arith))
          (λ u e. q.waiting_status s u);
    waiting_once = q.waiting_once;
    one_queue = q.one_queue;
    idle_apart = λ u i. (
      let apart : (t == u) ≡ false =
            ne→false t u (λ e. absurd (let is = ap (λ t. is_idle t idle) e in cc)) in
          let x = count-push u t ready in
          let y = (q.idle_apart u i).0 in let z = count_other t u apart in omega arith,
      (q.idle_apart u i).1,
    );
  }

  -- A thread in no queue is assign at the end of the list of a semaphore.
  pub Queues-wait :
      (s : Semaphore) (t : ℕ)
      → IsApart t ready waiters
      → is_idle t idle ≡ false
      → Queues status ready waiters idle
      → Queues
          (assign status t thread_blocked)
          ready
          (assign_sema waiters s (waiters s ++ (t ∷ [])))
          idle
  Queues-wait s t a busy q = record {
    ready_status =
        assign_cases (λ u y. 0 < count u ready → y ≡ thread_ready) status t thread_blocked
          (λ h. absurd (let none_in = a.not_ready in omega arith)) (λ u e. q.ready_status u);
    ready_once = q.ready_once;
    waiting_status = λ r u h. elim (Bool-cases (u == t)) [
      | inl e ↦ rw e refl
      | inr e ↦ rw e (q.waiting_status r u (pushed_other waiters s t u r e h))
    ];
    waiting_once = λ r u.
        assign_sema_cases (λ r us. count u us ≤ 1) waiters s (waiters s ++ (t ∷ []))
          (elim (Bool-cases (u == t)) [
            | inl e ↦
                let same : t ≡ u = ground (arith, e) in
                subst (λ u. count u (waiters s ++ (t ∷ [])) ≤ 1) same
                  (let x = count-push t t (waiters s) in
                    let y = a.not_waiting s in let z = count_self t in omega arith)
            | inr e ↦
                let x = count-push u t (waiters s) in
                let y = q.waiting_once s u in let z = count_other t u (swap_ne t u e) in omega arith
          ])
          (λ r e. q.waiting_once r u) r;
    one_queue = λ r r' u h h'. elim (Bool-cases (u == t)) [
      | inl e ↦
          let same : u ≡ t = ground (arith, e) in
          only_here waiters s t a.not_waiting r
            (subst (λ u. 0 < count u (pushed waiters s t r)) same h)
          ∙ sym (
              only_here waiters s t a.not_waiting r'
                (subst (λ u. 0 < count u (pushed waiters s t r')) same h'))
      | inr e ↦
          q.one_queue r r' u (pushed_other waiters s t u r e h) (pushed_other waiters s t u r' e h')
    ];
    idle_apart = λ u i. (
      (q.idle_apart u i).0,
      λ r.
          assign_sema_cases (λ r us. count u us ≡ 0) waiters s (waiters s ++ (t ∷ []))
            (let apart : (t == u) ≡ false =
                ne→false t u (λ e. absurd (let is = ap (λ t. is_idle t idle) e in cc)) in
              let x = count-push u t (waiters s) in
              let y = (q.idle_apart u i).1 s in let z = count_other t u apart in omega arith)
            (λ r e. (q.idle_apart u i).1 r) r,
    );
  }

  -- Threads leave the lists of semaphores.
  pub Queues-fewer :
      (waiters' : Semaphore → List ℕ)
      → ((s : Semaphore) (u : ℕ) → count u (waiters' s) ≤ count u (waiters s))
      → Queues status ready waiters idle
      → Queues status ready waiters' idle
  Queues-fewer waiters' fewer q = record {
    ready_status = q.ready_status;
    ready_once = q.ready_once;
    waiting_status = λ r u h. q.waiting_status r u (let b = fewer r u in omega arith);
    waiting_once = λ r u. let b = fewer r u in let c = q.waiting_once r u in omega arith;
    one_queue = λ r r' u h h'.
        q.one_queue r r' u (let b = fewer r u in omega arith) (let b = fewer r' u in omega arith);
    idle_apart = λ u i. (
      (q.idle_apart u i).0,
      λ r. let b = fewer r u in let c = (q.idle_apart u i).1 r in omega arith,
    );
  }

  -- A running thread is in no queue.
  pub running-IsApart :
      (t : ℕ)
      → status t ≡ thread_running
      → Queues status ready waiters idle
      → IsApart t ready waiters
  running-IsApart t h q = record {
    not_ready = zero_of (count t ready) (λ p. let x = q.ready_status t p in absurd cc);
    not_waiting =
        λ s. zero_of (count t (waiters s)) (λ p. let x = q.waiting_status s t p in absurd cc);
  }

  -- A thread in the list of a semaphore is not the idle thread.
  pub waiting_busy :
      (s : Semaphore) (t : ℕ) (ts : List ℕ)
      → waiters s ≡ t ∷ ts
      → Queues status ready waiters idle
      → is_idle t idle ≡ false
  waiting_busy s t ts e q = elim (Bool-cases (is_idle t idle)) [
    | inl i ↦
        absurd
          (let x = (q.idle_apart t i).1 s in let y = front_in (waiters s) t ts e in omega arith)
    | inr i ↦ i
  ]

  pub waiting_blocked :
      (s : Semaphore) (t : ℕ) (ts : List ℕ)
      → waiters s ≡ t ∷ ts
      → Queues status ready waiters idle
      → status t ≡ thread_blocked
  waiting_blocked s t ts e q = q.waiting_status s t (front_in (waiters s) t ts e)

  -- The front of the list of a semaphore leaves it.
  pub Queues-wake :
      (s : Semaphore) (t : ℕ) (ts : List ℕ)
      → waiters s ≡ t ∷ ts
      → Queues status ready waiters idle
      → Queues status ready (assign_sema waiters s ts) idle
        × IsApart t ready (assign_sema waiters s ts)
  Queues-wake s t ts e q = (
    Queues-fewer (assign_sema waiters s ts) (popped waiters s t ts e) q,
    record {
      not_ready = zero_of (count t ready) (λ h.
          let x = q.ready_status t h in
          let y = q.waiting_status s t (front_in (waiters s) t ts e) in absurd cc);
      not_waiting =
          assign_sema_cases (λ r us. count t us ≡ 0) waiters s ts
            (let x = front_count (waiters s) t ts e in let y = q.waiting_once s t in omega arith)
            (λ r apart. zero_of (count t (waiters r)) (λ h.
              let same : r ≡ s = q.one_queue r s t h (front_in (waiters s) t ts e) in
              let is = same_semaphore_refl s in
              absurd (let at = ap (λ r. same_semaphore r s) same in cc)));
    },
  )

  -- The front of the ready list leaves it.
  pub Queues-next :
      (t : ℕ) (ts : List ℕ)
      → ready ≡ t ∷ ts
      → Queues status ready waiters idle
      → Queues status ts waiters idle × IsApart t ts waiters
  Queues-next t ts e q = (
    record {
      ready_status = λ u h. q.ready_status u (let x = left u in omega arith);
      ready_once = λ u. let x = left u in let y = q.ready_once u in omega arith;
      waiting_status = q.waiting_status;
      waiting_once = q.waiting_once;
      one_queue = q.one_queue;
      idle_apart = λ u i.
          (let x = left u in let y = (q.idle_apart u i).0 in omega arith, (q.idle_apart u i).1);
    },
    record {
      not_ready = let x = front_count ready t ts e in let y = q.ready_once t in omega arith;
      not_waiting = λ s. zero_of (count t (waiters s)) (λ h.
          let x = q.ready_status t (front_in ready t ts e) in
          let y = q.waiting_status s t h in absurd cc);
    },
  )
    where
      left : (u : ℕ) → count u ts ≤ count u ready
      left u = let x = count-head u t ts in let y = ap (count u) e in omega arith
