-- ===== src/Threads/Turns.antt =====
-- What the ticks of the timer come to: `thread_tick` and the return of its interrupt.
use mathlib.Core.List.{append_assoc}
use os_labratory_spring.Prelude.{
  ℕ, zero, suc, ◌+◌, ◌*◌, ◌≤◌, ◌≡◌, refl, sym, ap, ◌∙◌, inl, inr, Bool, true, false, List, [], ◌∷◌,
  ◌++◌, leb, if◌then◌else◌, Result, ok, ◌>>=◌, arith, Bool-cases, bind-ext, bind_assoc, length,
}
use os_labratory_spring.Threads.{
  Scheduler, thread_current, is_idle, count_tick, thread_tick, tick, ticks,
}
use os_labratory_spring.Threads.Rounds.{
  Sound, requeued, yielded, thread_yield-yielded, yielded-Sound,
}

-- Two states that differ in counters only.
record Alike (s s' : Scheduler) : Type 0 where
  pub same_status : s'.status ≡ s.status
  pub same_running : s'.running ≡ s.running
  pub same_ready : s'.ready_list ≡ s.ready_list
  pub same_idle : s'.idle_thread ≡ s.idle_thread

abbrev counted : Scheduler → Scheduler
unfolding count_tick
counted s = record (count_tick s.running s) { thread_ticks = s.thread_ticks + 1 }

either : (P : Scheduler → Type 0) (b : Bool) (x y : Scheduler) → P x → P y → P (if b then x else y)
either P true x y p q = p
either P false x y p q = q

alike :
    {s s' : Scheduler}
    → s'.status ≡ s.status
    → s'.running ≡ s.running
    → s'.ready_list ≡ s.ready_list
    → s'.idle_thread ≡ s.idle_thread
    → Alike s s'
alike a b c d = record { same_status = a; same_running = b; same_ready = c; same_idle = d }

counted-Alike : (s : Scheduler) → Alike s (counted s)
unfolding count_tick
counted-Alike s =
    let P : Scheduler → Type 0 = λ c. Alike s (record c { thread_ticks = s.thread_ticks + 1 }) in
    either P (is_idle s.running s.idle_thread) (record s { idle_ticks = s.idle_ticks + 1 })
      (if s.has_pagedir s.running
        then record s { user_ticks = s.user_ticks + 1 }
        else record s { kernel_ticks = s.kernel_ticks + 1 })
      (alike refl refl refl refl)
      (either P (s.has_pagedir s.running) (record s { user_ticks = s.user_ticks + 1 })
        (record s { kernel_ticks = s.kernel_ticks + 1 }) (alike refl refl refl refl)
        (alike refl refl refl refl))

Alike-Sound : {s s' : Scheduler} → Alike s s' → Sound s → Sound s'
Alike-Sound a h = record {
  current = rw (a.same_status, a.same_running) h.current;
  busy = rw (a.same_idle, a.same_ready) h.busy;
}

Alike-requeued : {s s' : Scheduler} → Alike s s' → requeued s' ≡ requeued s
Alike-requeued a = rw (a.same_idle, a.same_running) refl

-- What a tick does: it switches to the front of the ready list, or it counts.
tick-yields :
    (t : ℕ) (ts : List ℕ) (s : Scheduler)
    → Sound s
    → s.ready_list ≡ t ∷ ts
    → leb 4 (s.thread_ticks + 1) ≡ true
    → tick s ≡ ok (yielded t ts (counted s))
unfolding tick thread_tick thread_current
tick-yields t ts s h e l =
    let a = counted-Alike s in
    rw (tick, h.current, l)
      (thread_yield-yielded t ts (counted s) ((Alike-Sound a h).current) (a.same_ready ∙ e))

tick-counts :
    (s : Scheduler) → Sound s → leb 4 (s.thread_ticks + 1) ≡ false → tick s ≡ ok (counted s)
unfolding tick thread_tick thread_current
tick-counts s h l = rw (tick, h.current, l) refl

-- A state some ticks later, with `t` running at the start of its time slice.
pub record Turn (n t : ℕ) (ts : List ℕ) (s : Scheduler) : Type 0 where
  pub count : ℕ
  pub bound : count ≤ n
  pub later : Scheduler
  pub reached : ticks count s ≡ ok later
  pub at : later.running ≡ t
  pub left : later.ready_list ≡ ts
  pub sound : Sound later

yields_now :
    (n t : ℕ) (ts : List ℕ) (s : Scheduler)
    → Sound s
    → s.ready_list ≡ t ∷ ts
    → leb 4 (s.thread_ticks + 1) ≡ true
    → Turn (suc n) t (ts ++ requeued s) s
unfolding ticks
yields_now n t ts s h e l =
    let a = counted-Alike s in
    record {
      count = 1;
      bound = omega arith;
      later = yielded t ts (counted s);
      reached = rw (tick-yields t ts s h e l) refl;
      at = refl;
      left = ap (λ (us : List ℕ). ts ++ us) (Alike-requeued a);
      sound = yielded-Sound t ts (counted s) (a.same_ready ∙ e) (Alike-Sound a h);
    }

-- A turn that a tick of counting precedes.
counts_first :
    (n t : ℕ) (ts : List ℕ) (s : Scheduler)
    → Sound s
    → leb 4 (s.thread_ticks + 1) ≡ false
    → Turn n t (ts ++ requeued (counted s)) (counted s)
    → Turn (suc n) t (ts ++ requeued s) s
unfolding ticks
counts_first n t ts s h l r = record {
  count = suc r.count;
  bound = let b = r.bound in omega arith;
  later = r.later;
  reached = rw (tick-counts s h l) r.reached;
  at = r.at;
  left = r.left ∙ ap (λ (us : List ℕ). ts ++ us) (Alike-requeued (counted-Alike s));
  sound = r.sound;
}

slice :
    (n t : ℕ) (ts : List ℕ) (s : Scheduler)
    → Sound s
    → s.ready_list ≡ t ∷ ts
    → 4 ≤ s.thread_ticks + suc n
    → Turn (suc n) t (ts ++ requeued s) s
unfolding counted
slice zero t ts s h e b = yields_now 0 t ts s h e (ground arith)
slice (suc n) t ts s h e b = elim (Bool-cases (leb 4 (s.thread_ticks + 1))) [
  | inl l ↦ yields_now (suc n) t ts s h e l
  | inr l ↦
      let a = counted-Alike s in
      counts_first (suc n) t ts s h l
        (slice n t ts (counted s) (Alike-Sound a h) (a.same_ready ∙ e) (omega arith))
]

ticks-add : (m n : ℕ) (s : Scheduler) → ticks (m + n) s ≡ (ticks m s >>= λ later. ticks n later)
unfolding ticks
ticks-add zero n s = let e : 0 + n ≡ n = omega arith in ap (λ (k : ℕ). ticks k s) e
ticks-add (suc m) n s =
    let e : suc m + n ≡ suc (m + n) = omega arith in
    ap (λ (k : ℕ). ticks k s) e
    ∙ bind-ext (tick s) (ticks (m + n)) (λ s'. ticks m s' >>= λ later. ticks n later)
        (λ s'. ticks-add m n s')
    ∙ sym (bind_assoc (tick s) (ticks m) (ticks n))

ticks-after :
    (m n : ℕ) (s later : Scheduler) → ticks m s ≡ ok later → ticks (m + n) s ≡ ticks n later
ticks-after m n s later h =
    ticks-add m n s ∙ ap (λ (r : Result Scheduler). r >>= λ s'. ticks n s') h

-- With `length us` threads in front of `t` in the ready list, `t` runs within that many time slices
-- and one more, each of 4 ticks.
pub ticks-runs :
    (us : List ℕ) (t : ℕ) (ts : List ℕ) (s : Scheduler)
    → Sound s
    → s.ready_list ≡ us ++ (t ∷ ts)
    → (m : ℕ) × (m ≤ 4 * suc (length us))
      × (s' : Scheduler) × (ticks m s ≡ ok s')
      × (s'.running ≡ t)
ticks-runs [] t ts s h e =
    let r = slice 3 t ts s h e (omega arith) in (r.count, r.bound, r.later, r.reached, r.at)
ticks-runs (u ∷ us) t ts s h e =
    let r = slice 3 u (us ++ (t ∷ ts)) s h e (omega arith) in
    let b = r.bound in
    let x =
      ticks-runs us t (ts ++ requeued s) r.later r.sound
        (r.left ∙ append_assoc us (t ∷ ts) (requeued s)) in
    let c = x.1 in
    (r.count + x.0, omega arith, x.2, ticks-after r.count x.0 s r.later r.reached ∙ x.3, x.4)
