-- ===== src/Sleep/Wake.antt =====
-- The sleeping threads are in order, and each runs at its tick.
use os_labratory_spring.Prelude.{
  ℕ, ◌+◌, ◌≤◌, ◌<◌, ◌≡◌, refl, ap, sym, false, List, [], ◌∷◌, ◌++◌, ltb, if◌then◌else◌, arith,
  dec_lt, lt→ltb,
}
use os_labratory_spring.Sleep.{
  Sleeper, Timer, insert_ordered, timer_sleep, wake_loop, timer_interrupt,
}

-- No thread of the list wants to run before `n`.
abbrev pub NotBefore : ℕ → List Sleeper → Type 0
NotBefore n [] = Unit
NotBefore n (s ∷ ss) = (n ≤ s.wake) × NotBefore n ss

abbrev pub Sorted : List Sleeper → Type 0
Sorted [] = Unit
Sorted (s ∷ ss) = NotBefore s.wake ss × Sorted ss

-- The threads that are to sleep on at tick `now`, and those that are to run.
abbrev pub asleep : ℕ → List Sleeper → List Sleeper
asleep now [] = []
asleep now (s ∷ ss) = if ltb now s.wake then s ∷ asleep now ss else asleep now ss

abbrev pub due : ℕ → List Sleeper → List ℕ
due now [] = []
due now (s ∷ ss) = if ltb now s.wake then due now ss else s.thread ∷ due now ss

NotBefore-le : (m n : ℕ) (ss : List Sleeper) → m ≤ n → NotBefore n ss → NotBefore m ss
NotBefore-le m n [] h b = tt
NotBefore-le m n (s ∷ ss) h (p, b) = (omega arith, NotBefore-le m n ss h b)

NotBefore-insert_ordered :
    (n : ℕ) (s : Sleeper) (ss : List Sleeper)
    → n ≤ s.wake
    → NotBefore n ss
    → NotBefore n (insert_ordered s ss)
unfolding insert_ordered
NotBefore-insert_ordered n s [] h b = (h, tt)
NotBefore-insert_ordered n s (t ∷ ts) h (p, b) = ground (arith, NotBefore-insert_ordered n s ts h b)

Sorted-insert_ordered : (s : Sleeper) (ss : List Sleeper) → Sorted ss → Sorted (insert_ordered s ss)
unfolding insert_ordered
Sorted-insert_ordered s [] h = (tt, tt)
Sorted-insert_ordered s (t ∷ ts) (b, h) = elim (dec_lt s.wake t.wake) [
  | yes l ↦
      let first : NotBefore s.wake ts = NotBefore-le s.wake t.wake ts (omega arith) b in
      let before : s.wake ≤ t.wake = omega arith in rw (lt→ltb _ _ l) ((before, first), (b, h))
  | no nl ↦
      let e : ltb s.wake t.wake ≡ false = ground arith in
      rw e (NotBefore-insert_ordered t.wake s ts (omega arith) b, Sorted-insert_ordered s ts h)
]

-- `timer_sleep` keeps the list of sleeping threads in the order of their ticks.
pub timer_sleep-Sorted :
    (thread n : ℕ) (timer : Timer)
    → Sorted timer.sleeping
    → Sorted (timer_sleep thread n timer).sleeping
unfolding timer_sleep
timer_sleep-Sorted thread n timer h = ground (
  arith,
  Sorted-insert_ordered (record { thread = thread; wake = timer.now + n }) timer.sleeping h,
)

asleep-later :
    (now n : ℕ) (ss : List Sleeper)
    → now < n
    → NotBefore n ss
    → (asleep now ss ≡ ss) × (due now ss ≡ [])
asleep-later now n [] l b = (refl, refl)
asleep-later now n (s ∷ ss) l (p, b) =
    let (e, d) = asleep-later now n ss l b in ground (arith, e, d)

NotBefore-asleep : (now n : ℕ) (ss : List Sleeper) → NotBefore n ss → NotBefore n (asleep now ss)
NotBefore-asleep now n [] b = tt
NotBefore-asleep now n (s ∷ ss) (p, b) = ground (arith, NotBefore-asleep now n ss b)

Sorted-asleep : (now : ℕ) (ss : List Sleeper) → Sorted ss → Sorted (asleep now ss)
Sorted-asleep now [] h = tt
Sorted-asleep now (s ∷ ss) (b, h) =
    ground (arith, NotBefore-asleep now s.wake ss b, Sorted-asleep now ss h)

append-[] : (xs : List ℕ) → xs ++ [] ≡ xs
append-[] [] = refl
append-[] (x ∷ xs) = ap (λ (ys : List ℕ). x ∷ ys) (append-[] xs)

append-one : (xs : List ℕ) (y : ℕ) (ys : List ℕ) → (xs ++ (y ∷ [])) ++ ys ≡ xs ++ (y ∷ ys)
append-one [] y ys = refl
append-one (x ∷ xs) y ys = ap (λ (zs : List ℕ). x ∷ zs) (append-one xs y ys)

wake_loop-due :
    (now : ℕ) (ss : List Sleeper) (ready : List ℕ)
    → Sorted ss
    → wake_loop now ss ready
      ≡ record { now = now; sleeping = asleep now ss; ready = ready ++ due now ss }
unfolding wake_loop
wake_loop-due now [] ready h =
    ap (λ (r : List ℕ). record { now = now; sleeping = []; ready = r }) (sym (append-[] ready))
wake_loop-due now (s ∷ ss) ready (b, h) = elim (dec_lt now s.wake) [
  | yes l ↦ let (e, d) = asleep-later now s.wake ss l b in ground (arith, e, d, append-[] ready)
  | no nl ↦ ground (
    arith,
    wake_loop-due now ss (ready ++ (s.thread ∷ [])) h,
    append-one ready s.thread (due now ss),
  )
]

-- With the sleeping threads in order, `timer_interrupt` counts one tick and unblocks, behind those
-- unblocked before and in their order, all the threads whose tick has come; all others sleep on,
-- and their list is in order.
pub timer_interrupt-due :
    (timer : Timer)
    → Sorted timer.sleeping
    → let now = timer.now + 1 in
      (timer_interrupt timer ≡ record {
        now = now;
        sleeping = asleep now timer.sleeping;
        ready = timer.ready ++ due now timer.sleeping;
      })
      × Sorted (asleep now timer.sleeping)
unfolding timer_interrupt
timer_interrupt-due timer h = (
  wake_loop-due (timer.now + 1) timer.sleeping timer.ready h,
  Sorted-asleep (timer.now + 1) timer.sleeping h,
)
