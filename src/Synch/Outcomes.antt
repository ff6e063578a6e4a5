-- ===== src/Synch/Outcomes.antt =====
-- What the state is behind each function of threads/synch.c that returns.
use os_labratory_spring.Prelude.{
  ℕ, ◌≡◌, refl, sym, ap, ◌∙◌, ◌⊎◌, inl, inr, Bool, true, false, not, List, [], ◌∷◌, ◌==◌,
  if◌then◌else◌, ok, Bool-cases, bind-ok, assert-ok, ok-inj,
}
use os_labratory_spring.Threads.{thread_current, thread_block, thread_unblock}
use os_labratory_spring.Synch.{
  Semaphore, call_sema_down, Kernel, is_holder, raise, lower, wait_in, sema_down, wake_first,
  sema_up, pending, lock_held_by_current_thread,
}

-- Two states that differ in the scheduler, the waiters and the calls still to do only.
pub record IsSame (k k' : Kernel) : Type 0 where
  pub same_locks : k'.lock_list ≡ k.lock_list
  pub same_holder : k'.holder ≡ k.holder
  pub same_value : k'.value ≡ k.value

pub is_same :
    {k k' : Kernel}
    → k'.lock_list ≡ k.lock_list
    → k'.holder ≡ k.holder
    → k'.value ≡ k.value
    → IsSame k k'
is_same a b c = record { same_locks = a; same_holder = b; same_value = c }

-- `sema_down` went on, or its thread blocked with the next round still to do.
pub sema_down-cases :
    (s : Semaphore) (k k' : Kernel)
    → sema_down s k ≡ ok k'
    → (((k.value s == 0) ≡ false) × (k' ≡ lower s k))
      ⊎ (IsSame k k' × (k'.todo ≡ (pending (call_sema_down s ∷ []) k).todo))
unfolding sema_down wait_in
sema_down-cases s k k' h = elim (Bool-cases (k.value s == 0)) [
  | inl e ↦
      let waits : wait_in s k ≡ ok k' =
        ap (λ (b : Bool). if b then wait_in s k else ok (lower s k)) (sym e) ∙ h in
      let x = bind-ok (thread_current k.sched) _ k' waits in
      let y = bind-ok (thread_block k.sched) _ k' x.2 in
      let at = ok-inj _ k' y.2 in
      inr (
        is_same (sym (ap (λ (k : Kernel). k.lock_list) at)) (sym (ap (λ (k : Kernel). k.holder) at))
            (sym (ap (λ (k : Kernel). k.value) at)),
        sym (ap (λ (k : Kernel). k.todo) at),
      )
  | inr e ↦
      let lowers : ok (lower s k) ≡ ok k' =
        ap (λ (b : Bool). if b then wait_in s k else ok (lower s k)) (sym e) ∙ h in
      inl (e, sym (ok-inj (lower s k) k' lowers))
]

wake_first-IsSame :
    (s : Semaphore) (ts : List ℕ) (k k' : Kernel)
    → wake_first s ts k ≡ ok k'
    → IsSame k k' × (k'.todo ≡ k.todo)
unfolding wake_first
wake_first-IsSame s [] k k' h =
    let at = ok-inj k k' h in
    (
      is_same (sym (ap (λ (k : Kernel). k.lock_list) at)) (sym (ap (λ (k : Kernel). k.holder) at))
          (sym (ap (λ (k : Kernel). k.value) at)),
      sym (ap (λ (k : Kernel). k.todo) at),
    )
wake_first-IsSame s (t ∷ ts) k k' h =
    let x = bind-ok (thread_unblock t k.sched) _ k' h in
    let at = ok-inj _ k' x.2 in
    (
      is_same (sym (ap (λ (k : Kernel). k.lock_list) at)) (sym (ap (λ (k : Kernel). k.holder) at))
          (sym (ap (λ (k : Kernel). k.value) at)),
      sym (ap (λ (k : Kernel). k.todo) at),
    )

pub sema_up-raise :
    (s : Semaphore) (k k' : Kernel)
    → sema_up s k ≡ ok k'
    → (mid : Kernel) × IsSame k mid × (mid.todo ≡ k.todo) × (k' ≡ raise s mid)
unfolding sema_up
sema_up-raise s k k' h =
    let x = bind-ok (wake_first s (k.waiters s) k) _ k' h in
    let same = wake_first-IsSame s (k.waiters s) k x.0 x.1 in
    (x.0, same.0, same.1, sym (ok-inj _ k' x.2))

pub held-value :
    (l : ℕ) (k : Kernel) (b : Bool)
    → lock_held_by_current_thread l k ≡ ok b
    → is_holder k.sched.running (k.holder l) ≡ b
unfolding lock_held_by_current_thread thread_current
held-value l k b h =
    let x = bind-ok (thread_current k.sched) _ b h in
    let y = assert-ok _ (ok k.sched.running) x.0 x.1 in
    let t = ok-inj k.sched.running x.0 y.1 in
    ap (λ (t : ℕ). is_holder t (k.holder l)) t ∙ ok-inj _ b x.2

pub false_of_not : (b : Bool) → not b ≡ true → b ≡ false
false_of_not true h = absurd cc
false_of_not false h = refl
