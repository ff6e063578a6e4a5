-- ===== src/Synch/Leaves.antt =====
-- What a thread that ends leaves of its locks.
use os_labratory_spring.Prelude.{
  ℕ, ◌-◌, ◌≤◌, ◌≡◌, sym, subst, ap, ◌∙◌, inl, inr, false, List, [], ◌∷◌, ◌==◌, ok, arith,
  Bool-cases, bind-ok, ok-inj,
}
use os_labratory_spring.Threads.{list_remove, count, thread_current, leave}
use os_labratory_spring.Synch.{of_lock, Call, Kernel, is_holder, forget, unlink, lock_init}
use os_labratory_spring.Synch.Machine.{
  give_back, release_each, release_locks, thread_exit, exits, Reaches, then_step, IsFree,
  thread_exit,
}
use os_labratory_spring.Synch.Moves.{count-remove_self, count-remove_other}
use os_labratory_spring.Synch.Outcomes.{sema_up-raise}
use os_labratory_spring.Synch.Pending.{give_back-steps}
use os_labratory_spring.Threads.Rounds.{current-running}
use os_labratory_spring.Synch.Runs.{IsStart}
use os_labratory_spring.Synch.Locks.{holder-lock_list}
use os_labratory_spring.Synch.Queues.{count-head}

-- Fewer locks in a list, and the same calls.
record IsReleased (ms : List ℕ) (k k' : Kernel) : Type 0 where
  pub fewer : (l t : ℕ) → count l (k'.lock_list t) ≤ count l (k.lock_list t) - count l ms
  pub released_todo : k'.todo ≡ k.todo

remove-count : (l m : ℕ) (ls : List ℕ) → count l (list_remove m ls) ≤ count l ls - count l (m ∷ [])
remove-count l m ls = elim (Bool-cases (m == l)) [
  | inl e ↦
      let same : l ≡ m = ground (arith, e) in
      let x =
        subst (λ m. count l (list_remove m ls) ≡ count l ls - 1) same (count-remove_self l ls) in
      rw e (omega arith)
  | inr e ↦ let x = count-remove_other l m ls e in rw e (omega arith)
]

give_back-IsReleased : (m : ℕ) (k k' : Kernel) → give_back m k ≡ ok k' → IsReleased (m ∷ []) k k'
give_back-IsReleased m k k' h =
    let x = give_back-steps m k k' h in
    let up = sema_up-raise (of_lock m) (unlink m (forget m k)) x.1 x.2 in
    let lists : (x.1).lock_list ≡ (λ t. list_remove m (k.lock_list t)) =
      ap (λ (k : Kernel). k.lock_list) up.3 ∙ up.1.same_locks in
    record {
      fewer = λ l t.
          let once = remove-count l m (k.lock_list t) in
          let twice = remove-count l m (list_remove m (k.lock_list t)) in
          let at : count l (k'.lock_list t)
              ≡ count l (list_remove m (list_remove m (k.lock_list t))) =
            ap (λ (k : Kernel). count l (k.lock_list t)) x.3
            ∙ ap (λ (f : ℕ → List ℕ). count l (list_remove m (f t))) lists in
          omega arith;
      released_todo = ap (λ (k : Kernel). k.todo) x.3 ∙ ap (λ (k : Kernel). k.todo) up.3 ∙ up.2;
    }

release_each-IsReleased :
    (ms : List ℕ) (k k' : Kernel) → release_each ms k ≡ ok k' → IsReleased ms k k'
unfolding release_each
release_each-IsReleased [] k k' h =
    let e = sym (ok-inj k k' h) in
    record {
      fewer = λ l t. let at = ap (λ (k : Kernel). count l (k.lock_list t)) e in omega arith;
      released_todo = ap (λ (k : Kernel). k.todo) e;
    }
release_each-IsReleased (m ∷ ms) k k' h =
    let x = bind-ok (give_back m k) _ k' h in
    let first = give_back-IsReleased m k x.0 x.1 in
    let rest = release_each-IsReleased ms x.0 k' x.2 in
    record {
      fewer = λ l t.
          let a = first.fewer l t in
          let b = rest.fewer l t in let c = count-head l m ms in omega arith;
      released_todo = rest.released_todo ∙ first.released_todo;
    }

thread_exit-IsReleased :
    (k k' : Kernel) → thread_exit k ≡ ok k' → IsReleased (k.lock_list k.sched.running) k k'
unfolding thread_exit release_locks
thread_exit-IsReleased k k' h =
    let x = bind-ok (release_locks k) _ k' h in
    let y = bind-ok (thread_current k.sched) _ x.0 x.1 in
    let z = bind-ok (leave (x.0).sched) _ k' x.2 in
    let r =
      subst (λ t. IsReleased (k.lock_list t) k x.0) (current-running k.sched y.0 y.1)
        (release_each-IsReleased (k.lock_list y.0) k x.0 y.2) in
    subst (IsReleased (k.lock_list k.sched.running) k) (ok-inj _ k' z.2)
      (record { fewer = r.fewer; released_todo = r.released_todo })

-- When a thread that is in no call ends, in whatever state steps have led to behind `lock_init`, it
-- is no longer the holder of the lock and no longer has it in its list.
pub thread_exit-releases :
    (l : ℕ) (k k' k'' : Kernel)
    → IsStart l k
    → Reaches (lock_init l k) k'
    → IsFree k'
    → thread_exit k' ≡ ok k''
    → (count l (k''.lock_list k'.sched.running) ≡ 0)
      × (is_holder k'.sched.running (k''.holder l) ≡ false)
thread_exit-releases l k k' k'' start r free h =
    let t = k'.sched.running in
    let x = thread_exit-IsReleased k' k'' h in
    let none_left : count l (k''.lock_list t) ≡ 0 = let b = x.fewer l t in omega arith in
    let no_calls = ap (λ (f : ℕ → List Call). f t) x.released_todo ∙ free.no_calls in
    elim (holder-lock_list l t k k'' start (then_step r (exits free h)) no_calls) [
      | inl y ↦ absurd (let one = y.1 in omega arith)
      | inr y ↦ (none_left, y.0)
    ]
