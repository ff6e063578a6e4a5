-- ===== src/Synch/Releases.antt =====
-- The locks that a thread gives back when it ends.
use os_labratory_spring.Prelude.{ℕ, ◌≡◌, sym, subst, ap, ◌∙◌, List, [], ◌∷◌, ok, bind-ok, ok-inj}
use os_labratory_spring.Threads.{Scheduler, thread_current, leave}
use os_labratory_spring.Synch.{of_lock, Call, Kernel, forget, unlink}
use os_labratory_spring.Synch.Machine.{give_back, release_each, release_locks, thread_exit}
use os_labratory_spring.Synch.Own.{Safe}
use os_labratory_spring.Synch.Outcomes.{sema_up-raise}
use os_labratory_spring.Synch.Pending.{sema_up-running, give_back-steps}
use os_labratory_spring.Synch.Exits.{unlink-again, give_back-up, give_back-value}

-- A `lock_release` of `release_locks` keeps what holds of every lock, and the thread goes on.
give_back-Safe :
    {l : ℕ} {k k' : Kernel} (m : ℕ)
    → Safe l k
    → k.todo k.sched.running ≡ []
    → give_back m k ≡ ok k'
    → Safe l k' × (k'.todo k'.sched.running ≡ [])
give_back-Safe {l} {k} {k'} m (ph, g) e h =
    let x = give_back-steps m k k' h in
    let mid = x.1 in
    let same = sema_up-raise (of_lock m) (unlink m (forget m k)) mid x.2 in
    let todo : mid.todo ≡ k.todo = ap (λ (k : Kernel). k.todo) same.3 ∙ same.2 in
    let running : mid.sched.running ≡ k.sched.running =
      sema_up-running (of_lock m) (unlink m (forget m k)) mid x.2 in
    let free : mid.todo mid.sched.running ≡ [] =
      ap (λ (t : ℕ). mid.todo t) running ∙ ap (λ (f : ℕ → List Call). f k.sched.running) todo ∙ e in
    (
      subst (Safe l) (sym x.3)
          (unlink-again m (give_back-up m mid g e x.0 x.2) (give_back-value m mid g x.0 x.2)),
      subst (λ (k : Kernel). k.todo k.sched.running ≡ []) (sym x.3) free,
    )

release_each-Safe :
    {l : ℕ} (ms : List ℕ) (k k' : Kernel)
    → Safe l k
    → k.todo k.sched.running ≡ []
    → release_each ms k ≡ ok k'
    → Safe l k'
unfolding release_each
release_each-Safe {l} [] k k' g e h = subst (Safe l) (ok-inj k k' h) g
release_each-Safe {l} (m ∷ ms) k k' g e h =
    let x = bind-ok (give_back m k) _ k' h in
    let y = give_back-Safe m g e x.1 in release_each-Safe ms x.0 k' y.0 y.1 x.2

pub with_sched-Safe :
    {l : ℕ} {k : Kernel} (s : Scheduler) → Safe l k → Safe l (record k { sched = s })
with_sched-Safe s (ph, g) =
    (ph, record { fits = g.fits; links = g.links; owner = g.owner; token = g.token })

pub thread_exit-Safe :
    {l : ℕ} {k k' : Kernel}
    → Safe l k
    → k.todo k.sched.running ≡ []
    → thread_exit k ≡ ok k'
    → Safe l k'
unfolding thread_exit release_locks
thread_exit-Safe {l} {k} {k'} g e h =
    let x = bind-ok (release_locks k) _ k' h in
    let y = bind-ok (thread_current k.sched) _ x.0 x.1 in
    let z = bind-ok (leave (x.0).sched) _ k' x.2 in
    subst (Safe l) (ok-inj _ k' z.2)
      (with_sched-Safe z.0 (release_each-Safe (k.lock_list y.0) k x.0 g e y.2))
