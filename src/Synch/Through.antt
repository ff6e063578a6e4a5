-- ===== src/Synch/Through.antt =====
-- Each function of threads/synch.c, in whatever state, keeps what holds of a lock.
use os_labratory_spring.Prelude.{
  ℕ, ◌≡◌, refl, sym, subst, ap, ◌∙◌, Option, some, List, [], ◌∷◌, ◌++◌, ok, ok-inj,
}
use os_labratory_spring.Synch.{
  of_lock, of_waiter, Call, call_sema_down, call_sema_up, call_lock_acquire, call_lock_release,
  call_cond_wait, call_cond_signal, call_cond_broadcast, call_hold, call_link, call_forget,
  call_unlink, Kernel, is_holder, lock_acquire, lock_release, cond_wait, signal_first,
  broadcast_round, cond_broadcast, exec,
}
use os_labratory_spring.Synch.Phases.{Phase, out, inside, settles, settled, next_phase, Fits}
use os_labratory_spring.Synch.Own.{Before, Safe, Guarded-stays}
use os_labratory_spring.Synch.Pending.{
  lock_acquire-pending, lock_release-pending, waits_for, cond_wait-pending, cond_signal-first,
}
use os_labratory_spring.Synch.Calls.{
  pending-Rests, by_lock, run_hold, run_link, run_forget, run_unlink,
}
use os_labratory_spring.Synch.Exclusion.{
  sema_down-Safe, sema_up-Safe, acquire_other, release_other, acquire_own, release_own, wait_other,
  wait_own,
}

module _ {l : ℕ} {k k' : Kernel} {ph : ℕ → Phase} (m : ℕ) where
  lock_acquire-Safe :
      Before l k ph k.sched.running (next_phase l (call_lock_acquire m) (ph k.sched.running))
      → lock_acquire m k ≡ ok k'
      → Safe l k'
  lock_acquire-Safe g h =
      let t = k.sched.running in
      let cs : List Call = call_sema_down (of_lock m) ∷ call_hold m ∷ call_link m ∷ [] in
      let x = lock_acquire-pending m k k' h in
      subst (Safe l) (sym x.1) (
        by_lock l m t (settles inside) g
          (λ e b. (
            ph,
            pending-Rests cs (settles inside (ph t)) b
                (λ rest f.
                  subst
                    (λ (m : ℕ).
                      Fits l (some (ph t))
                        (call_sema_down (of_lock m) ∷ call_hold m ∷ call_link m ∷ rest))
                    e
                    (acquire_own l (ph t) rest
                      (sym (g.owner t) ∙ ap (λ (m : ℕ). is_holder t (k.holder m)) e ∙ x.0) f))
                refl refl refl refl,
          ))
          (λ e b. (
            ph,
            pending-Rests cs (some (ph t)) b (λ rest f. acquire_other l m (ph t) rest e f) refl refl
                refl refl,
          )))

  lock_release-Safe :
      Before l k ph k.sched.running (next_phase l (call_lock_release m) (ph k.sched.running))
      → lock_release m k ≡ ok k'
      → Safe l k'
  lock_release-Safe g h =
      let t = k.sched.running in
      let cs : List Call = call_forget m ∷ call_unlink m ∷ call_sema_up (of_lock m) ∷ [] in
      let x = lock_release-pending m k k' h in
      subst (Safe l) (sym x.1) (
        by_lock l m t (settles out) g
          (λ e b. (
            ph,
            pending-Rests cs (settles out (ph t)) b
                (λ rest f.
                  subst
                    (λ (m : ℕ).
                      Fits l (some (ph t))
                        (call_forget m ∷ call_unlink m ∷ call_sema_up (of_lock m) ∷ rest))
                    e
                    (release_own l (ph t) rest
                      (sym (g.owner t) ∙ ap (λ (m : ℕ). is_holder t (k.holder m)) e ∙ x.0) f))
                refl refl refl refl,
          ))
          (λ e b. (
            ph,
            pending-Rests cs (some (ph t)) b (λ rest f. release_other l m (ph t) rest e f) refl refl
                refl refl,
          )))

  cond_wait-Safe :
      (c : ℕ)
      → Before l k ph k.sched.running (next_phase l (call_cond_wait c m) (ph k.sched.running))
      → cond_wait c m k ≡ ok k'
      → Safe l k'
  cond_wait-Safe c g h =
      let t = k.sched.running in
      let x = cond_wait-pending c m k k' h in
      by_lock l m t settled g
        (λ e b. (
          ph,
          pending-Rests (waits_for t m) (settled (ph t)) b
              (λ rest f.
                subst (λ (m : ℕ). Fits l (some (ph t)) (waits_for t m ++ rest)) e
                  (wait_own l t (ph t) rest
                    (sym (g.owner t) ∙ ap (λ (m : ℕ). is_holder t (k.holder m)) e ∙ x.0) f))
              x.1 x.2 (ap (λ (f : ℕ → Option ℕ). f l) x.3) (x.4 l),
        ))
        (λ e b. (
          ph,
          pending-Rests (waits_for t m) (some (ph t)) b (λ rest f. wait_other l m t (ph t) rest e f)
              x.1 x.2 (ap (λ (f : ℕ → Option ℕ). f l) x.3) (x.4 l),
        ))

module _ {l : ℕ} {k : Kernel} {ph : ℕ → Phase} (c m : ℕ) where
  signal-Safe :
      (ts : List ℕ)
      → Before l k ph k.sched.running (some (ph k.sched.running))
      → Safe l (signal_first c ts k)
  signal-Safe [] g = (ph, Guarded-stays k.sched.running _ g refl refl (λ u. refl) refl refl)
  signal-Safe (t ∷ ts) g =
      (ph, pending-Rests (call_sema_up (of_waiter t) ∷ []) _ g (λ rest f. f) refl refl refl refl)

  broadcast-Safe :
      (ts : List ℕ)
      → Before l k ph k.sched.running (some (ph k.sched.running))
      → Safe l (broadcast_round c m ts k)
  broadcast-Safe [] g = (ph, Guarded-stays k.sched.running _ g refl refl (λ u. refl) refl refl)
  broadcast-Safe (t ∷ ts) g = (
    ph,
    pending-Rests (call_cond_signal c m ∷ call_cond_broadcast c m ∷ []) _ g (λ rest f. f) refl refl
        refl refl,
  )

pub exec-Safe :
    {l : ℕ} {k k' : Kernel} {ph : ℕ → Phase} (c : Call)
    → Before l k ph k.sched.running (next_phase l c (ph k.sched.running))
    → exec c k ≡ ok k'
    → Safe l k'
unfolding exec cond_broadcast
exec-Safe (call_sema_down s) g h = sema_down-Safe s g h
exec-Safe {k = k} (call_sema_up s) g h = sema_up-Safe s k.sched.running g h
exec-Safe (call_lock_acquire m) g h = lock_acquire-Safe m g h
exec-Safe (call_lock_release m) g h = lock_release-Safe m g h
exec-Safe (call_cond_wait c m) g h = cond_wait-Safe m c g h
exec-Safe {l} {k} {k'} (call_cond_signal c m) g h =
    subst (Safe l) (sym (cond_signal-first c m k k' h)) (signal-Safe c m (k.cond_waiters c) g)
exec-Safe {l} {k} {k'} (call_cond_broadcast c m) g h =
    subst (Safe l) (ok-inj _ k' h) (broadcast-Safe c m (k.cond_waiters c) g)
exec-Safe {l} {k} {k'} (call_hold m) g h = subst (Safe l) (ok-inj _ k' h) (run_hold l m g)
exec-Safe {l} {k} {k'} (call_link m) g h = subst (Safe l) (ok-inj _ k' h) (run_link l m g)
exec-Safe {l} {k} {k'} (call_forget m) g h = subst (Safe l) (ok-inj _ k' h) (run_forget l m g)
exec-Safe {l} {k} {k'} (call_unlink m) g h = subst (Safe l) (ok-inj _ k' h) (run_unlink l m g)
