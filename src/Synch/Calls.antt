-- ===== src/Synch/Calls.antt =====
-- Every call keeps what holds of a lock.
use os_labratory_spring.Prelude.{
  ℕ, ◌≡◌, refl, sym, subst, ap, ◌∙◌, inl, inr, Bool, false, Option, none, some, List, [], ◌∷◌, ◌++◌,
  ◌==◌, if◌then◌else◌, arith, Bool-cases, ne→false,
}
use os_labratory_spring.Threads.{assign, count}
use os_labratory_spring.Threads.Rounds.{assign_self}
use os_labratory_spring.Synch.{
  of_lock, Call, call_sema_down, call_sema_up, call_hold, call_link, call_forget, call_unlink,
  Kernel, is_holder, hold, link, forget, unlink, raise, lower, pending,
}
use os_labratory_spring.Synch.Phases.{
  Phase, after_down, after_hold, after_link, after_forget, after_unlink, after_up, next_phase, Fits,
  Token, Rests, assign_cases, assign_other,
}
use os_labratory_spring.Synch.Moves.{not_eq, count-push, count-remove_other}
use os_labratory_spring.Synch.Own.{
  Before, Safe, Guarded-stays, hold-Safe, link-Safe, forget-Safe, unlink-Safe, raise-Safe,
  lower-Safe,
}

-- Calls that are assign in front of what a thread is still to do.
pub pending-Rests :
    {l : ℕ} {k k' : Kernel} {ph : ℕ → Phase} (cs : List Call) (next : Option Phase)
    → Before l k ph k.sched.running next
    → ((rest : List Call) → Fits l next rest → Fits l (some (ph k.sched.running)) (cs ++ rest))
    → k'.todo ≡ (pending cs k).todo
    → k'.lock_list ≡ k.lock_list
    → k'.holder l ≡ k.holder l
    → k'.value (of_lock l) ≡ k.value (of_lock l)
    → Rests l k' ph
pending-Rests {l} {k} {k'} {ph} cs next g leads todo locks holder value =
    let t = k.sched.running in
    record {
      fits = λ u.
          subst (λ (f : ℕ → List Call). Fits l (some (ph u)) (f u)) (sym todo)
            (assign_cases
              (λ v calls.
                Fits l (assign (λ w. some (ph w)) t next v) (k.todo v) → Fits l (some (ph v)) calls)
              k.todo t (cs ++ k.todo t)
              (λ f.
                leads (k.todo t)
                  (subst (λ o. Fits l o (k.todo t)) (assign_self (λ w. some (ph w)) t next) f))
              (λ v e f.
                subst (λ o. Fits l o (k.todo v)) (assign_other (λ w. some (ph w)) t v next e) f)
              u (g.fits u));
      links = λ u. ap (λ (f : ℕ → List ℕ). count l (f u)) locks ∙ g.links u;
      owner = λ u. ap (is_holder u) holder ∙ g.owner u;
      token = subst (λ (v : ℕ). Token v ph) (sym value) g.token;
    }

-- A call to lock `m` is one to `l` or leaves its phase.
pub by_lock :
    {P : Type 0} {k : Kernel} {ph : ℕ → Phase} (l m t : ℕ) (f : Phase → Option Phase)
    → Before l k ph t (if l == m then f (ph t) else some (ph t))
    → (l ≡ m → Before l k ph t (f (ph t)) → P)
    → ((l == m) ≡ false → Before l k ph t (some (ph t)) → P)
    → P
by_lock {P} {k} {ph} l m t f g same other = elim (Bool-cases (l == m)) [
  | inl e ↦
      same (ground (arith, e))
        (subst (λ (b : Bool). Before l k ph t (if b then f (ph t) else some (ph t))) e g)
  | inr e ↦
      other e (subst (λ (b : Bool). Before l k ph t (if b then f (ph t) else some (ph t))) e g)
]

module _ {k : Kernel} {ph : ℕ → Phase} (l m : ℕ) where
  pub run_hold :
      Before l k ph k.sched.running (next_phase l (call_hold m) (ph k.sched.running))
      → Safe l (hold m k)
  run_hold g =
      let t = k.sched.running in
      by_lock l m t after_hold g
        (λ e b. subst (λ (m : ℕ). Safe l (hold m k)) e (hold-Safe l k ph b))
        (λ e b. (
          ph,
          Guarded-stays t (some (ph t)) b refl refl (λ u. refl)
              (assign_other k.holder m l (some t) e) refl,
        ))

  pub run_link :
      Before l k ph k.sched.running (next_phase l (call_link m) (ph k.sched.running))
      → Safe l (link m k)
  run_link g =
      let t = k.sched.running in
      let ls = k.lock_list t in
      by_lock l m t after_link g
        (λ e b. subst (λ (m : ℕ). Safe l (link m k)) e (link-Safe l k ph b))
        (λ e b. (
          ph,
          Guarded-stays t (some (ph t)) b refl refl
              (assign_cases (λ u ls. count l ls ≡ count l (k.lock_list u)) k.lock_list t
                (ls ++ (m ∷ []))
                (count-push l m ls
                  ∙ (let apart : count l (m ∷ []) ≡ 0 =
                        rw (ne→false m l (λ h. not_eq l m e (sym h))) refl in
                      omega arith))
                (λ u e. refl))
              refl refl,
        ))

  pub run_forget :
      Before l k ph k.sched.running (next_phase l (call_forget m) (ph k.sched.running))
      → Safe l (forget m k)
  run_forget g =
      let t = k.sched.running in
      by_lock l m t after_forget g
        (λ e b. subst (λ (m : ℕ). Safe l (forget m k)) e (forget-Safe l k ph b))
        (λ e b. (
          ph,
          Guarded-stays t (some (ph t)) b refl refl (λ u. refl) (assign_other k.holder m l none e)
              refl,
        ))

  pub run_unlink :
      Before l k ph k.sched.running (next_phase l (call_unlink m) (ph k.sched.running))
      → Safe l (unlink m k)
  run_unlink g =
      let t = k.sched.running in
      by_lock l m t after_unlink g
        (λ e b. subst (λ (m : ℕ). Safe l (unlink m k)) e (unlink-Safe l k ph b))
        (λ e b. (
          ph,
          Guarded-stays t (some (ph t)) b refl refl
              (λ u.
                count-remove_other l m (k.lock_list u) (ne→false m l (λ h. not_eq l m e (sym h))))
              refl refl,
        ))

  pub run_raise :
      (t : ℕ)
      → Before l k ph t (next_phase l (call_sema_up (of_lock m)) (ph t))
      → Safe l (raise (of_lock m) k)
  run_raise t g =
      by_lock l m t after_up g
        (λ e b. subst (λ (m : ℕ). Safe l (raise (of_lock m) k)) e (raise-Safe l k ph t b))
        (λ e b. (ph, Guarded-stays t (some (ph t)) b refl refl (λ u. refl) refl (rw e refl)))

  pub run_lower :
      (t : ℕ)
      → Before l k ph t (next_phase l (call_sema_down (of_lock m)) (ph t))
      → (k.value (of_lock m) == 0) ≡ false
      → Safe l (lower (of_lock m) k)
  run_lower t g h =
      by_lock l m t after_down g
        (λ e b. subst (λ (m : ℕ). Safe l (lower (of_lock m) k)) e (lower-Safe l k ph t b (rw e h)))
        (λ e b. (ph, Guarded-stays t (some (ph t)) b refl refl (λ u. refl) refl (rw e refl)))
