-- ===== src/Synch/Runs.antt =====
-- What holds of a lock in every state that steps of the kernel lead to.
use os_labratory_spring.Prelude.{
  ℕ, ◌≡◌, refl, sym, subst, ap, ◌∙◌, ◌⊎◌, inl, inr, Bool, true, false, Option, none, some, List, [],
  ◌∷◌, ◌++◌, ◌==◌, if◌then◌else◌, ok, arith, Bool-cases, eq→==,
}
use os_labratory_spring.Threads.{assign, count}
use os_labratory_spring.Threads.Rounds.{assign_self}
use os_labratory_spring.Synch.{
  sema, of_lock, of_waiter, Call, call_sema_down, call_sema_up, call_lock_acquire,
  call_lock_release, call_cond_wait, call_cond_signal, call_cond_broadcast, call_hold, call_link,
  call_forget, call_unlink, Kernel, is_holder, lower, pending, lock_init, sema_init,
  lock_try_acquire, exec,
}
use os_labratory_spring.Synch.Machine.{
  Public, Step, goes_on, calls, tries, idles, is_interrupted, exits, creates, Reaches, here,
  then_step,
}
use os_labratory_spring.Synch.Phases.{
  Phase, out, got, held, inside, dropped, unlinked, is_owner, settles, settled, next_phase, Fits,
  at_rest, assign_cases,
}
use os_labratory_spring.Synch.Own.{Safe}
use os_labratory_spring.Synch.Pending.{lock_try_acquire-cases}
use os_labratory_spring.Synch.Exclusion.{Guarded-same, acquire_own, acquire_other, run_down}
use os_labratory_spring.Synch.Through.{exec-Safe}
use os_labratory_spring.Synch.Exits.{Rests-next, Rests-front}
use os_labratory_spring.Synch.Releases.{with_sched-Safe, thread_exit-Safe}

-- A thread that is in no call is outside of `lock_acquire` and `lock_release`.
pub settled-cases : (l : ℕ) (q : Phase) → Fits l (some q) [] → (q ≡ out) ⊎ (q ≡ inside)
settled-cases l out f = inl refl
settled-cases l got f = absurd (let is = f.1 in cc)
settled-cases l held f = absurd (let is = f.1 in cc)
settled-cases l inside f = inr refl
settled-cases l dropped f = absurd (let is = f.1 in cc)
settled-cases l unlinked f = absurd (let is = f.1 in cc)

Fits-if :
    (l : ℕ) (b : Bool) (q : Phase) (f : Phase → Option Phase)
    → Fits l (f q) []
    → Fits l (some q) []
    → Fits l (if b then f q else some q) []
Fits-if l true q f x y = x
Fits-if l false q f x y = y

settles-Fits :
    (l : ℕ) (q to : Phase) → Fits l (some to) [] → Fits l (some q) [] → Fits l (settles to q) []
settles-Fits l q to x f = elim (settled-cases l q f) [ inl e ↦ rw e x | inr e ↦ rw e x ]

settled-Fits : (l : ℕ) (q : Phase) → Fits l (some q) [] → Fits l (settled q) []
settled-Fits l q f = elim (settled-cases l q f) [
  | inl e ↦ rw e (out, refl)
  | inr e ↦ rw e (inside, refl)
]

-- A call that the code outside of synch.c makes.
Public-Fits :
    (l : ℕ) (c : Call) (q : Phase) → Public c → Fits l (some q) [] → Fits l (some q) (c ∷ [])
Public-Fits l (call_sema_down (sema a)) q p f = f
Public-Fits l (call_sema_down (of_lock m)) q p f = absurd p
Public-Fits l (call_sema_down (of_waiter t)) q p f = absurd p
Public-Fits l (call_sema_up (sema a)) q p f = f
Public-Fits l (call_sema_up (of_lock m)) q p f = absurd p
Public-Fits l (call_sema_up (of_waiter t)) q p f = absurd p
Public-Fits l (call_lock_acquire m) q p f =
    Fits-if l (l == m) q (settles inside) (settles-Fits l q inside (inside, refl) f) f
Public-Fits l (call_lock_release m) q p f =
    Fits-if l (l == m) q (settles out) (settles-Fits l q out (out, refl) f) f
Public-Fits l (call_cond_wait c m) q p f = Fits-if l (l == m) q settled (settled-Fits l q f) f
Public-Fits l (call_cond_signal c m) q p f = f
Public-Fits l (call_cond_broadcast c m) q p f = f
Public-Fits l (call_hold m) q p f = absurd p
Public-Fits l (call_link m) q p f = absurd p
Public-Fits l (call_forget m) q p f = absurd p
Public-Fits l (call_unlink m) q p f = absurd p

goes_on-Safe :
    {l : ℕ} {k k' : Kernel} (c : Call) (cs : List Call)
    → Safe l k
    → k.todo k.sched.running ≡ c ∷ cs
    → exec c (record k { todo = assign k.todo k.sched.running cs }) ≡ ok k'
    → Safe l k'
goes_on-Safe {l} {k} c cs (ph, g) e h =
    let todo = assign k.todo k.sched.running cs in
    exec-Safe c (Rests-next k.sched.running c cs todo g e (λ u. refl)) h

calls-Safe :
    {l : ℕ} {k : Kernel} (c : Call)
    → Public c
    → Safe l k
    → k.todo k.sched.running ≡ []
    → Safe l (pending (c ∷ []) k)
calls-Safe {l} {k} c p (ph, g) e =
    let t = k.sched.running in
    let free : Fits l (some (ph t)) [] = subst (Fits l (some (ph t))) e (g.fits t) in
    (
      ph,
      record {
        fits =
            assign_cases (λ v calls. Fits l (some (ph v)) calls) k.todo t (c ∷ k.todo t)
              (subst (λ (rest : List Call). Fits l (some (ph t)) (c ∷ rest)) (sym e)
                (Public-Fits l c (ph t) p free))
              (λ v at. g.fits v);
        links = g.links;
        owner = g.owner;
        token = g.token;
      },
    )

acquire-Fits :
    (l m : ℕ) (q : Phase)
    → (l ≡ m → is_owner q ≡ false)
    → Fits l (some q) []
    → Fits l (some q) (call_sema_down (of_lock m) ∷ call_hold m ∷ call_link m ∷ [])
acquire-Fits l m q owner f = elim (Bool-cases (l == m)) [
  | inl e ↦
      let same : l ≡ m = ground (arith, e) in
      subst
        (λ (m : ℕ). Fits l (some q) (call_sema_down (of_lock m) ∷ call_hold m ∷ call_link m ∷ []))
        same (acquire_own l q [] (owner same) (settles-Fits l q inside (inside, refl) f))
  | inr e ↦ acquire_other l m q [] e f
]

-- `lock_try_acquire` that succeeds is a `sema_down` with the rest of `lock_acquire` to do.
takes-Safe :
    {l : ℕ} {k : Kernel} (m : ℕ)
    → Safe l k
    → k.todo k.sched.running ≡ []
    → is_holder k.sched.running (k.holder m) ≡ false
    → (k.value (of_lock m) == 0) ≡ false
    → Safe l (pending (call_hold m ∷ call_link m ∷ []) (lower (of_lock m) k))
takes-Safe {l} {k} m (ph, g) e free value =
    let t = k.sched.running in
    let rest : List Call = call_hold m ∷ call_link m ∷ [] in
    let next = next_phase l (call_sema_down (of_lock m)) (ph t) in
    let owner : l ≡ m → is_owner (ph t) ≡ false =
      λ at. sym (g.owner t) ∙ ap (λ (m : ℕ). is_holder t (k.holder m)) at ∙ free in
    let settled_now : Fits l (some (ph t)) [] = subst (Fits l (some (ph t))) e (g.fits t) in
    let front = Rests-front t rest next g (acquire-Fits l m (ph t) owner settled_now) in
    let same : (u : ℕ) → (pending rest k).todo u ≡ assign k.todo t rest u =
      λ u. ap (λ (cs : List Call). assign k.todo t (rest ++ cs) u) e in
    run_down (of_lock m) t
      (Guarded-same (record { same_locks = refl; same_holder = refl; same_value = refl }) same
        front)
      value

tries-Safe :
    {l : ℕ} {k k' : Kernel} (m : ℕ) (success : Bool)
    → Safe l k
    → k.todo k.sched.running ≡ []
    → lock_try_acquire m k ≡ ok (success, k')
    → Safe l k'
tries-Safe {l} {k} {k'} m success s e h =
    let x = lock_try_acquire-cases m k k' success h in
    elim x.1 [
      | inl y ↦ subst (Safe l) (sym y.1) (takes-Safe m s e x.0 y.0)
      | inr y ↦ subst (Safe l) (sym y) s
    ]

Step-Safe : {l : ℕ} {k k' : Kernel} → Step k k' → Safe l k → Safe l k'
Step-Safe (goes_on c cs e h) s = goes_on-Safe c cs s e h
Step-Safe (calls c p e) s = calls-Safe c p s e.no_calls
Step-Safe (tries m success e h) s = tries-Safe m success s e.no_calls h
Step-Safe (idles {s = sched} i h) s = with_sched-Safe sched s
Step-Safe (is_interrupted {s = sched} h) s = with_sched-Safe sched s
Step-Safe (exits e h) s = thread_exit-Safe s e.no_calls h
Step-Safe (creates {s = sched} t tid unused h) s = with_sched-Safe sched s

pub Reaches-Safe : {l : ℕ} {k k' : Kernel} → Reaches k k' → Safe l k → Safe l k'
Reaches-Safe here s = s
Reaches-Safe (then_step r x) s = Step-Safe x (Reaches-Safe r s)

-- Behind the `lock_init` of a lock that no thread has in its list, when no thread is in a call.
pub record IsStart (l : ℕ) (k : Kernel) : Type 0 where
  pub no_calls : (t : ℕ) → k.todo t ≡ []
  pub no_locks : (t : ℕ) → count l (k.lock_list t) ≡ 0

pub IsStart-Safe : (l : ℕ) (k : Kernel) → IsStart l k → Safe l (lock_init l k)
unfolding lock_init sema_init
IsStart-Safe l k h = (
  λ t. out,
  record {
    fits = λ t. subst (Fits l (some out)) (sym (h.no_calls t)) (out, refl);
    links = h.no_locks;
    owner = λ t. ap (is_holder t) (assign_self k.holder l none);
    token = at_rest (rw (eq→== l l refl) refl) (λ t. refl);
  },
)
