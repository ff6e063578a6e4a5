-- ===== src/Synch/Exits.antt =====
-- The end of a thread gives its locks back.
use os_labratory_spring.Prelude.{
  ℕ, ◌+◌, ◌%◌, ◌^◌, ◌≡◌, refl, sym, subst, ap, ◌∙◌, inl, inr, true, false, Option, some, List, [],
  ◌∷◌, ◌==◌, ok, arith, Bool-cases, ne→false, eq→==,
}
use os_labratory_spring.Threads.{assign, count}
use os_labratory_spring.Threads.Rounds.{assign_self}
use os_labratory_spring.Synch.{
  of_lock, Semaphore, assign_sema, Call, call_sema_up, call_forget, call_unlink, Kernel, is_holder,
  forget, unlink, raise, sema_up,
}
use os_labratory_spring.Synch.Phases.{
  Phase, out, got, held, inside, dropped, unlinked, is_free, is_owner, settles, next_phase, Fits,
  Token, at_rest, taken, Rests,
}
use os_labratory_spring.Synch.Moves.{not_eq, free-linked, count-remove_self, count-remove_other}
use os_labratory_spring.Synch.Own.{Before, Safe}
use os_labratory_spring.Synch.Outcomes.{sema_up-raise}
use os_labratory_spring.Synch.Calls.{run_forget, run_unlink}
use os_labratory_spring.Synch.Exclusion.{release_own, release_other, sema_up-Safe}

abbrev pub with_todo : (ℕ → List Call) → Kernel → Kernel
with_todo todo k = record k { todo = todo }

-- A thread that takes the next call from what it is still to do.
pub Rests-next :
    {l : ℕ} {k : Kernel} {ph : ℕ → Phase} (t : ℕ) (c : Call) (cs : List Call) (todo : ℕ → List Call)
    → Rests l k ph
    → k.todo t ≡ c ∷ cs
    → ((u : ℕ) → todo u ≡ assign k.todo t cs u)
    → Before l (with_todo todo k) ph t (next_phase l c (ph t))
Rests-next {l} {k} {ph} t c cs todo g e same = record {
  fits = λ u.
      subst (Fits l (assign (λ v. some (ph v)) t (next_phase l c (ph t)) u)) (sym (same u))
        (elim (Bool-cases (u == t)) [
          | inl at ↦
              let is : t ≡ u = ground (arith, at) in
              let here : Fits l (some (ph t)) (c ∷ cs) =
                subst (Fits l (some (ph t))) e (g.fits t) in
              rw at here
          | inr at ↦ rw at (g.fits u)
        ]);
  links = g.links;
  owner = g.owner;
  token = g.token;
}

-- A thread that has calls assign in front of it.
pub Rests-front :
    {l : ℕ} {k : Kernel} {ph : ℕ → Phase} (t : ℕ) (cs : List Call) (next : Option Phase)
    → Rests l k ph
    → Fits l next cs
    → Before l (with_todo (assign k.todo t cs) k) ph t next
Rests-front {l} {k} {ph} t cs next g f = record {
  fits = λ u. elim (Bool-cases (u == t)) [ inl at ↦ rw at f | inr at ↦ rw at (g.fits u) ];
  links = g.links;
  owner = g.owner;
  token = g.token;
}

settled_out : (l : ℕ) (q : Phase) → Fits l (some q) [] → Fits l (settles out q) []
settled_out l out f = (out, refl)
settled_out l got f = absurd (let is = f.1 in cc)
settled_out l held f = absurd (let is = f.1 in cc)
settled_out l inside f = (out, refl)
settled_out l dropped f = absurd (let is = f.1 in cc)
settled_out l unlinked f = absurd (let is = f.1 in cc)

owner_busy : (q : Phase) → is_owner q ≡ true → is_free q ≡ false
owner_busy out h = absurd cc
owner_busy got h = refl
owner_busy held h = refl
owner_busy inside h = refl
owner_busy dropped h = refl
owner_busy unlinked h = refl

taken_value : {v : ℕ} {ph : ℕ → Phase} (t : ℕ) → Token v ph → is_free (ph t) ≡ false → v ≡ 0
taken_value t (at_rest one free) h = absurd (let is = free t in cc)
taken_value t (taken w none_left at only) h = none_left

free_of_value : {v : ℕ} {ph : ℕ → Phase} (u : ℕ) → Token v ph → v ≡ 1 → is_free (ph u) ≡ true
free_of_value u (at_rest one free) h = free u
free_of_value u (taken w none_left at only) h = absurd (omega arith)

-- The second `list_remove` of an element finds it in no list.
pub unlink-again :
    {l : ℕ} {k : Kernel} (m : ℕ)
    → Safe l k
    → (l ≡ m → k.value (of_lock l) ≡ 1)
    → Safe l (unlink m k)
unlink-again {l} {k} m (ph, g) value = elim (Bool-cases (l == m)) [
  | inl e ↦
      let same : l ≡ m = ground (arith, e) in
      subst (λ (m : ℕ). Safe l (unlink m k)) same
        (
          ph,
          record {
            fits = g.fits;
            links = λ u.
                let free = free_of_value u g.token (value same) in
                let none_left : count l (k.lock_list u) ≡ 0 = g.links u ∙ free-linked (ph u) free in
                count-remove_self l (k.lock_list u)
                ∙ (let apart = free-linked (ph u) free in omega arith);
            owner = g.owner;
            token = g.token;
          },
        )
  | inr e ↦ (
    ph,
    record {
      fits = g.fits;
      links = λ u.
          count-remove_other l m (k.lock_list u) (ne→false m l (λ h. not_eq l m e (sym h)))
          ∙ g.links u;
      owner = g.owner;
      token = g.token;
    },
  )
]

-- A thread that is its holder takes a lock through the phases of `lock_release`.
release-Fits :
    (l m : ℕ) (q : Phase)
    → (l ≡ m → is_owner q ≡ true)
    → Fits l (some q) []
    → Fits l (some q) (call_forget m ∷ call_unlink m ∷ call_sema_up (of_lock m) ∷ [])
release-Fits l m q owner f = elim (Bool-cases (l == m)) [
  | inl e ↦
      let same : l ≡ m = ground (arith, e) in
      subst
        (λ (m : ℕ). Fits l (some q) (call_forget m ∷ call_unlink m ∷ call_sema_up (of_lock m) ∷ []))
        same (release_own l q [] (owner same) (settled_out l q f))
  | inr e ↦ release_other l m q [] e f
]

assign-assign :
    (f : ℕ → List Call) (t : ℕ) (a b : List Call) (u : ℕ)
    → assign f t b u ≡ assign (assign f t a) t b u
assign-assign f t a b u = elim (Bool-cases (u == t)) [ inl e ↦ rw e refl | inr e ↦ rw e refl ]

assign_same :
    (f : ℕ → List Call) (t : ℕ) (a b : List Call)
    → f t ≡ b
    → (u : ℕ) → f u ≡ assign (assign f t a) t b u
assign_same f t a b h u = elim (Bool-cases (u == t)) [
  | inl e ↦ let at : u ≡ t = ground (arith, e) in rw e (ap f at ∙ h)
  | inr e ↦ rw e refl
]

assign_sema_self : (f : Semaphore → ℕ) (m n : ℕ) → assign_sema f (of_lock m) n (of_lock m) ≡ n
assign_sema_self f m n = rw (eq→== m m refl) refl

module _ {l : ℕ} {k : Kernel} {ph : ℕ → Phase} (m : ℕ) where
  pub give_back-up :
      (mid : Kernel)
      → Rests l k ph
      → k.todo k.sched.running ≡ []
      → is_holder k.sched.running (k.holder m) ≡ true
      → sema_up (of_lock m) (unlink m (forget m k)) ≡ ok mid
      → Safe l mid
  give_back-up mid g e owns up =
      let t = k.sched.running in
      let two : List Call = call_unlink m ∷ call_sema_up (of_lock m) ∷ [] in
      let one : List Call = call_sema_up (of_lock m) ∷ [] in
      let settled_now : Fits l (some (ph t)) [] = subst (Fits l (some (ph t))) e (g.fits t) in
      let owner : l ≡ m → is_owner (ph t) ≡ true =
        λ at. sym (g.owner t) ∙ ap (λ (m : ℕ). is_holder t (k.holder m)) at ∙ owns in
      let forgot = run_forget l m (
        Rests-front t two (next_phase l (call_forget m) (ph t)) g
          (release-Fits l m (ph t) owner settled_now)) in
      let unlinks = run_unlink l m (
        Rests-next t (call_unlink m) one (assign k.todo t one) forgot.1 (assign_self k.todo t two)
          (assign-assign k.todo t two one)) in
      sema_up-Safe (of_lock m) t
        (Rests-next t (call_sema_up (of_lock m)) [] k.todo unlinks.1 (assign_self k.todo t one)
          (assign_same k.todo t one [] e))
        up

  pub give_back-value :
      (mid : Kernel)
      → Rests l k ph
      → is_holder k.sched.running (k.holder m) ≡ true
      → sema_up (of_lock m) (unlink m (forget m k)) ≡ ok mid
      → l ≡ m
      → mid.value (of_lock l) ≡ 1
  give_back-value mid g owns up at =
      let t = k.sched.running in
      let owner : is_owner (ph t) ≡ true =
        sym (g.owner t) ∙ ap (λ (m : ℕ). is_holder t (k.holder m)) at ∙ owns in
      let none_left : k.value (of_lock l) ≡ 0 = taken_value t g.token (owner_busy (ph t) owner) in
      let x = sema_up-raise (of_lock m) (unlink m (forget m k)) mid up in
      let before : (x.0).value (of_lock m) ≡ 0 =
        ap (λ (f : Semaphore → ℕ). f (of_lock m)) (x.1.same_value)
        ∙ sym (ap (λ (m : ℕ). k.value (of_lock m)) at)
        ∙ none_left in
      let raised : (raise (of_lock m) x.0).value (of_lock m)
          ≡ ((x.0).value (of_lock m) + 1) % 2 ^ 32 =
        assign_sema_self (x.0).value m (((x.0).value (of_lock m) + 1) % 2 ^ 32) in
      ap (λ (m : ℕ). mid.value (of_lock m)) at
      ∙ ap (λ (k : Kernel). k.value (of_lock m)) x.3
      ∙ raised
      ∙ ap (λ (n : ℕ). (n + 1) % 2 ^ 32) before
