-- ===== src/Synch/Phases.antt =====
-- How far each thread is with one lock, read off the calls that it is still to do.
use os_labratory_spring.Prelude.{
  ℕ, ◌≡◌, refl, sym, subst, inl, inr, Bool, true, false, Option, none, some, List, [], ◌∷◌, ◌==◌,
  if◌then◌else◌, arith, Bool-cases,
}
use os_labratory_spring.Threads.{assign, count}
use os_labratory_spring.Threads.Rounds.{assign_self}
use os_labratory_spring.Synch.{
  sema, of_lock, of_waiter, Call, call_sema_down, call_sema_up, call_lock_acquire,
  call_lock_release, call_cond_wait, call_cond_signal, call_cond_broadcast, call_hold, call_link,
  call_forget, call_unlink, Kernel, is_holder,
}

-- The way of a lock through `lock_acquire` and `lock_release`: behind `sema_down` (`got`), behind
-- the write of the holder (`held`), behind `lock_acquire` (`inside`), behind `holder = NULL`
-- (`dropped`), behind `list_remove` (`unlinked`) and behind `sema_up` (`out`).
pub data Phase : Type 0 where
  out : Phase
  got : Phase
  held : Phase
  inside : Phase
  dropped : Phase
  unlinked : Phase

-- Whether the thread has not taken the lock, has it in its list, and is its holder.
abbrev pub is_free : Phase → Bool
is_free out = true
is_free got = false
is_free held = false
is_free inside = false
is_free dropped = false
is_free unlinked = false

abbrev pub linked : Phase → ℕ
linked out = 0
linked got = 0
linked held = 0
linked inside = 1
linked dropped = 1
linked unlinked = 0

abbrev pub is_owner : Phase → Bool
is_owner out = false
is_owner got = false
is_owner held = true
is_owner inside = true
is_owner dropped = false
is_owner unlinked = false

abbrev pub after_down : Phase → Option Phase
after_down out = some got
after_down got = none
after_down held = none
after_down inside = none
after_down dropped = none
after_down unlinked = none

abbrev pub after_hold : Phase → Option Phase
after_hold out = none
after_hold got = some held
after_hold held = none
after_hold inside = none
after_hold dropped = none
after_hold unlinked = none

abbrev pub after_link : Phase → Option Phase
after_link out = none
after_link got = none
after_link held = some inside
after_link inside = none
after_link dropped = none
after_link unlinked = none

abbrev pub after_forget : Phase → Option Phase
after_forget out = none
after_forget got = none
after_forget held = none
after_forget inside = some dropped
after_forget dropped = none
after_forget unlinked = none

abbrev pub after_unlink : Phase → Option Phase
after_unlink out = none
after_unlink got = none
after_unlink held = none
after_unlink inside = none
after_unlink dropped = some unlinked
after_unlink unlinked = none

abbrev pub after_up : Phase → Option Phase
after_up out = none
after_up got = none
after_up held = none
after_up inside = none
after_up dropped = none
after_up unlinked = some out

-- A whole `lock_acquire` or `lock_release` leads to the given phase, and starts outside of the two.
abbrev pub settles : Phase → Phase → Option Phase
settles next out = some next
settles next got = none
settles next held = none
settles next inside = some next
settles next dropped = none
settles next unlinked = none

abbrev pub settled : Phase → Option Phase
settled out = some out
settled got = none
settled held = none
settled inside = some inside
settled dropped = none
settled unlinked = none

-- The phase of lock `l` behind a call.
abbrev pub next_phase : ℕ → Call → Phase → Option Phase
next_phase l (call_sema_down (sema a)) q = some q
next_phase l (call_sema_down (of_lock m)) q = if l == m then after_down q else some q
next_phase l (call_sema_down (of_waiter t)) q = some q
next_phase l (call_sema_up (sema a)) q = some q
next_phase l (call_sema_up (of_lock m)) q = if l == m then after_up q else some q
next_phase l (call_sema_up (of_waiter t)) q = some q
next_phase l (call_lock_acquire m) q = if l == m then settles inside q else some q
next_phase l (call_lock_release m) q = if l == m then settles out q else some q
next_phase l (call_cond_wait c m) q = if l == m then settled q else some q
next_phase l (call_cond_signal c m) q = some q
next_phase l (call_cond_broadcast c m) q = some q
next_phase l (call_hold m) q = if l == m then after_hold q else some q
next_phase l (call_link m) q = if l == m then after_link q else some q
next_phase l (call_forget m) q = if l == m then after_forget q else some q
next_phase l (call_unlink m) q = if l == m then after_unlink q else some q

-- The calls still to do fit the phase, and end outside of `lock_acquire` and `lock_release`.
abbrev pub Fits : ℕ → Option Phase → List Call → Type 0
Fits l none cs = ⊥
Fits l (some q) [] = (x : Phase) × (settled q ≡ some x)
Fits l (some q) (c ∷ cs) = Fits l (next_phase l c q) cs

-- The value of the semaphore of the lock is 1 and no thread has taken the lock, or it is 0 and one
-- thread has.
pub data Token (v : ℕ) (ph : ℕ → Phase) : Type 0 where
  at_rest : v ≡ 1 → ((t : ℕ) → is_free (ph t) ≡ true) → Token v ph
  taken :
      (t : ℕ)
      → v ≡ 0
      → is_free (ph t) ≡ false
      → ((u : ℕ) → is_free (ph u) ≡ false → u ≡ t)
      → Token v ph

-- The lock `l` in a state in which each thread is at the phase `ph`, and in which its calls to do
-- lead on from `pos`.
pub record Guarded (l : ℕ) (k : Kernel) (ph : ℕ → Phase) (pos : ℕ → Option Phase) : Type 0 where
  pub fits : (t : ℕ) → Fits l (pos t) (k.todo t)
  pub links : (t : ℕ) → count l (k.lock_list t) ≡ linked (ph t)
  pub owner : (t : ℕ) → is_holder t (k.holder l) ≡ is_owner (ph t)
  pub token : Token (k.value (of_lock l)) ph

-- Between two calls of a thread.
abbrev pub Rests : ℕ → Kernel → (ℕ → Phase) → Type 0
Rests l k ph = Guarded l k ph (λ t. some (ph t))

pub assign_cases {ℓ κ} :
    {A : Type ℓ} (P : ℕ → A → Type κ) (f : ℕ → A) (t : ℕ) (a : A)
    → P t a
    → ((u : ℕ) → (u == t) ≡ false → P u (f u))
    → (u : ℕ) → P u (assign f t a u)
assign_cases P f t a p q u = elim (Bool-cases (u == t)) [
  | inl e ↦ let at : t ≡ u = ground (arith, e) in rw e (subst (λ v. P v a) at p)
  | inr e ↦ rw e (q u e)
]

pub assign_other {ℓ} :
    {A : Type ℓ} (f : ℕ → A) (t u : ℕ) (a : A) → (u == t) ≡ false → assign f t a u ≡ f u
assign_other f t u a e = rw e refl

-- A step of one thread to its next phase.
pub Guarded-moves :
    {l : ℕ} {k k' : Kernel} {ph : ℕ → Phase} (t : ℕ) (q : Phase)
    → Guarded l k ph (assign (λ u. some (ph u)) t (some q))
    → k'.todo ≡ k.todo
    → ((u : ℕ) → count l (k'.lock_list u) ≡ linked (assign ph t q u))
    → ((u : ℕ) → is_holder u (k'.holder l) ≡ is_owner (assign ph t q u))
    → Token (k'.value (of_lock l)) (assign ph t q)
    → Rests l k' (assign ph t q)
Guarded-moves {l} {k} {k'} {ph} t q g same_todo links owner token = record {
  fits = λ u.
      subst (λ (f : ℕ → List Call). Fits l (some (assign ph t q u)) (f u)) (sym same_todo)
        (assign_cases
          (λ v o.
            Fits l (assign (λ w. some (ph w)) t (some q) v) (k.todo v) → Fits l (some o) (k.todo v))
          ph t q
          (λ f.
            subst (λ (o : Option Phase). Fits l o (k.todo t))
              (assign_self (λ w. some (ph w)) t (some q)) f)
          (λ v e f.
            subst (λ (o : Option Phase). Fits l o (k.todo v))
              (assign_other (λ w. some (ph w)) t v (some q) e) f)
          u (g.fits u));
  links = links;
  owner = owner;
  token = token;
}
