-- ===== src/Synch/Own.antt =====
-- What the calls to a lock do to it.
use os_labratory_spring.Prelude.{
  ℕ, ◌≡◌, refl, sym, subst, ap, ◌∙◌, false, Option, none, some, List, [], ◌∷◌, ◌++◌, ◌==◌, arith,
  eq→==, ne→false,
}
use os_labratory_spring.Threads.{assign, list_remove, count}
use os_labratory_spring.Threads.Rounds.{assign_self}
use os_labratory_spring.Synch.{
  of_lock, Call, Kernel, is_holder, hold, link, forget, unlink, raise, lower,
}
use os_labratory_spring.Synch.Phases.{
  Phase, out, got, held, inside, dropped, unlinked, is_free, linked, is_owner, after_down,
  after_hold, after_link, after_forget, after_unlink, after_up, Fits, Token, Guarded, Rests,
  assign_cases, assign_other, Guarded-moves,
}
use os_labratory_spring.Synch.Moves.{
  from_down, from_hold, from_link, from_forget, from_unlink, from_up, others_free, not_eq,
  Token-take, Token-keep, Token-give, free-owner, free-linked, count-push, count-remove_self,
}

-- A thread `t` in front of a call that leads to the phase `next`.
abbrev pub Before : ℕ → Kernel → (ℕ → Phase) → ℕ → Option Phase → Type 0
Before l k ph t next = Guarded l k ph (assign (λ u. some (ph u)) t next)

-- Between two calls, for some phases of the threads.
abbrev pub Safe : ℕ → Kernel → Type 0
Safe l k = (ph : ℕ → Phase) × Rests l k ph

module _ {l : ℕ} {k : Kernel} {ph : ℕ → Phase} (t : ℕ) where
  pub Before-Fits : (next : Option Phase) → Before l k ph t next → Fits l next (k.todo t)
  Before-Fits next g =
      subst (λ (o : Option Phase). Fits l o (k.todo t)) (assign_self (λ u. some (ph u)) t next)
        (g.fits t)

  -- A call that is about something else.
  pub Guarded-stays :
      {k' : Kernel} (next : Option Phase)
      → Before l k ph t next
      → next ≡ some (ph t)
      → k'.todo ≡ k.todo
      → ((u : ℕ) → count l (k'.lock_list u) ≡ count l (k.lock_list u))
      → k'.holder l ≡ k.holder l
      → k'.value (of_lock l) ≡ k.value (of_lock l)
      → Rests l k' ph
  Guarded-stays next g same todo links holder value = record {
    fits = λ u.
        subst (λ (f : ℕ → List Call). Fits l (some (ph u)) (f u)) (sym todo)
          (assign_cases (λ v o. Fits l o (k.todo v) → Fits l (some (ph v)) (k.todo v))
            (λ v. some (ph v)) t next
            (λ f. subst (λ (o : Option Phase). Fits l o (k.todo t)) same f) (λ v e f. f) u
            (g.fits u));
    links = λ u. links u ∙ g.links u;
    owner = λ u. ap (is_holder u) holder ∙ g.owner u;
    token = subst (λ (v : ℕ). Token v ph) (sym value) g.token;
  }

  -- While thread `t` has taken the lock, the other threads have nothing of it.
  others :
      {pos : ℕ → Option Phase} (u : ℕ)
      → Guarded l k ph pos
      → is_free (ph t) ≡ false
      → (u == t) ≡ false
      → (count l (k.lock_list u) ≡ 0) × (is_owner (ph u) ≡ false) × (linked (ph u) ≡ 0)
  others u g f e =
      let free = others_free t u g.token f e in
      let apart = free-linked (ph u) free in (g.links u ∙ apart, free-owner (ph u) free, apart)

  -- The position behind a call, once the phase before it is known.
  Before-at :
      (f : Phase → Option Phase) (from to : Phase)
      → ph t ≡ from
      → f from ≡ some to
      → Before l k ph t (f (ph t))
      → Before l k ph t (some to)
  Before-at f from to at next g = subst (λ (o : Option Phase). Before l k ph t o) (ap f at ∙ next) g

module _ (l : ℕ) (k : Kernel) (ph : ℕ → Phase) where
  pub hold-Safe :
      Before l k ph k.sched.running (after_hold (ph k.sched.running)) → Safe l (hold l k)
  hold-Safe g =
      let t = k.sched.running in
      let at : ph t ≡ got = from_hold l (ph t) (k.todo t) (Before-Fits t _ g) in
      let busy : is_free (ph t) ≡ false = ap is_free at in
      (
        assign ph t held,
        Guarded-moves t held (Before-at t after_hold got held at refl g) refl
            (assign_cases (λ u q. count l (k.lock_list u) ≡ linked q) ph t held
              (g.links t ∙ ap linked at) (λ u e. g.links u))
            (assign_cases (λ u q. is_holder u (assign k.holder l (some t) l) ≡ is_owner q) ph t held
              (ap (is_holder t) (assign_self k.holder l (some t)) ∙ eq→== t t refl)
              (λ u e.
                ap (is_holder u) (assign_self k.holder l (some t))
                ∙ ne→false t u (λ h. not_eq u t e (sym h))
                ∙ sym ((others t u g busy e).1)))
            (Token-keep t held g.token busy refl),
      )

  pub link-Safe :
      Before l k ph k.sched.running (after_link (ph k.sched.running)) → Safe l (link l k)
  link-Safe g =
      let t = k.sched.running in
      let at : ph t ≡ held = from_link l (ph t) (k.todo t) (Before-Fits t _ g) in
      let busy : is_free (ph t) ≡ false = ap is_free at in
      let ls = k.lock_list t ++ (l ∷ []) in
      (
        assign ph t inside,
        Guarded-moves t inside (Before-at t after_link held inside at refl g) refl
            (assign_cases (λ u q. count l (assign k.lock_list t ls u) ≡ linked q) ph t inside
              (ap (count l) (assign_self k.lock_list t ls)
                ∙ count-push l l (k.lock_list t)
                ∙ (let none_yet : count l (k.lock_list t) ≡ 0 = g.links t ∙ ap linked at in
                    let one : count l (l ∷ []) ≡ 1 = rw (eq→== l l refl) refl in omega arith))
              (λ u e. ap (count l) (assign_other k.lock_list t u ls e) ∙ g.links u))
            (assign_cases (λ u q. is_holder u (k.holder l) ≡ is_owner q) ph t inside
              (g.owner t ∙ ap is_owner at) (λ u e. g.owner u))
            (Token-keep t inside g.token busy refl),
      )

  pub forget-Safe :
      Before l k ph k.sched.running (after_forget (ph k.sched.running)) → Safe l (forget l k)
  forget-Safe g =
      let t = k.sched.running in
      let at : ph t ≡ inside = from_forget l (ph t) (k.todo t) (Before-Fits t _ g) in
      let busy : is_free (ph t) ≡ false = ap is_free at in
      let gone : (u : ℕ) → is_holder u (assign k.holder l none l) ≡ false =
        λ u. ap (is_holder u) (assign_self k.holder l none) in
      (
        assign ph t dropped,
        Guarded-moves t dropped (Before-at t after_forget inside dropped at refl g) refl
            (assign_cases (λ u q. count l (k.lock_list u) ≡ linked q) ph t dropped
              (g.links t ∙ ap linked at) (λ u e. g.links u))
            (assign_cases (λ u q. is_holder u (assign k.holder l none l) ≡ is_owner q) ph t dropped
              (gone t) (λ u e. gone u ∙ sym ((others t u g busy e).1)))
            (Token-keep t dropped g.token busy refl),
      )

  pub unlink-Safe :
      Before l k ph k.sched.running (after_unlink (ph k.sched.running)) → Safe l (unlink l k)
  unlink-Safe g =
      let t = k.sched.running in
      let at : ph t ≡ dropped = from_unlink l (ph t) (k.todo t) (Before-Fits t _ g) in
      let busy : is_free (ph t) ≡ false = ap is_free at in
      (
        assign ph t unlinked,
        Guarded-moves t unlinked (Before-at t after_unlink dropped unlinked at refl g) refl
            (assign_cases (λ u q. count l (list_remove l (k.lock_list u)) ≡ linked q) ph t unlinked
              (count-remove_self l (k.lock_list t)
                ∙ (let one : count l (k.lock_list t) ≡ 1 = g.links t ∙ ap linked at in omega arith))
              (λ u e.
                let x = others t u g busy e in
                count-remove_self l (k.lock_list u)
                ∙ (let zero_count = x.0 in let zero_link = x.2 in omega arith)))
            (assign_cases (λ u q. is_holder u (k.holder l) ≡ is_owner q) ph t unlinked
              (g.owner t ∙ ap is_owner at) (λ u e. g.owner u))
            (Token-keep t unlinked g.token busy refl),
      )

  pub raise-Safe : (t : ℕ) → Before l k ph t (after_up (ph t)) → Safe l (raise (of_lock l) k)
  raise-Safe t g =
      let at : ph t ≡ unlinked = from_up l (ph t) (k.todo t) (Before-Fits t _ g) in
      let busy : is_free (ph t) ≡ false = ap is_free at in
      (
        assign ph t out,
        Guarded-moves t out (Before-at t after_up unlinked out at refl g) refl
            (assign_cases (λ u q. count l (k.lock_list u) ≡ linked q) ph t out
              (g.links t ∙ ap linked at) (λ u e. g.links u))
            (assign_cases (λ u q. is_holder u (k.holder l) ≡ is_owner q) ph t out
              (g.owner t ∙ ap is_owner at) (λ u e. g.owner u))
            (rw (eq→== l l refl) (Token-give t out g.token busy refl)),
      )

  pub lower-Safe :
      (t : ℕ)
      → Before l k ph t (after_down (ph t))
      → (k.value (of_lock l) == 0) ≡ false
      → Safe l (lower (of_lock l) k)
  lower-Safe t g h =
      let at : ph t ≡ out = from_down l (ph t) (k.todo t) (Before-Fits t _ g) in
      (
        assign ph t got,
        Guarded-moves t got (Before-at t after_down out got at refl g) refl
            (assign_cases (λ u q. count l (k.lock_list u) ≡ linked q) ph t got
              (g.links t ∙ ap linked at) (λ u e. g.links u))
            (assign_cases (λ u q. is_holder u (k.holder l) ≡ is_owner q) ph t got
              (g.owner t ∙ ap is_owner at) (λ u e. g.owner u))
            (rw (eq→== l l refl) (Token-take t got g.token h refl)),
      )
