-- ===== src/Cache/Clock.antt =====
-- The clock of `filesys_cache_block_evict`: when its loop ends, and what it chooses.
use os_labratory_spring.Prelude.{
  ℕ, zero, suc, ◌≡◌, ◌≢◌, refl, ◌∙◌, inl, inr, Bool, true, false, not, ◌&&◌, ◌||◌, List, [], ◌∷◌,
  length, get_elem?, ltb, ok, hang, arith, none, some, Option-cases,
}
use os_labratory_spring.Cache.{Entry, pass, clock, passes}
use os_labratory_spring.Cache.View.{slot, Distinct, slot-pass, length-pass, Distinct-pass}

-- Some entry is not open.
abbrev pub idle : List Entry → Bool
idle [] = false
idle (c ∷ cs) = not (ltb 0 c.open_cnt) || idle cs

-- Some entry is neither open nor accessed since the last pass.
abbrev ready : List Entry → Bool
ready [] = false
ready (c ∷ cs) = (not (ltb 0 c.open_cnt) && not c.accessed) || ready cs

pass-ready : (cs : List Entry) → ready cs ≡ true → (pass cs).1 ≢ none
unfolding pass
pass-ready [] h = λ _. cc
pass-ready (c ∷ cs) h = ground (arith, pass-ready cs)

ready-pass : (cs : List Entry) → idle cs ≡ true → (pass cs).1 ≡ none → ready (pass cs).0 ≡ true
unfolding pass
ready-pass [] h n = h
ready-pass (c ∷ cs) h n = ground (arith, ready-pass cs)

-- The victim stands at its position, is not open, and was not accessed.
pub pass-victim :
    (cs : List Entry) (i : ℕ) (c : Entry)
    → (pass cs).1 ≡ some (i, c)
    → (get_elem? (pass cs).0 i ≡ some c) × (c.open_cnt ≡ 0) × (c.accessed ≡ false)
unfolding pass
pass-victim [] i c h = absurd (cc)
pass-victim (x ∷ cs) zero c h = ground arith
pass-victim (x ∷ cs) (suc i) c h = ground (arith, pass-victim cs i c)

-- A victim that the clock may choose from `cs`, leaving `cs'`.
pub record Chosen (cs cs' : List Entry) (i : ℕ) (c : Entry) : Type 0 where
  pub at : get_elem? cs' i ≡ some c
  pub closed : c.open_cnt ≡ 0
  pub size : length cs' ≡ length cs
  pub distinct : Distinct cs → Distinct cs'
  pub slots : (t : ℕ) → slot cs' t ≡ slot cs t

pass-Chosen :
    (cs : List Entry) (i : ℕ) (c : Entry) → (pass cs).1 ≡ some (i, c) → Chosen cs (pass cs).0 i c
pass-Chosen cs i c h =
    let (at, closed, _) = pass-victim cs i c h in
    record {
      at = at;
      closed = closed;
      size = length-pass cs;
      distinct = Distinct-pass cs;
      slots = slot-pass cs;
    }

-- If some entry is not open, two passes choose one that is not, and change nothing that the
-- entries hold.
pub clock-Chosen :
    (cs : List Entry)
    → idle cs ≡ true
    → (cs' : List Entry) × (i : ℕ) × (c : Entry) × (clock passes cs ≡ ok (cs', (i, c)))
      × Chosen cs cs' i c
unfolding clock
clock-Chosen cs h = elim (Option-cases (pass cs).1) [
  | inr ((i, c), e) ↦ ((pass cs).0, i, c, ground arith, pass-Chosen cs i c e)
  | inl e ↦
      let cs1 = (pass cs).0 in
      elim (Option-cases (pass cs1).1) [
        | inl e' ↦ absurd (pass-ready cs1 (ready-pass cs h e) e')
        | inr ((i, c), e') ↦
            let v = pass-Chosen cs1 i c e' in
            (
              (pass cs1).0,
              i,
              c,
              ground arith,
              record {
                at = v.at;
                closed = v.closed;
                size = v.size ∙ length-pass cs;
                distinct = λ d. v.distinct (Distinct-pass cs d);
                slots = λ t. v.slots t ∙ slot-pass cs t;
              },
            )
      ]
]

pass-busy : (cs : List Entry) → idle cs ≡ false → ((pass cs).1 ≡ none) × (idle (pass cs).0 ≡ false)
unfolding pass
pass-busy [] h = (refl, refl)
pass-busy (c ∷ cs) h = ground (arith, pass-busy cs)

-- If every entry is open, no number of passes ends the loop of `filesys_cache_block_evict`.
pub clock-hang : (fuel : ℕ) (cs : List Entry) → idle cs ≡ false → clock fuel cs ≡ hang
unfolding clock
clock-hang zero cs h = refl
clock-hang (suc fuel) cs h =
    let (e, busy) = pass-busy cs h in ground (arith, clock-hang fuel (pass cs).0 busy)
