-- ===== src/Cache/Evict.antt =====
-- `filesys_cache_block_evict`: a new entry, or the one that the clock chooses, for the sector.
use os_labratory_spring.Prelude.{
  ℕ, ◌+◌, ◌<◌, ◌≡◌, ◌≢◌, refl, ◌∙◌, sym, inl, inr, Bool, true, List, [], ◌∷◌, ◌++◌, length,
  get_elem?, set, ok, arith, none, some, length-set, length-append, Bool-cases, dec_lt,
}
use os_labratory_spring.Device.{Device, written, block_read-lt, block_write-lt}
use os_labratory_spring.Cache.{
  Entry, Cache, loaded, write_back, add_entry, reuse_entry, evict, max_filesys_cache_size,
}
use os_labratory_spring.Cache.View.{
  slot, slot_of_get_elem?, slot-set, Distinct-set, get_elem?-set_self, slot-append, Distinct-append,
  get_elem?-append_last,
}
use os_labratory_spring.Cache.Clock.{idle, clock-Chosen}
use os_labratory_spring.Cache.Valid.{IsCoherent, IsValid, HasRoom, Served, idle-set}

add_entry-Served :
    (st : Cache) (s : ℕ) (d : Bool)
    → IsValid st
    → slot st.entries s ≡ none
    → s < st.dev.size
    → st.size < max_filesys_cache_size
    → (st' : Cache) × (add_entry st s d ≡ ok (some (length st.entries), st'))
      × Served st st' s (length st.entries)
unfolding add_entry
add_entry-Served st s d v absent lt room =
    let c = loaded 0 s d (st.dev.stored s) in
    let slots = λ (t : ℕ). slot-append st.entries c t absent in
    (
      record st { entries = st.entries ++ (c ∷ []); size = st.size + 1 },
      ground (arith, block_read-lt st.dev s lt),
      record {
        valid = record {
          counted = omega (arith, length-append st.entries (c ∷ []), v.counted);
          bounded = omega arith;
          coherent = record {
            distinct = Distinct-append st.entries c v.coherent.distinct absent;
            in_range = λ t x e. ground (arith, slots t, v.coherent.in_range t x);
            clean = λ t b e. ground (arith, slots t, v.coherent.clean t b);
          };
        };
        kept = λ t. ground (arith, slots t, absent);
        device = refl;
        opened = record {
          entry = c;
          at = get_elem?-append_last st.entries c;
          sector = refl;
          block = ground (arith, absent);
          pinned = omega arith;
          accessed = refl;
        };
        absent = λ t ne e. ground (arith, slots t);
        room = λ _ c' e. inr (
            idle-set (st.entries ++ (c ∷ [])) (length st.entries) c c'
              (get_elem?-append_last st.entries c) (omega arith));
      },
    )

-- The device once the entry `c` is on it.
pub record WrittenBack (dev dev' : Device) (c : Entry) : Type 0 where
  pub size : dev'.size ≡ dev.size
  pub there : dev'.stored c.sector ≡ c.block
  pub others : (t : ℕ) → t ≢ c.sector → dev'.stored t ≡ dev.stored t

pub write_back-WrittenBack :
    {cs : List Entry} (dev : Device) (c : Entry)
    → IsCoherent cs dev
    → slot cs c.sector ≡ some (c.block, c.dirty)
    → (dev' : Device) × (write_back dev c ≡ ok dev') × WrittenBack dev dev' c
unfolding write_back
write_back-WrittenBack dev c v h =
    let lt : c.sector < dev.size = v.in_range c.sector (c.block, c.dirty) h in
    elim (Bool-cases c.dirty) [
      | inl e ↦ (
        written dev c.sector c.block,
        ground (arith, block_write-lt dev c.sector c.block lt),
        record { size = refl; there = ground arith; others = λ t ne. ground arith },
      )
      | inr e ↦ (
        dev,
        ground arith,
        record {
          size = refl;
          there = sym (v.clean c.sector c.block (ground arith));
          others = λ t ne. refl;
        },
      )
    ]

-- The victim's entry, once it is loaded with a sector that was not cached.
reuse-IsCoherent :
    {cs : List Entry} {dev dev' : Device} (i : ℕ) (c : Entry) (s : ℕ) (d : Bool)
    → IsCoherent cs dev
    → get_elem? cs i ≡ some c
    → slot cs s ≡ none
    → s < dev.size
    → WrittenBack dev dev' c
    → IsCoherent (set cs i (loaded c.open_cnt s d (dev'.stored s))) dev'
reuse-IsCoherent {cs} {dev} {dev'} i c s d v at absent lt w =
    let c' = loaded c.open_cnt s d (dev'.stored s) in
    let slots = λ (t : ℕ). slot-set cs i c c' t v.distinct at absent in
    record {
      distinct = Distinct-set cs i c c' v.distinct at absent;
      in_range = λ t x e. ground (arith, slots t, v.in_range t x, w.size);
      clean = λ t b e. ground (arith, slots t, v.clean t b, w.others t);
    }

reuse_entry-Served :
    (st : Cache) (s : ℕ) (d : Bool)
    → IsValid st
    → slot st.entries s ≡ none
    → s < st.dev.size
    → idle st.entries ≡ true
    → (st' : Cache) × (i : ℕ) × (reuse_entry st s d ≡ ok (some i, st')) × Served st st' s i
unfolding reuse_entry
reuse_entry-Served st s d v absent lt room =
    let (cs, i, c, run, ch) = clock-Chosen st.entries room in
    let coh : IsCoherent cs st.dev = record {
      distinct = ch.distinct v.coherent.distinct;
      in_range = λ t x e. v.coherent.in_range t x (sym (ch.slots t) ∙ e);
      clean = λ t b e. v.coherent.clean t b (sym (ch.slots t) ∙ e);
    } in
    let here = slot_of_get_elem? cs i c coh.distinct ch.at in
    let (dev', back, w) = write_back-WrittenBack st.dev c coh here in
    let absent' : slot cs s ≡ none = ch.slots s ∙ absent in
    let c' = loaded c.open_cnt s d (dev'.stored s) in
    let ne : s ≢ c.sector = λ e. ground (arith, here) in
    (
      record st { entries = set cs i c'; dev = dev' },
      i,
      ground (arith, run, back, block_read-lt dev' s (omega (arith, w.size))),
      record {
        valid = record {
          counted = omega (arith, length-set cs i c', ch.size, v.counted);
          bounded = v.bounded;
          coherent = reuse-IsCoherent i c s d coh ch.at absent' lt w;
        };
        kept = λ t. ground (
          arith,
          slot-set cs i c c' t coh.distinct ch.at absent',
          ch.slots t,
          here,
          w.others t,
          w.there,
          absent,
        );
        device = w.size;
        opened = record {
          entry = c';
          at = get_elem?-set_self cs i c c' ch.at;
          sector = refl;
          block = ground (arith, absent, w.others s ne);
          pinned = omega arith;
          accessed = refl;
        };
        absent = λ t other e.
            ground (arith, slot-set cs i c c' t coh.distinct ch.at absent', ch.slots t);
        room = λ _ c'' e. inr (
            idle-set (set cs i c') i c' c'' (get_elem?-set_self cs i c c' ch.at)
              (omega (arith, ch.closed)));
      },
    )

pub evict-Served :
    (st : Cache) (s : ℕ) (d : Bool)
    → IsValid st
    → slot st.entries s ≡ none
    → s < st.dev.size
    → HasRoom st
    → (st' : Cache) × (i : ℕ) × (evict st s d true ≡ ok (some i, st')) × Served st st' s i
unfolding evict
evict-Served st s d v absent lt room = elim (dec_lt st.size max_filesys_cache_size) [
  | yes small ↦
      let (st', run, served) = add_entry-Served st s d v absent lt small in
      (st', length st.entries, ground (arith, run), served)
  | no full ↦ elim room [
    | inl small ↦ absurd (full small)
    | inr free ↦
        let (st', i, run, served) = reuse_entry-Served st s d v absent lt free in
        (st', i, ground (arith, run), served)
  ]
]
