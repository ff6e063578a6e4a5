-- ===== src/Cache/Get.antt =====
-- `filesys_cache_block_get`: the sector asked for is in the cache, and what a reader sees of any
-- sector is unchanged.
use os_labratory_spring.Prelude.{
  ℕ, ◌≤◌, ◌<◌, ◌≡◌, refl, ◌∙◌, inl, inr, Bool, true, false, get_elem?, ok, hang, arith, none, some,
  length-set,
}
use os_labratory_spring.Cache.{
  Entry, Cache, modify, touch, passes, reuse_entry, evict, get, max_filesys_cache_size,
}
use os_labratory_spring.Cache.View.{
  slot, slot_of_get_elem?, get_elem?-set_self, block_in_cache-cases, modify-eq-set, slot-set_same,
  Distinct-set_same,
}
use os_labratory_spring.Cache.Clock.{idle, clock-hang}
use os_labratory_spring.Cache.Valid.{IsValid, HasRoom, Served, idle-set-set}
use os_labratory_spring.Cache.Evict.{evict-Served}

-- A hit: the entry is opened once more.
touch-Served :
    (st : Cache) (s i : ℕ) (c : Entry) (d : Bool)
    → IsValid st
    → get_elem? st.entries i ≡ some c
    → c.sector ≡ s
    → Served st (record st { entries = modify (touch d) i st.entries }) s i
touch-Served st s i c d v at e =
    let cs = st.entries in
    let c' = touch d c in
    let here = slot_of_get_elem? cs i c v.coherent.distinct at in
    let slots = λ (t : ℕ). slot-set_same cs i c c' t v.coherent.distinct at refl in
    rw (modify-eq-set (touch d) i cs c at) (record {
      valid = record {
        counted = omega (arith, length-set cs i c', v.counted);
        bounded = v.bounded;
        coherent = record {
          distinct = Distinct-set_same cs i c c' v.coherent.distinct at refl;
          in_range = λ t x h. ground (
            arith,
            slots t,
            here,
            v.coherent.in_range t x,
            v.coherent.in_range t (c.block, c.dirty),
          );
          clean = λ t b h. ground (arith, slots t, here, v.coherent.clean t b);
        };
      };
      kept = λ t. ground (arith, slots t, here);
      device = refl;
      opened = record {
        entry = c';
        at = get_elem?-set_self cs i c c' at;
        sector = e;
        block = ground (arith, here);
        pinned = omega arith;
        accessed = refl;
      };
      absent = λ t ne h. ground (arith, slots t);
      room = λ r c'' h. elim r [
        | inl small ↦ inl small
        | inr free ↦ inr (idle-set-set cs i c c' c'' at (omega arith) ∙ free)
      ];
    })

-- On a valid cache with room and memory, `filesys_cache_block_get` of a sector of the device
-- neither panics nor loops for ever.  It returns an open entry for that sector, with the bytes a
-- reader of the sector saw before; the cache stays valid, and no sector looks different.
pub get-Served :
    (st : Cache) (s : ℕ) (d : Bool)
    → IsValid st
    → s < st.dev.size
    → HasRoom st
    → (st' : Cache) × (i : ℕ) × (get st s d true ≡ ok (i, st')) × Served st st' s i
unfolding get
get-Served st s d v lt room = elim (block_in_cache-cases st.entries s) [
  | inr (i, c, run, at, e, _) ↦ (
    record st { entries = modify (touch d) i st.entries },
    i,
    ground (arith, run),
    touch-Served st s i c d v at e,
  )
  | inl (run, absent) ↦
      let (st', i, run', served) = evict-Served st s d v absent lt room in
      (st', i, ground (arith, run, run'), served)
]

-- With MAX_FILESYS_CACHE_SIZE entries that are all open, for a sector that is not cached, the loop
-- of `filesys_cache_block_evict` finds no entry in two passes.
pub get-hang :
    (st : Cache) (s : ℕ) (d mem : Bool)
    → max_filesys_cache_size ≤ st.size
    → slot st.entries s ≡ none
    → idle st.entries ≡ false
    → get st s d mem ≡ hang
unfolding get evict reuse_entry
get-hang st s d mem full absent busy = elim (block_in_cache-cases st.entries s) [
  | inr (i, c, run, at, e, here) ↦ absurd (cc)
  | inl (run, _) ↦ ground (arith, run, clock-hang passes st.entries busy)
]
