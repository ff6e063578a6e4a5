-- ===== src/Cache/Use.antt =====
-- The use of a cache entry between `filesys_cache_block_get` and `c->open_cnt--`.
use os_labratory_spring.Prelude.{ℕ, ◌+◌, ◌≡◌, ◌≢◌, ◌⊎◌, true, set, arith, none, length-set}
use os_labratory_spring.Device.{Block}
use os_labratory_spring.Cache.{Entry, Cache}
use os_labratory_spring.Cache.View.{slot, view, slot_of_get_elem?, slot-set_same, Distinct-set_same}
use os_labratory_spring.Cache.Valid.{IsValid, HasRoom, Served}

-- The entry for `s` is closed, and a reader of `s` sees `b` from then on.
pub record Closed (st st' : Cache) (s : ℕ) (b : Block) : Type 0 where
  pub valid : IsValid st'
  pub room : HasRoom st'
  pub device : st'.dev.size ≡ st.dev.size
  pub seen : view st' s ≡ b
  pub kept : (t : ℕ) → t ≢ s → view st' t ≡ view st t
  pub absent : (t : ℕ) → t ≢ s → slot st.entries t ≡ none → slot st'.entries t ≡ none

-- What the user of the entry may do to it: close it once, and change its bytes only if it is left
-- dirty.
pub record Closes (c c' : Entry) : Type 0 where
  pub sector : c'.sector ≡ c.sector
  pub count : c'.open_cnt + 1 ≡ c.open_cnt
  pub bytes : (c'.dirty ≡ true) ⊎ ((c'.dirty ≡ c.dirty) × (c'.block ≡ c.block))

pub Served-Closed :
    {st st' : Cache} {s i : ℕ} (c' : Entry)
    → HasRoom st
    → (v : Served st st' s i) → Closes v.opened.entry c'
    → Closed st (record st' { entries = set st'.entries i c' }) s c'.block
Served-Closed {st} {st'} {s} {i} c' r v h =
    let cs = st'.entries in
    let c = v.opened.entry in
    let d = v.valid.coherent.distinct in
    let here = slot_of_get_elem? cs i c d v.opened.at in
    let slots = λ (t : ℕ). slot-set_same cs i c c' t d v.opened.at h.sector in
    record {
      valid = record {
        counted = omega (arith, length-set cs i c', v.valid.counted);
        bounded = v.valid.bounded;
        coherent = record {
          distinct = Distinct-set_same cs i c c' d v.opened.at h.sector;
          in_range = λ t x e. ground (
            arith,
            slots t,
            here,
            v.valid.coherent.in_range t x,
            v.valid.coherent.in_range t (c.block, c.dirty),
          );
          clean = λ t b e. ground (arith, slots t, here, v.valid.coherent.clean t b, h.bytes);
        };
      };
      room = v.room r c' h.count;
      device = v.device;
      seen = ground (arith, slots s, v.opened.sector);
      kept = λ t ne. ground (arith, slots t, v.opened.sector, v.kept t);
      absent = λ t ne e. ground (arith, slots t, v.opened.sector, v.absent t ne e);
    }

-- What is not cached before or after is on the device, and stays there.
pub Closed-stored :
    {st st' : Cache} {s : ℕ} {b : Block} (t : ℕ)
    → Closed st st' s b
    → t ≢ s
    → slot st.entries t ≡ none
    → st'.dev.stored t ≡ st.dev.stored t
Closed-stored t h ne e = ground (arith, h.kept t ne, h.absent t ne e)
