-- ===== src/Cache/Flush.antt =====
-- `filesys_cache_write_to_disk`: the device gets what readers see, and a cache that was halted is
-- not to be used again.
use os_labratory_spring.Prelude.{
  ℕ, suc, ◌<◌, ◌≡◌, ◌≢◌, refl, ap, ◌∙◌, inl, inr, Bool, true, false, List, [], ◌∷◌, length, ◌==◌,
  if◌then◌else◌, ok, hang, arith, none, some, Option, Bool-cases, ℕ_discrete, Option-cases,
}
use os_labratory_spring.Device.{Block, Device, written, block_write-lt}
use os_labratory_spring.Cache.{
  Entry, Cache, write_back, get, max_filesys_cache_size, read_ahead, flush_entries, write_to_disk,
}
use os_labratory_spring.Cache.View.{slot, Distinct, view, view_of, block_in_cache-cases}
use os_labratory_spring.Cache.Valid.{IsCoherent, IsValid, HasRoom, Served}
use os_labratory_spring.Cache.Evict.{evict-Served}
use os_labratory_spring.Cache.Get.{get-hang}

-- The block of a sector once it is flushed, where the device had `b`.
abbrev flushed : Option (Block × Bool) → Block → Block
flushed none b = b
flushed (some (x, true)) b = x
flushed (some (x, false)) b = b

-- A sector's slot once it is flushed.
abbrev cleaned : Option (Block × Bool) → Option (Block × Bool)
cleaned none = none
cleaned (some (x, d)) = some (x, false)

record Flushed (cs cs' : List Entry) (dev dev' : Device) : Type 0 where
  size : dev'.size ≡ dev.size
  stored : (t : ℕ) → dev'.stored t ≡ flushed (slot cs t) (dev.stored t)
  slots : (t : ℕ) → slot cs' t ≡ cleaned (slot cs t)
  distinct : Distinct cs'
  count : length cs' ≡ length cs

write_back-stored :
    (dev : Device) (c : Entry)
    → c.sector < dev.size
    → (dev' : Device) × (write_back dev c ≡ ok dev')
      × (dev'.size ≡ dev.size)
      × ((t : ℕ)
          → dev'.stored t ≡ (
              if c.sector == t
              then flushed (some (c.block, c.dirty)) (dev.stored t)
              else dev.stored t))
unfolding write_back
write_back-stored dev c lt = elim (Bool-cases c.dirty) [
  | inl e ↦ (
    written dev c.sector c.block,
    ground (arith, block_write-lt dev c.sector c.block lt),
    refl,
    λ t. ground arith,
  )
  | inr e ↦ (dev, ground arith, refl, λ t. ground arith)
]

flush-Flushed :
    (cs : List Entry) (dev : Device)
    → Distinct cs
    → ((t : ℕ) (x : Block × Bool) → slot cs t ≡ some x → t < dev.size)
    → (cs' : List Entry) × (dev' : Device) × (flush_entries dev cs false ≡ ok (cs', dev'))
      × (flush_entries dev cs true ≡ ok ([], dev'))
      × Flushed cs cs' dev dev'
unfolding flush_entries
flush-Flushed [] dev d r = (
  [],
  dev,
  refl,
  refl,
  record { size = refl; stored = λ t. refl; slots = λ t. refl; distinct = tt; count = refl },
)
flush-Flushed (c ∷ cs) dev d r =
    let lt : c.sector < dev.size = r c.sector (c.block, c.dirty) (ground arith) in
    let (dev1, run1, size1, stored1) = write_back-stored dev c lt in
    let later_lt : (t : ℕ) (x : Block × Bool) → slot cs t ≡ some x → t < dev1.size = λ t x e.
      rw size1 (elim (ℕ_discrete c.sector t) [
        | yes same_sector ↦ rw (← same_sector) lt
        | no other ↦ r t x (ground arith)
      ]) in
    let (cs', dev', run, halted, f) = flush-Flushed cs dev1 d.1 later_lt in
    (
      record c { dirty = false } ∷ cs',
      dev',
      ground (arith, run1, run),
      ground (arith, run1, halted),
      record {
        size = f.size ∙ size1;
        stored = λ t. ground (arith, f.stored t, stored1 t, d.0);
        slots = λ t. ground (arith, f.slots t);
        distinct = (ground (arith, f.slots c.sector, d.0), f.distinct);
        count = ap suc f.count;
      },
    )

flushed-held :
    {cs : List Entry} {dev : Device} (t : ℕ)
    → IsCoherent cs dev
    → flushed (slot cs t) (dev.stored t) ≡ view_of cs dev t
flushed-held {cs} {dev} t v = elim (Option-cases (slot cs t)) [
  | inl e ↦ ground arith
  | inr ((b, d), e) ↦ ground (arith, v.clean t b)
]

-- A flush of a valid cache does not panic, and afterwards the device holds of every sector what a
-- reader saw.  One that does not halt keeps the cache valid, with no dirty entry and the same view
-- of every sector.
pub write_to_disk-view :
    (st : Cache)
    → IsValid st
    → (st' : Cache) × (write_to_disk st false ≡ ok st')
      × IsValid st'
      × ((t : ℕ) → st'.dev.stored t ≡ view st t)
      × ((t : ℕ) → view st' t ≡ view st t)
      × ((t : ℕ) (b : Block) → slot st'.entries t ≢ some (b, true))
unfolding write_to_disk
write_to_disk-view st v =
    let (cs', dev', run, _, f) =
      flush-Flushed st.entries st.dev v.coherent.distinct v.coherent.in_range in
    (
      record st { entries = cs'; dev = dev' },
      ground (arith, run),
      record {
        counted = f.count ∙ v.counted;
        bounded = v.bounded;
        coherent = record {
          distinct = f.distinct;
          in_range = λ t x e. elim (Option-cases (slot st.entries t)) [
            | inl no_slot ↦ absurd (ground (arith, f.slots t))
            | inr (y, has) ↦ rw f.size (v.coherent.in_range t y has)
          ];
          clean = λ t b e. ground (arith, f.slots t, f.stored t, flushed-held t v.coherent);
        };
      },
      λ t. f.stored t ∙ flushed-held t v.coherent,
      λ t. ground (arith, f.slots t, f.stored t, flushed-held t v.coherent),
      λ t b e. ground (arith, f.slots t),
    )

-- The halting flush of a valid cache does not panic: it leaves the device with what readers saw,
-- and no entry.
pub write_to_disk-halt :
    (st : Cache)
    → IsValid st
    → (st' : Cache) × (write_to_disk st true ≡ ok st')
      × (st'.entries ≡ [])
      × ((t : ℕ) → st'.dev.stored t ≡ view st t)
unfolding write_to_disk
write_to_disk-halt st v =
    let (cs', dev', _, run, f) =
      flush-Flushed st.entries st.dev v.coherent.distinct v.coherent.in_range in
    (
      record st { entries = []; dev = dev' },
      ground (arith, run),
      refl,
      λ t. f.stored t ∙ flushed-held t v.coherent,
    )

-- After a halting flush of a valid cache with MAX_FILESYS_CACHE_SIZE entries, the clock of every
-- `filesys_cache_block_get` finds no entry in two passes.
pub get-halt :
    {st st' : Cache} (s : ℕ) (d mem : Bool)
    → IsValid st
    → st.size ≡ max_filesys_cache_size
    → write_to_disk st true ≡ ok st'
    → get st' s d mem ≡ hang
unfolding write_to_disk
get-halt {st} {st'} s d mem v full h =
    let (cs', dev', _, run, f) =
      flush-Flushed st.entries st.dev v.coherent.distinct v.coherent.in_range in
    let e : st' ≡ record st { entries = []; dev = dev' } = ground (arith, run) in
    rw e (get-hang (record st { entries = []; dev = dev' }) s d mem (omega arith) refl refl)

-- Reading ahead a sector of the device that is not cached, on a valid cache with room and memory,
-- leaves a valid cache with an open entry for it; no sector looks different.
pub read_ahead-Served :
    (st : Cache) (s : ℕ)
    → IsValid st
    → slot st.entries s ≡ none
    → s < st.dev.size
    → HasRoom st
    → (st' : Cache) × (i : ℕ) × (read_ahead st s true ≡ ok st') × Served st st' s i
unfolding read_ahead
read_ahead-Served st s v absent lt room = elim (block_in_cache-cases st.entries s) [
  | inr (i, c, run, at, e, here) ↦ absurd (cc)
  | inl (run, _) ↦
      let (st', i, run', served) = evict-Served st s false v absent lt room in
      (st', i, ground (arith, run, run'), served)
]
