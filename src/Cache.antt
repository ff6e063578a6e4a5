-- ===== src/Cache.antt =====
-- filesys/cache.c: the buffer cache.  Every function runs under `filesys_cache_lock`, so each is
-- one step; a pointer to a `struct cache_entry` is its position in `filesys_cache`, which no
-- function but the halting flush changes.
pub mod View
pub mod Clock
pub mod Valid
pub mod Evict
pub mod Get
pub mod Flush
pub mod Use
use os_labratory_spring.Prelude.{
  ℕ, zero, suc, ◌+◌, ◌≡◌, Bool, true, false, ◌||◌, Option, none, some, List, [], ◌∷◌, ◌++◌, length,
  set, ltb, ◌==◌, if◌then◌else◌, Result, ok, panic, hang, ◌>>=◌, ◌>>◌, assert,
}
use os_labratory_spring.Device.{Block, Device, block_read, block_write}

abbrev pub max_filesys_cache_size : ℕ
max_filesys_cache_size = 64

-- `struct cache_entry`
pub record Entry : Type 0 where
  pub block : Block
  pub sector : ℕ
  pub dirty : Bool
  pub accessed : Bool
  pub open_cnt : ℕ

-- `filesys_cache`, `filesys_cache_size`, and the device behind.
pub record Cache : Type 0 where
  pub entries : List Entry
  pub size : ℕ
  pub dev : Device

-- `filesys_cache_init`, but for the lock and the write-back thread.
unfoldable pub init : Device → Cache
init dev = record { entries = []; size = 0; dev = dev }

-- A position past the first entry.
abbrev pub later : Option ℕ → Option ℕ
later none = none
later (some i) = some (suc i)

unfoldable pub block_in_cache : List Entry → ℕ → Option ℕ
block_in_cache [] sector = none
block_in_cache (c ∷ cs) sector =
    if c.sector == sector then some 0 else later (block_in_cache cs sector)

-- Assignments through the pointer to the entry at a position.
unfoldable pub modify : (Entry → Entry) → ℕ → List Entry → List Entry
modify f i [] = []
modify f zero (c ∷ cs) = f c ∷ cs
modify f (suc i) (c ∷ cs) = c ∷ modify f i cs

-- A victim past the first entry.
abbrev pub later_victim : Option (ℕ × Entry) → Option (ℕ × Entry)
later_victim none = none
later_victim (some (i, c)) = some (suc i, c)

-- The `for` loop of `filesys_cache_block_evict`: entries that are open are skipped, and those
-- accessed since the last pass get another chance, up to the entry that is chosen.
unfoldable pub pass : List Entry → List Entry × Option (ℕ × Entry)
pass [] = ([], none)
pass (c ∷ cs) =
    let rest = pass cs in
    if ltb 0 c.open_cnt
    then (c ∷ rest.0, later_victim rest.1)
    else if c.accessed
    then (record c { accessed = false } ∷ rest.0, later_victim rest.1)
    else (c ∷ cs, some (0, c))

-- The `while (loop)` around it, with the passes that it may make.
unfoldable pub clock : ℕ → List Entry → Result (List Entry × (ℕ × Entry))
clock zero cs = hang
clock (suc fuel) cs =
    let (cs', victim) = pass cs in elim victim [ some v ↦ ok (cs', v) | none ↦ clock fuel cs' ]

-- Two passes are enough wherever the loop ends.
abbrev pub passes : ℕ
passes = 2

-- `if (c->dirty) block_write (fs_device, c->sector, &c->block);`
unfoldable pub write_back : Device → Entry → Result Device
unfolding block_write
write_back dev c = if c.dirty then block_write dev c.sector c.block else ok dev

-- The assignments at the end of `filesys_cache_block_evict`.
abbrev pub loaded : ℕ → ℕ → Bool → Block → Entry
loaded open_cnt sector dirty b = record {
  block = b;
  sector = sector;
  dirty = dirty;
  accessed = true;
  open_cnt = open_cnt + 1;
}

unfoldable pub add_entry : Cache → ℕ → Bool → Result (Option ℕ × Cache)
unfolding block_read
add_entry st sector dirty = do
  b ← block_read st.dev sector
  ok (
    some (length st.entries),
    record st { entries = st.entries ++ (loaded 0 sector dirty b ∷ []); size = st.size + 1 },
  )

unfoldable pub reuse_entry : Cache → ℕ → Bool → Result (Option ℕ × Cache)
unfolding block_read write_back clock pass
reuse_entry st sector dirty = do
  (cs, (i, c)) ← clock passes st.entries
  dev ← write_back st.dev c
  b ← block_read dev sector
  ok (some i, record st { entries = set cs i (loaded c.open_cnt sector dirty b); dev = dev })

-- `filesys_cache_block_evict`; `mem` tells whether `malloc` finds room, and `none` is the null
-- pointer that is returned where it does not.
unfoldable pub evict : Cache → ℕ → Bool → Bool → Result (Option ℕ × Cache)
unfolding add_entry reuse_entry
evict st sector dirty mem =
    if ltb st.size max_filesys_cache_size
    then if mem then add_entry st sector dirty else ok (none, record st { size = st.size + 1 })
    else reuse_entry st sector dirty

abbrev pub touch : Bool → Entry → Entry
touch dirty c = record c { open_cnt = c.open_cnt + 1; dirty = c.dirty || dirty; accessed = true }

-- `if (!c) PANIC (...)`
abbrev pub or_panic : Option ℕ × Cache → Result (ℕ × Cache)
or_panic (none, st) = panic
or_panic (some i, st) = ok (i, st)

-- `filesys_cache_block_get`
unfoldable pub get : Cache → ℕ → Bool → Bool → Result (ℕ × Cache)
unfolding block_in_cache modify evict
get st sector dirty mem = elim (block_in_cache st.entries sector) [
  | some i ↦ ok (i, record st { entries = modify (touch dirty) i st.entries })
  | none ↦ do r ← evict st sector dirty mem; or_panic r
]

-- The loop of `filesys_cache_write_to_disk`.
unfoldable pub flush_entries : Device → List Entry → Bool → Result (List Entry × Device)
unfolding write_back
flush_entries dev [] halt = ok ([], dev)
flush_entries dev (c ∷ cs) halt = do
  dev' ← write_back dev c
  (cs', dev'') ← flush_entries dev' cs halt
  ok (if halt then cs' else record c { dirty = false } ∷ cs', dev'')

-- `filesys_cache_write_to_disk`: a halting flush frees the entries, and leaves
-- `filesys_cache_size` as it was.
unfoldable pub write_to_disk : Cache → Bool → Result Cache
unfolding flush_entries
write_to_disk st halt = do
  (cs, dev) ← flush_entries st.dev st.entries halt
  ok (record st { entries = cs; dev = dev })

-- `thread_func_read_ahead`: what `filesys_cache_block_evict` returns is dropped.
unfoldable pub read_ahead : Cache → ℕ → Bool → Result Cache
unfolding block_in_cache evict
read_ahead st sector mem = elim (block_in_cache st.entries sector) [
  | some i ↦ ok st
  | none ↦ do r ← evict st sector false mem; ok r.1
]
