-- ===== src/Cache/Valid.antt =====
-- The invariant of the buffer cache, and what a call of `filesys_cache_block_get` promises.
use os_labratory_spring.Prelude.{
  ℕ, zero, suc, ◌+◌, ◌≤◌, ◌<◌, ◌≡◌, ◌≢◌, ◌⊎◌, Bool, true, false, List, [], ◌∷◌, length, get_elem?,
  set, arith, none, some,
}
use os_labratory_spring.Device.{Block, Device}
use os_labratory_spring.Cache.{Entry, Cache, max_filesys_cache_size}
use os_labratory_spring.Cache.View.{slot, Distinct, view}
use os_labratory_spring.Cache.Clock.{idle}

-- The entries of the cache over a device.
pub record IsCoherent (cs : List Entry) (dev : Device) : Type 0 where
  pub distinct : Distinct cs
  pub in_range : (t : ℕ) (x : Block × Bool) → slot cs t ≡ some x → t < dev.size
  pub clean : (t : ℕ) (b : Block) → slot cs t ≡ some (b, false) → b ≡ dev.stored t

-- `filesys_cache_size` counts the entries, which are at most MAX_FILESYS_CACHE_SIZE.
pub record IsValid (st : Cache) : Type 0 where
  pub counted : length st.entries ≡ st.size
  pub bounded : st.size ≤ max_filesys_cache_size
  pub coherent : IsCoherent st.entries st.dev

-- There is room for one more sector: the cache is not full, or some entry is not open.
abbrev pub HasRoom : Cache → Type 0
HasRoom st = (st.size < max_filesys_cache_size) ⊎ (idle st.entries ≡ true)

-- The entry at `i` is an open one for sector `s`, with the block that a reader of `s` sees.
pub record Opened (st st' : Cache) (s i : ℕ) : Type 0 where
  pub entry : Entry
  pub at : get_elem? st'.entries i ≡ some entry
  pub sector : entry.sector ≡ s
  pub block : entry.block ≡ view st s
  pub pinned : 0 < entry.open_cnt
  pub accessed : entry.accessed ≡ true

-- What a successful call leaves.
pub record Served (st st' : Cache) (s i : ℕ) : Type 0 where
  pub valid : IsValid st'
  pub kept : (t : ℕ) → view st' t ≡ view st t
  pub device : st'.dev.size ≡ st.dev.size
  pub opened : Opened st st' s i
  pub absent : (t : ℕ) → t ≢ s → slot st.entries t ≡ none → slot st'.entries t ≡ none
  pub room :
      HasRoom st
      → (c : Entry) → c.open_cnt + 1 ≡ opened.entry.open_cnt
      → HasRoom (record st' { entries = set st'.entries i c })

-- An entry that is not open, among the others.
pub idle-set :
    (cs : List Entry) (i : ℕ) (c c' : Entry)
    → get_elem? cs i ≡ some c
    → c'.open_cnt ≡ 0
    → idle (set cs i c') ≡ true
idle-set [] i c c' h e = absurd (cc)
idle-set (x ∷ cs) zero c c' h e = ground arith
idle-set (x ∷ cs) (suc i) c c' h e = ground (arith, idle-set cs i c c' h e)

pub idle-set-set :
    (cs : List Entry) (i : ℕ) (c c' c'' : Entry)
    → get_elem? cs i ≡ some c
    → c''.open_cnt ≡ c.open_cnt
    → idle (set (set cs i c') i c'') ≡ idle cs
idle-set-set [] i c c' c'' h e = absurd (cc)
idle-set-set (x ∷ cs) zero c c' c'' h e = ground arith
idle-set-set (x ∷ cs) (suc i) c c' c'' h e = ground (arith, idle-set-set cs i c c' c'' h e)
