-- ===== src/Tests/CacheRuns.antt =====
-- Runs of the buffer cache.
use os_labratory_spring.Prelude.{ℕ, ◌≡◌, ◌≢◌, refl, true, false, List, [], ok, arith, some, inl}
use os_labratory_spring.Device.{Block}
use os_labratory_spring.Cache.{
  Entry, Cache, get, write_to_disk, clock, passes, flush_entries, write_back,
}
use os_labratory_spring.Cache.View.{slot, view}
use os_labratory_spring.Cache.Valid.{IsValid, Served}
use os_labratory_spring.Cache.Clock.{clock-Chosen, Chosen}
use os_labratory_spring.Cache.Get.{get-Served}
use os_labratory_spring.Cache.Flush.{write_to_disk-view}
use os_labratory_spring.Tests.{one_entry, one_entry-IsValid, busy}

get-Served_example :
    (st' : Cache) × (i : ℕ) × (get one_entry 3 true true ≡ ok (i, st')) × Served one_entry st' 3 i
get-Served_example = get-Served one_entry 3 true one_entry-IsValid (omega arith) (inl (omega arith))

write_to_disk-view_example :
    (st' : Cache) × (write_to_disk one_entry false ≡ ok st')
    × IsValid st'
    × ((t : ℕ) → st'.dev.stored t ≡ view one_entry t)
    × ((t : ℕ) → view st' t ≡ view one_entry t)
    × ((t : ℕ) (b : Block) → slot st'.entries t ≢ some (b, true))
write_to_disk-view_example = write_to_disk-view one_entry one_entry-IsValid

abbrev halted : Cache
halted = record busy { entries = [] }

busy-halted : write_to_disk busy true ≡ ok halted
unfolding write_to_disk flush_entries write_back
busy-halted = refl

clock-Chosen_example :
    (cs' : List Entry) × (i : ℕ) × (c : Entry) × (clock passes one_entry.entries ≡ ok (cs', (i, c)))
    × Chosen one_entry.entries cs' i c
clock-Chosen_example = clock-Chosen one_entry.entries refl
