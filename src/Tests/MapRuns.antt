-- ===== src/Tests/MapRuns.antt =====
-- A run of the free map.
use os_labratory_spring.Prelude.{◌≡◌, refl, true, false, [], ◌∷◌, ok}
use os_labratory_spring.Bitmap.{Bitmap}
use os_labratory_spring.Cache.{Cache}
use os_labratory_spring.FreeMap
use os_labratory_spring.FreeMap.{Allocation}
use os_labratory_spring.Tests.{store, map_write, map_block}
use os_labratory_spring.Device.{written}

abbrev bits_after : Bitmap
bits_after =
    true ∷ true ∷ true ∷ true ∷ true ∷ false ∷ false ∷ false ∷ false ∷ false ∷ false ∷ false ∷ false
    ∷ false ∷ false ∷ false ∷ []

abbrev two_given : Allocation Cache
two_given = record {
  map = record store {
    bits = bits_after;
    disk = record (store.disk) { dev = written store.disk.dev 2 (map_block bits_after) };
  };
  sector = 3;
  success = true;
}

allocate_two : FreeMap.allocate map_write store 2 7 ≡ ok two_given
unfolding FreeMap.allocate
allocate_two = refl
