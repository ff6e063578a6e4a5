-- ===== src/Tests/DirRuns.antt =====
-- Runs on a directory of two files.
use os_labratory_spring.Prelude.{
  ◌≢◌, zero, suc, ◌<◌, ℕ, ◌+◌, ◌≡◌, refl, inl, true, List, [], ◌∷◌, replicate, get_or, ◌++◌, ok,
  arith,
}
use os_labratory_spring.Inode.Data.{copy_out}
use os_labratory_spring.Dir.Place.{Writable}
use os_labratory_spring.Dir.Names.{Absent, Unique, CanEnter, lookup-write_slot, write_slot-Unique}
use os_labratory_spring.Dir.{Dir, write_slot, inode_sector, in_use, entry_name, Scan, lookup, named}
use os_labratory_spring.Dir.Search.{slot_at, Readable}
use os_labratory_spring.Dir.Find.{Finds, lookup-Finds}
use os_labratory_spring.Fs.{Fs, deref}
use os_labratory_spring.Text.{c_string, same_text, strcmp, Text}
use os_labratory_spring.Tests.{few_used, map_write, empty_file}
use os_labratory_spring.Device.{Block}
use os_labratory_spring.Cache.{Cache}
use os_labratory_spring.Cache.View.{view}
use os_labratory_spring.Cache.Valid.{IsValid}
use os_labratory_spring.Inode.{Inode, byte_to_sector}
use os_labratory_spring.Inode.Layout.{IsMeta, single, outer, inner, content}
use os_labratory_spring.Dir.Slots.{IsName}

-- The slots of "a" in sector 5 and "b" in sector 6.
abbrev slot_bytes : ℕ → ℕ → List ℕ
slot_bytes sector c = sector ∷ 0 ∷ 0 ∷ 0 ∷ c ∷ 0 ∷ (replicate 13 0 ++ (1 ∷ []))

abbrev dir_block : Block
dir_block k = get_or (slot_bytes 5 97 ++ slot_bytes 6 98) k 0

abbrev pub dir_cache : Cache
dir_cache = record { entries = []; size = 0; dev = record { size = 16; stored = λ _. dir_block } }

abbrev pub dir_inode : Inode
dir_inode = record empty_file { length = 40; read_length = 40; direct_index = 1; isdir = true }

abbrev pub sectors : ℕ → ℕ
sectors k = k + 2

dir_cache-IsValid : IsValid dir_cache
dir_cache-IsValid = record {
  counted = refl;
  bounded = omega arith;
  coherent = record { distinct = tt; in_range = λ t x e. absurd cc; clean = λ t b e. absurd cc };
}

no_IsMeta : {m : ℕ} → ¬ IsMeta dir_inode 40 dir_cache.dev m
no_IsMeta (single k lt used e) = absurd (omega arith)
no_IsMeta (outer used e) = absurd (omega arith)
no_IsMeta (inner k used e) = absurd (omega arith)

pub dir_inode-Readable : Readable dir_inode 2 sectors (content dir_cache sectors) dir_cache
unfolding byte_to_sector
dir_inode-Readable = record {
  valid = dir_cache-IsValid;
  room = inl (omega arith);
  layout = record {
    finds = λ pos lt. ground arith;
    in_range = λ pos lt. omega arith;
    uncached = λ m x. absurd (no_IsMeta x);
    apart = λ m pos x lt. absurd (no_IsMeta x);
  };
  whole = refl;
  bytes = refl;
}

abbrev pub letter_b : Text
letter_b = 98 ∷ []

lookup-Finds_example :
    (s : Scan) × (lookup true dir_inode letter_b (replicate 20 7) dir_cache ≡ ok s)
    × Finds letter_b 2 (content dir_cache sectors) s
    × ((t : ℕ) → view s.disk t ≡ view dir_cache t)
lookup-Finds_example = lookup-Finds letter_b (replicate 20 7) dir_cache dir_inode-Readable refl

letter_b-IsName : IsName letter_b
letter_b-IsName = record {
  some_byte = omega arith;
  short = omega arith;
  no_null = (omega arith, tt);
}

-- The directory with its second slot free, in an open file system.
abbrev free_block : Block
free_block k = get_or (slot_bytes 5 97 ++ replicate 20 0) k 0

abbrev free_fs : Fs
free_fs = record {
  store = record {
    bits = few_used;
    open_file = true;
    disk = record { entries = []; size = 0; dev = record { size = 16; stored = λ _. free_block } };
  };
  inodes = dir_inode ∷ [];
}

abbrev pub root : Dir
root = record { inode = 1; pos = 0 }

abbrev free_content : Block
free_content = content free_fs.store.disk sectors

no_IsMeta_free : {m : ℕ} → ¬ IsMeta dir_inode 40 free_fs.store.disk.dev m
no_IsMeta_free (single k lt used e) = absurd (omega arith)
no_IsMeta_free (outer used e) = absurd (omega arith)
no_IsMeta_free (inner k used e) = absurd (omega arith)

free_fs-IsValid : IsValid free_fs.store.disk
free_fs-IsValid = record {
  counted = refl;
  bounded = omega arith;
  coherent = record { distinct = tt; in_range = λ t x e. absurd cc; clean = λ t b e. absurd cc };
}

free_fs-Writable : Writable dir_inode 2 sectors free_content free_fs.store.disk
unfolding byte_to_sector
free_fs-Writable = record {
  readable = record {
    valid = free_fs-IsValid;
    room = inl (omega arith);
    layout = record {
      finds = λ pos lt. ground arith;
      in_range = λ pos lt. omega arith;
      uncached = λ m x. absurd (no_IsMeta_free x);
      apart = λ m pos x lt. absurd (no_IsMeta_free x);
    };
    whole = refl;
    bytes = refl;
  };
  whole = refl;
  allowed = refl;
  separate = λ p q l l' e. omega arith;
}

letter_b-Absent : Absent letter_b 2 free_content
unfolding named in_use entry_name same_text strcmp copy_out c_string
letter_b-Absent zero lt = refl
letter_b-Absent (suc zero) lt = refl
letter_b-Absent (suc (suc j)) lt = absurd (omega arith)

letter_b-CanEnter : CanEnter free_fs root dir_inode 2 sectors free_content letter_b 70000
unfolding deref in_use copy_out
letter_b-CanEnter = record {
  opened = refl;
  same = refl;
  writable = free_fs-Writable;
  is_name = letter_b-IsName;
  word = omega arith;
  free = 1;
  inside = omega arith;
  unused = refl;
  absent = letter_b-Absent;
}

free_Unique : Unique 2 free_content
unfolding in_use copy_out
free_Unique zero zero il jl iu ju e = refl
free_Unique zero (suc zero) il jl iu ju e = absurd cc
free_Unique zero (suc (suc j)) il jl iu ju e = absurd (omega arith)
free_Unique (suc zero) j il jl iu ju e = absurd cc
free_Unique (suc (suc i)) j il jl iu ju e = absurd (omega arith)

lookup-write_slot_example :
    (fs' : Fs) × (inode' : Inode) × (f' : Block) × (write_slot map_write
        (λ _. 0)
        true
        free_fs
        root
        letter_b
        70000
        (replicate 20 7)
      ≡ ok (true, fs'))
    × (deref fs' 1 ≡ ok inode')
    × Writable inode' 2 sectors f' fs'.store.disk
    × ((s : Scan) × (lookup true inode' letter_b (replicate 20 7) fs'.store.disk ≡ ok s)
        × (s.found ≡ true)
        × (inode_sector s.e ≡ 70000))
    × ((other : Text)
        → other ≢ letter_b
        → (j : ℕ) → j < 2
        → named other (slot_at f' j) ≡ named other (slot_at free_content j))
lookup-write_slot_example =
    lookup-write_slot map_write (λ _. 0) free_fs root letter_b 70000 (replicate 20 7)
      letter_b-CanEnter refl

write_slot-Unique_example :
    (fs' : Fs) × (inode' : Inode) × (f' : Block) × (write_slot map_write
        (λ _. 0)
        true
        free_fs
        root
        letter_b
        70000
        (replicate 20 7)
      ≡ ok (true, fs'))
    × (deref fs' 1 ≡ ok inode')
    × Writable inode' 2 sectors f' fs'.store.disk
    × Unique 2 f'
write_slot-Unique_example =
    write_slot-Unique map_write (λ _. 0) free_fs root letter_b 70000 (replicate 20 7)
      letter_b-CanEnter refl free_Unique
