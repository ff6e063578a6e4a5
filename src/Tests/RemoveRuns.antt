-- ===== src/Tests/RemoveRuns.antt =====
-- A run of the removal of the file "b", which is open, from a directory of two files.
use os_labratory_spring.Prelude.{
  zero, suc, ◌<◌, ◌≢◌, ℕ, ◌≡◌, refl, ap, get_or, sym, ◌∙◌, true, false, [], ◌∷◌, some, replicate,
  ok, arith,
}
use os_labratory_spring.Device.{Block}
use os_labratory_spring.Inode.{Inode}
use os_labratory_spring.Inode.Data.{copy_out}
use os_labratory_spring.Inode.Layout.{content}
use os_labratory_spring.Text.{Text, c_string, same_text, strcmp}
use os_labratory_spring.Fs.{Fs, deref, find_inode}
use os_labratory_spring.Fs.Pointers.{removed_of}
use os_labratory_spring.Dir.{Scan, dir_remove, lookup, in_use, entry_name, named, inode_sector}
use os_labratory_spring.Dir.Search.{slot_at}
use os_labratory_spring.Dir.Place.{Writable}
use os_labratory_spring.Dir.Names.{Unique}
use os_labratory_spring.Dir.Remove.{CanRemove, dir_remove-Removed}
use os_labratory_spring.Tests.{few_used, map_write, empty_file}
use os_labratory_spring.Tests.DirRuns.{
  dir_cache, dir_inode, sectors, letter_b, root, dir_inode-Readable,
}

abbrev file_b : Inode
file_b = record empty_file { sector = 6; open_cnt = 2 }

abbrev two_files : Fs
two_files = record {
  store = record { bits = few_used; open_file = true; disk = dir_cache };
  inodes = dir_inode ∷ file_b ∷ [];
}

abbrev names : Block
names = content dir_cache sectors

first_name : entry_name (slot_at names 0) ≡ 97 ∷ []
unfolding copy_out entry_name c_string
first_name = refl

second_name : entry_name (slot_at names 1) ≡ letter_b
unfolding copy_out entry_name c_string
second_name = refl

other_letter : (97 ∷ []) ≢ letter_b
other_letter e =
    let a : ℕ = 97 in
    let same_letter : a ≡ 98 = ap (λ (t : Text). get_or t 0 0) e in
    absurd (omega (arith, same_letter))

names-Unique : Unique 2 names
names-Unique zero zero il jl iu ju e = refl
names-Unique zero (suc zero) il jl iu ju e =
    absurd (other_letter (sym first_name ∙ e ∙ second_name))
names-Unique zero (suc (suc j)) il jl iu ju e = absurd (omega arith)
names-Unique (suc zero) zero il jl iu ju e =
    absurd (other_letter (sym first_name ∙ sym e ∙ second_name))
names-Unique (suc zero) (suc zero) il jl iu ju e = refl
names-Unique (suc zero) (suc (suc j)) il jl iu ju e = absurd (omega arith)
names-Unique (suc (suc i)) j il jl iu ju e = absurd (omega arith)

file_b-CanRemove : CanRemove two_files root dir_inode 2 sectors names letter_b 6 file_b
unfolding deref in_use copy_out entry_name c_string named same_text strcmp inode_sector
file_b-CanRemove = record {
  opened = refl;
  same = refl;
  writable = record {
    readable = dir_inode-Readable;
    whole = refl;
    allowed = refl;
    separate = λ p q l l' e. omega arith;
  };
  unique = names-Unique;
  at = 1;
  inside = omega arith;
  is_named = refl;
  refers = refl;
  child_open = refl;
  held = omega arith;
  is_file = refl;
  apart = omega arith;
}

dir_remove-Removed_example :
    (fs' : Fs) × (inode' : Inode) × (f' : Block) × (dir_remove map_write
        (λ _. 0)
        true
        two_files
        root
        letter_b
        (replicate 20 7)
      ≡ ok (true, fs'))
    × (deref fs' 1 ≡ ok inode')
    × Writable inode' 2 sectors f' fs'.store.disk
    × ((s : Scan) × (lookup true inode' letter_b (replicate 20 7) fs'.store.disk ≡ ok s)
        × (s.found ≡ false))
    × ((other : Text)
        → other ≢ letter_b
        → (j : ℕ) → j < 2
        → named other (slot_at f' j) ≡ named other (slot_at names j))
    × Unique 2 f'
    × (find_inode fs'.inodes 6 ≡ some (removed_of file_b))
dir_remove-Removed_example =
    dir_remove-Removed map_write (λ _. 0) two_files root letter_b 6 file_b (replicate 20 7)
      file_b-CanRemove refl
