-- ===== src/Dir/Find.antt =====
-- What `lookup` of filesys/directory.c finds, told by the bytes of the slots.
use os_labratory_spring.Prelude.{
  ℕ, ◌*◌, ◌<◌, ◌≡◌, ◌≢◌, refl, ◌⊎◌, inl, inr, true, false, List, length, get_or, drop, ok, arith,
  ne→false,
}
use os_labratory_spring.Device.{Block}
use os_labratory_spring.Cache.{Cache}
use os_labratory_spring.Cache.View.{view}
use os_labratory_spring.Inode.{Inode}
use os_labratory_spring.Text.{Text, c_string}
use os_labratory_spring.Dir.{Scan, in_use, entry_name, named, lookup, entry_size}
use os_labratory_spring.Dir.Search.{Readable, slot_at, lookup-Stops}
use os_labratory_spring.Dir.Names.{named-used}
use os_labratory_spring.Dir.Erase.{named-cases}

-- The last byte of a slot, `in_use`, is not zero, and the string behind the sector is the name.
pub record Carries (name : Text) (e : List ℕ) : Type 0 where
  pub used : get_or e 19 0 ≢ 0
  pub called : c_string (drop 4 e) ≡ name

-- The first of `n` slots that carries the name, or none of them does.
pub record Finds (name : Text) (n : ℕ) (f : Block) (s : Scan) : Type 0 where
  pub at : ℕ
  pub least : (j : ℕ) → j < at → ¬ Carries name (slot_at f j)
  pub answer :
      ((s.found ≡ true)
        × (at < n)
        × (s.ofs ≡ entry_size * at)
        × (s.e ≡ slot_at f at)
        × Carries name (slot_at f at))
      ⊎ ((s.found ≡ false) × (at ≡ n))

named-Carries : (name : Text) (e : List ℕ) → named name e ≡ true → Carries name e
unfolding in_use entry_name
named-Carries name e h =
    let (used, called) = named-cases name e h in
    record { used = λ z. absurd (ground (arith, used, z)); called = called }

Carries-named : (name : Text) (e : List ℕ) → Carries name e → named name e ≡ true
unfolding in_use entry_name
Carries-named name e c =
    let used : in_use e ≡ true = rw (ne→false (get_or e 19 0) 0 c.used) refl in
    named-used e name used c.called

-- A readable directory of `n` slots, with a cache that has room and where `malloc` finds room:
-- `lookup` neither panics nor loops for ever.  It finds the first slot whose `in_use` byte is not
-- zero and whose name is the one asked for, with its offset and its bytes, or tells that there is
-- none, and no sector looks different.
pub lookup-Finds :
    {inode : Inode} {n : ℕ} {sec : ℕ → ℕ} {f : Block} (name : Text) (e0 : List ℕ) (st : Cache)
    → Readable inode n sec f st
    → length e0 ≡ entry_size
    → (s : Scan) × (lookup true inode name e0 st ≡ ok s)
      × Finds name n f s
      × ((t : ℕ) → view s.disk t ≡ view st t)
lookup-Finds {f = f} name e0 st r he =
    let (s, run, h, size, r', kept) = lookup-Stops name e0 st r he in
    (
      s,
      run,
      record {
        at = h.at;
        least = λ j lt c.
            let accepted = Carries-named name (slot_at f j) c in
            let refused = h.least j (omega arith) lt in absurd cc;
        answer = elim h.answer [
          | inl (found, inside, same_entry, accepted) ↦
              inl (found, inside, h.ofs, same_entry, named-Carries name (slot_at f h.at) accepted)
          | inr missed ↦ inr missed
        ];
      },
      kept,
    )
