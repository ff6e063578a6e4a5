-- ===== src/Dir/Add.antt =====
-- The part of `dir_add` that writes the slot.
use os_labratory_spring.Prelude.{
  ℕ, ◌*◌, ◌^◌, ◌<◌, ◌≡◌, ◌≢◌, refl, ap, sym, subst, ◌∙◌, inl, inr, Bool, true, false, not, List,
  length, ◌==◌, Result, ok, ◌>>=◌, arith, eq→==,
}
use os_labratory_spring.Bitmap.{Bitmap}
use os_labratory_spring.Device.{Block}
use os_labratory_spring.Cache.{Cache}
use os_labratory_spring.Cache.View.{view}
use os_labratory_spring.Inode.{Inode}
use os_labratory_spring.Inode.WriteAt.{Written, write_at}
use os_labratory_spring.Text.{Text}
use os_labratory_spring.Fs.{Fs, find_inode, put_inode, deref, fs_write, with_disk, or_fault}
use os_labratory_spring.Fs.Pointers.{or_fault-ok, find_inode-put_inode}
use os_labratory_spring.Dir.{
  Dir, Scan, in_use, find_slot, fill_entry, write_slot, entry_size, rounds,
}
use os_labratory_spring.Dir.Slots.{IsName, Holds, fill_entry-Holds}
use os_labratory_spring.Dir.Search.{Readable, Stops, slot_at, scan-Stops, length-copy_out}
use os_labratory_spring.Dir.Place.{Writable, write_at-Placed}

-- A pointer after a write through it.
pub deref-put_inode :
    (is : List Inode) (a : ℕ) (inode inode' : Inode)
    → or_fault (find_inode is a) ≡ ok inode
    → inode'.sector ≡ a
    → or_fault (find_inode (put_inode is a inode') a) ≡ ok inode'
deref-put_inode is a inode inode' h e =
    ap or_fault (find_inode-put_inode is a inode inode' (or_fault-ok (find_inode is a) inode h) e)

-- The loop that finds a free slot.
find_slot-Stops :
    {inode : Inode} {n : ℕ} {sec : ℕ → ℕ} {f : Block} (e0 : List ℕ) (st : Cache)
    → Readable inode n sec f st
    → length e0 ≡ entry_size
    → (s : Scan) × (find_slot true inode e0 st ≡ ok s)
      × Stops (λ e. not (in_use e)) n f 0 s
      × (length s.e ≡ entry_size)
      × Readable inode n sec f s.disk
      × ((t : ℕ) → view s.disk t ≡ view st t)
unfolding find_slot
find_slot-Stops {inode} e0 st r he =
    scan-Stops (λ e. not (in_use e)) (rounds inode) 0 e0 0 st r he (omega arith) (omega arith)
      (omega (arith, r.whole))

not_used : (b : Bool) → not b ≡ true → b ≡ false
not_used false h = refl
not_used true h = absurd cc

-- With a free slot, the loop stops at one.
find_slot-free :
    {inode : Inode} {n : ℕ} {sec : ℕ → ℕ} {f : Block} (e0 : List ℕ) (st : Cache) (free : ℕ)
    → Readable inode n sec f st
    → length e0 ≡ entry_size
    → free < n
    → in_use (slot_at f free) ≡ false
    → (s : Scan) × (find_slot true inode e0 st ≡ ok s)
      × ((k : ℕ) × (k < n)
          × (s.ofs ≡ entry_size * k)
          × (s.e ≡ slot_at f k)
          × (in_use (slot_at f k) ≡ false))
      × Readable inode n sec f s.disk
find_slot-free {n = n} {f = f} e0 st free r he lt unused =
    let (s, run, stops, size, r', kept) = find_slot-Stops e0 st r he in
    (
      s,
      run,
      elim stops.answer [
        | inl (found, inside, same_entry, accepted) ↦ (
          stops.at,
          inside,
          stops.ofs,
          same_entry,
          not_used (in_use (slot_at f stops.at)) accepted,
        )
        | inr (missed, end) ↦
            let refused = stops.least free (omega arith) (omega (arith, end)) in
            absurd (let taken : not (in_use (slot_at f free)) ≡ true = rw unused refl in cc)
      ],
      r',
    )

-- The slots after a name is entered: a slot that was free has it, and the others are as before.
pub record Entered (n : ℕ) (f f' : Block) (name : Text) (sector : ℕ) : Type 0 where
  pub at : ℕ
  pub inside : at < n
  pub free : in_use (slot_at f at) ≡ false
  pub holds : Holds (slot_at f' at) name sector
  pub others : (j : ℕ) → j < n → j ≢ at → slot_at f' j ≡ slot_at f j

pub Writable-after :
    {inode : Inode} {n : ℕ} {sec : ℕ → ℕ} {f : Block} {st st' : Cache}
    → Writable inode n sec f st
    → Readable inode n sec f st'
    → Writable inode n sec f st'
Writable-after w r = record {
  readable = r;
  whole = w.whole;
  allowed = w.allowed;
  separate = w.separate;
}

module _ (bitmap_write : Bitmap → Cache → Result (Bool × Cache)) (uninit : ℕ → ℕ) where
  pub fs_write-run :
      (fs : Fs) (a : ℕ) (inode : Inode) (buffer : List ℕ) (size ofs : ℕ) (w : Written)
      → deref fs a ≡ ok inode
      → write_at bitmap_write uninit true fs.store inode buffer size ofs ≡ ok w
      → fs_write bitmap_write uninit true fs a buffer size ofs
        ≡ ok (w.bytes_written, record { store = w.store; inodes = put_inode fs.inodes a w.inode })
  unfolding fs_write
  fs_write-run fs a inode buffer size ofs w at run = rw (at, run) refl

  -- What `write_slot` does once the slot is found.
  abbrev finish_slot : Fs → Dir → Text → ℕ → Scan → Result (Bool × Fs)
  finish_slot fs dir name sector s =
      fs_write bitmap_write uninit true (with_disk fs s.disk) dir.inode (fill_entry s.e name sector)
        entry_size s.ofs
      >>= λ x. ok (x.0 == entry_size, x.1)

  write_slot-run :
      (fs fs' : Fs) (dir : Dir) (inode : Inode) (s : Scan) (name : Text) (sector m : ℕ)
      (e0 : List ℕ)
      → deref fs dir.inode ≡ ok inode
      → find_slot true inode e0 fs.store.disk ≡ ok s
      → fs_write bitmap_write uninit true
          (with_disk fs s.disk)
          dir.inode
          (fill_entry s.e name sector)
          entry_size
          s.ofs
        ≡ ok (m, fs')
      → write_slot bitmap_write uninit true fs dir name sector e0 ≡ ok (m == entry_size, fs')
  unfolding write_slot
  write_slot-run fs fs' dir inode s name sector m e0 at found run =
      ap
        (λ (r : Result Inode).
          r >>= λ i. find_slot true i e0 fs.store.disk >>= finish_slot fs dir name sector)
        at
      ∙ ap (λ (r : Result Scan). r >>= finish_slot fs dir name sector) found
      ∙ ap (λ (r : Result (ℕ × Fs)). r >>= λ x. ok (x.0 == entry_size, x.1)) run

  -- With a free slot in a directory that can be written, the slot is written.
  pub write_slot-Entered :
      (fs : Fs) (dir : Dir) {inode : Inode} {n : ℕ} {sec : ℕ → ℕ} {f : Block} (name : Text)
      (sector : ℕ) (e0 : List ℕ) (free : ℕ)
      → deref fs dir.inode ≡ ok inode
      → inode.sector ≡ dir.inode
      → Writable inode n sec f fs.store.disk
      → IsName name
      → sector < 2 ^ 32
      → length e0 ≡ entry_size
      → free < n
      → in_use (slot_at f free) ≡ false
      → (fs' : Fs) × (inode' : Inode) × (f' : Block) × (write_slot bitmap_write uninit true fs dir
            name sector e0
          ≡ ok (true, fs'))
        × (deref fs' dir.inode ≡ ok inode')
        × Writable inode' n sec f' fs'.store.disk
        × Entered n f f' name sector
  unfolding deref
  write_slot-Entered fs dir {inode} {n} {sec} {f} name sector e0 free at same wr is_name lt he fl
        unused =
      let (s, found, (k, kl, ofs, same_entry, k_free), r) =
        find_slot-free e0 fs.store.disk free wr.readable he fl unused in
      let size : length s.e ≡ entry_size =
        ap (λ (e : List ℕ). length e) same_entry ∙ length-copy_out f (entry_size * k) entry_size in
      let filled = fill_entry-Holds s.e name sector size is_name lt in
      let (w, f', run, all, same', wr', placed) =
        write_at-Placed bitmap_write uninit ((with_disk fs s.disk).store) k
          (fill_entry s.e name sector) (Writable-after wr r) kl filled.size in
      let fs' : Fs = record { store = w.store; inodes = put_inode fs.inodes dir.inode w.inode } in
      let run' =
        subst
          (λ (o : ℕ).
            write_at bitmap_write uninit true ((with_disk fs s.disk).store) inode
              (fill_entry s.e name sector) entry_size o
            ≡ ok w)
          (sym ofs) run in
      let written =
        fs_write-run (with_disk fs s.disk) dir.inode inode (fill_entry s.e name sector) entry_size
          s.ofs w at run' in
      (
        fs',
        w.inode,
        f',
        write_slot-run fs fs' dir inode s name sector w.bytes_written e0 at found written
            ∙ ap (λ (b : Bool). ok (b, fs')) (eq→== w.bytes_written entry_size all),
        deref-put_inode fs.inodes dir.inode inode w.inode at (same' ∙ same),
        wr',
        record {
          at = k;
          inside = kl;
          free = k_free;
          holds = subst (λ (e : List ℕ). Holds e name sector) (sym placed.here) filled;
          others = placed.others;
        },
      )
