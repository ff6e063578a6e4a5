-- ===== src/Dir/Place.antt =====
-- A write of one slot of a directory.
use os_labratory_spring.Prelude.{
  dec_lt, ℕ, ◌+◌, ◌-◌, ◌*◌, ◌≤◌, ◌<◌, ◌≡◌, ◌≢◌, refl, ap, sym, subst, ◌∙◌, Bool, true, false, ◌&&◌,
  List, length, get_or, leb, ltb, if◌then◌else◌, Result, ok, arith,
}
use os_labratory_spring.Bitmap.{Bitmap}
use os_labratory_spring.Device.{Block}
use os_labratory_spring.Cache.{Cache}
use os_labratory_spring.Inode.{Inode}
use os_labratory_spring.Inode.Data.{copy_out}
use os_labratory_spring.Inode.Layout.{Layout, content}
use os_labratory_spring.Inode.Copy.{copy_out_eq}
use os_labratory_spring.Inode.Write.{Separate, Wrote}
use os_labratory_spring.Inode.Expand.{Store}
use os_labratory_spring.Inode.WriteAt.{
  Written, write_at, whole_write, write_at-loop, reread, Layout-reread, copy_out-list, written_byte,
}
use os_labratory_spring.Dir.{entry_size}
use os_labratory_spring.Dir.Search.{Readable, slot_at}

-- A directory of `n` slots that can be read and written.
pub record Writable (inode : Inode) (n : ℕ) (sec : ℕ → ℕ) (f : Block) (st : Cache) : Type 0 where
  pub readable : Readable inode n sec f st
  pub whole : inode.read_length ≡ inode.length
  pub allowed : inode.deny_write_cnt ≡ 0
  pub separate : Separate inode.length sec

-- The slots after slot `k` is written with `bytes`.
pub record Placed (n : ℕ) (f f' : Block) (k : ℕ) (bytes : List ℕ) : Type 0 where
  pub here : slot_at f' k ≡ bytes
  pub others : (j : ℕ) → j < n → j ≢ k → slot_at f' j ≡ slot_at f j

byte_before :
    (p offset a b : ℕ)
    → p < offset
    → (if leb offset p && ltb p (offset + entry_size) then b else a) ≡ a
byte_before p offset a b h = let e : leb offset p ≡ false = ground arith in rw e refl

byte_behind :
    (p offset a b : ℕ)
    → offset + entry_size ≤ p
    → (if leb offset p && ltb p (offset + entry_size) then b else a) ≡ a
byte_behind p offset a b h =
    let e : leb offset p ≡ true = ground arith in
    let e' : ltb p (offset + entry_size) ≡ false = ground arith in rw (e, e') refl

other_byte :
    (i j k a b : ℕ)
    → i < entry_size
    → j ≢ k
    → (if leb (entry_size * k) (entry_size * j + i)
          && ltb (entry_size * j + i) (entry_size * k + entry_size)
        then b
        else a)
      ≡ a
other_byte i j k a b il ne = elim (dec_lt j k) [
  | yes lt ↦ byte_before (entry_size * j + i) (entry_size * k) a b (omega arith)
  | no ge ↦ byte_behind (entry_size * j + i) (entry_size * k) a b (omega arith)
]

Wrote-Placed :
    {inode : Inode} {n : ℕ} {st st' : Cache} {sec : ℕ → ℕ} {k : ℕ} {bytes : List ℕ}
    → inode.length ≡ entry_size * n
    → k < n
    → length bytes ≡ entry_size
    → Wrote inode st st' sec bytes 0 (entry_size * k) entry_size
    → Placed n (content st sec) (content st' sec) k bytes
Wrote-Placed {inode} {n} {st} {st'} {sec} {k} {bytes} whole lt size w = record {
  here =
      ap (λ (m : ℕ). copy_out (content st' sec) (entry_size * k) m) (sym size)
      ∙ copy_out-list (content st' sec) (entry_size * k) bytes
          (λ i il. written_byte i (omega arith) w (omega arith));
  others = λ j jl ne.
      copy_out_eq (content st' sec) (content st sec) (entry_size * j) (entry_size * j) entry_size
        (λ i il.
          w.bytes (entry_size * j + i) (omega arith)
          ∙ other_byte i j k (content st sec (entry_size * j + i))
              (get_or bytes (0 + (entry_size * j + i - entry_size * k)) 0) il ne);
}

module _ (bitmap_write : Bitmap → Cache → Result (Bool × Cache)) (uninit : ℕ → ℕ) where
  -- A write of a slot within a directory.
  pub write_at-Placed :
      (store : Store) {inode : Inode} {n : ℕ} {sec : ℕ → ℕ} {f : Block} (k : ℕ) (bytes : List ℕ)
      → Writable inode n sec f store.disk
      → k < n
      → length bytes ≡ entry_size
      → (w : Written) × (f' : Block) × (write_at bitmap_write uninit true store inode bytes
            entry_size
            (entry_size * k)
          ≡ ok w)
        × (w.bytes_written ≡ entry_size)
        × (w.inode.sector ≡ inode.sector)
        × Writable w.inode n sec f' w.store.disk
        × Placed n f f' k bytes
  write_at-Placed store {inode} {n} {sec} {f} k bytes wr lt size =
      let r = wr.readable in
      let len : inode.length ≡ entry_size * n = sym wr.whole ∙ r.whole in
      let layout : Layout inode inode.length store.disk sec =
        subst (λ (l : ℕ). Layout inode l store.disk sec) wr.whole r.layout in
      let (st, run, wrote) =
        whole_write inode bytes entry_size (entry_size * k) store.disk sec (omega arith) wr.separate
          r.valid r.room layout in
      (
        record {
          bytes_written = entry_size;
          store = record store { disk = st };
          inode = reread inode;
        },
        content st sec,
        write_at-loop bitmap_write uninit store inode bytes entry_size (entry_size * k) entry_size
            st wr.allowed (omega arith) run,
        refl,
        refl,
        record {
          readable = record {
            valid = wrote.valid;
            room = wrote.room;
            layout = Layout-reread wrote.layout;
            whole = len;
            bytes = refl;
          };
          whole = refl;
          allowed = wr.allowed;
          separate = wr.separate;
        },
        subst (λ (g : Block). Placed n g (content st sec) k bytes) r.bytes
            (Wrote-Placed len lt size wrote),
      )
