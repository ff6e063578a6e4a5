-- ===== src/Fs/Pointers.antt =====
-- What pointers to open inodes lead to after a write through one of them.
use os_labratory_spring.Prelude.{
  ℕ, ◌+◌, ◌≡◌, ◌≢◌, refl, ap, sym, ◌∙◌, inl, inr, Bool, true, false, Option, none, some, [], ◌∷◌,
  ◌==◌, get_elem?, set, List, ◌-◌, ne→false, Result, ok, arith, eq→==, Bool-cases, ok-inj,
}
use os_labratory_spring.Bitmap.{Bitmap}
use os_labratory_spring.Cache.{Cache}
use os_labratory_spring.Inode.{Inode}
use os_labratory_spring.Inode.Open.{reopen, inode_open, inode_close}
use os_labratory_spring.Fs.{
  Fs, find_inode, place_of, put_inode, or_fault, deref, fs_open, fs_close, fs_remove,
}

pub or_fault-ok : (o : Option Inode) (inode : Inode) → or_fault o ≡ ok inode → o ≡ some inode
or_fault-ok none inode h = absurd cc
or_fault-ok (some i) inode h = ap some (ok-inj i inode h)

-- The inode that a search by its sector finds.
pub find_inode-sector :
    (is : List Inode) (a : ℕ) (inode : Inode) → find_inode is a ≡ some inode → inode.sector ≡ a
find_inode-sector [] a inode h = absurd cc
find_inode-sector (i ∷ is) a inode h = elim (Bool-cases (i.sector == a)) [
  | inl same ↦
      let first : find_inode (i ∷ is) a ≡ some i = rw same refl in
      let it : i ≡ inode = cc in ap (λ (k : Inode). k.sector) (sym it) ∙ ground (arith, same)
  | inr other ↦
      let later : find_inode (i ∷ is) a ≡ find_inode is a = rw other refl in
      find_inode-sector is a inode (sym later ∙ h)
]

pub find_inode-put_inode :
    (is : List Inode) (a : ℕ) (inode inode' : Inode)
    → find_inode is a ≡ some inode
    → inode'.sector ≡ a
    → find_inode (put_inode is a inode') a ≡ some inode'
find_inode-put_inode [] a inode inode' h e = absurd cc
find_inode-put_inode (i ∷ is) a inode inode' h e = elim (Bool-cases (i.sector == a)) [
  | inl same ↦ rw (same, eq→== inode'.sector a e) refl
  | inr other ↦
      let later : find_inode (i ∷ is) a ≡ find_inode is a = rw other refl in
      let rest = find_inode-put_inode is a inode inode' (sym later ∙ h) e in rw (other, other) rest
]

pub find_inode-put_inode_ne :
    (is : List Inode) (a b : ℕ) (inode' : Inode)
    → inode'.sector ≡ a
    → a ≢ b
    → find_inode (put_inode is a inode') b ≡ find_inode is b
find_inode-put_inode_ne [] a b inode' e ne = refl
find_inode-put_inode_ne (i ∷ is) a b inode' e ne = elim (Bool-cases (i.sector == a)) [
  | inl same ↦
      let other : (i.sector == b) ≡ false = ground (arith, same) in
      let other' : (inode'.sector == b) ≡ false = ground (arith, e) in rw (same, other, other') refl
  | inr away ↦ rw (away, find_inode-put_inode_ne is a b inode' e ne) refl
]

-- `inode_open` of an open inode counts one opener more.
pub reopen-put_inode :
    (is : List Inode) (a : ℕ) (inode : Inode)
    → find_inode is a ≡ some inode
    → reopen is a
      ≡ some (place_of is a, put_inode is a (record inode { open_cnt = inode.open_cnt + 1 }))
unfolding reopen
reopen-put_inode [] a inode h = absurd cc
reopen-put_inode (i ∷ is) a inode h = elim (Bool-cases (i.sector == a)) [
  | inl same ↦
      let first : find_inode (i ∷ is) a ≡ some i = rw same refl in
      let it : i ≡ inode = cc in
      rw same (ap (λ (k : Inode). some (0, record k { open_cnt = k.open_cnt + 1 } ∷ is)) it)
  | inr other ↦
      let later : find_inode (i ∷ is) a ≡ find_inode is a = rw other refl in
      rw (other, reopen-put_inode is a inode (sym later ∙ h)) refl
]

pub get_elem?-place_of : (is : List Inode) (a : ℕ) → get_elem? is (place_of is a) ≡ find_inode is a
get_elem?-place_of [] a = refl
get_elem?-place_of (i ∷ is) a = elim (Bool-cases (i.sector == a)) [
  | inl same ↦ rw same refl
  | inr other ↦ rw other (get_elem?-place_of is a)
]

pub set-place_of :
    (is : List Inode) (a : ℕ) (inode' : Inode)
    → set is (place_of is a) inode' ≡ put_inode is a inode'
set-place_of [] a inode' = refl
set-place_of (i ∷ is) a inode' = elim (Bool-cases (i.sector == a)) [
  | inl same ↦ rw same refl
  | inr other ↦ rw (other, set-place_of is a inode') refl
]

abbrev pub opened_more : Inode → Inode
opened_more child = record child { open_cnt = child.open_cnt + 1 }

abbrev pub removed_of : Inode → Inode
removed_of child = record child { removed = true }

pub fs_open-opened :
    (fs : Fs) (sector : ℕ) (child : Inode)
    → find_inode fs.inodes sector ≡ some child
    → fs_open true fs sector
      ≡ ok (some sector, record fs { inodes = put_inode fs.inodes sector (opened_more child) })
unfolding fs_open inode_open
fs_open-opened fs sector child h = rw (inode_open, reopen-put_inode fs.inodes sector child h) refl

pub fs_remove-removed :
    (fs : Fs) (sector : ℕ) (child : Inode)
    → deref fs sector ≡ ok child
    → fs_remove fs sector
      ≡ ok (record fs { inodes = put_inode fs.inodes sector (removed_of child) })
unfolding fs_remove
fs_remove-removed fs sector child h = rw h refl

module _ (bitmap_write : Bitmap → Cache → Result (Bool × Cache)) (uninit : ℕ → ℕ) where
  -- `inode_close` of an inode that is open more than once.
  pub fs_close-shared :
      (fs : Fs) (sector : ℕ) (child : Inode)
      → find_inode fs.inodes sector ≡ some child
      → child.open_cnt ≢ 1
      → fs_close bitmap_write uninit fs (some sector)
        ≡ ok (record fs {
          inodes = put_inode fs.inodes sector (record child { open_cnt = child.open_cnt - 1 });
        })
  unfolding fs_close inode_close
  fs_close-shared fs sector child h more =
      rw (inode_close, get_elem?-place_of fs.inodes sector, h, ne→false child.open_cnt 1 more)
        (ap (λ (is : List Inode). ok (record { store = fs.store; inodes = is }))
          (set-place_of fs.inodes sector (record child { open_cnt = child.open_cnt - 1 })))
