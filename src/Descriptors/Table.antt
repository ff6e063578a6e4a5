-- ===== src/Descriptors/Table.antt =====
-- The table of open files as a map from file descriptors.
use os_labratory_spring.Prelude.{
  ℕ, ◌+◌, ◌%◌, ◌^◌, ◌<◌, ◌≡◌, ◌≢◌, refl, inl, inr, true, false, Option, none, some, List, [], ◌∷◌,
  ◌++◌, ◌==◌, if◌then◌else◌, arith, Bool-cases, ℕ_discrete, eq→==, ne→false, All,
}
use os_labratory_spring.Filesys.{Handle}
use os_labratory_spring.Descriptors.{ProcessFile, Process, get_file, add_handle, error_word}

-- The file descriptors of a table are below `n`.
abbrev pub Below : ℕ → List ProcessFile → Type 0
Below n pfs = All (λ (pf : ProcessFile). pf.fd < n) pfs

-- No two files of a table have one descriptor.
abbrev pub Distinct : List ProcessFile → Type 0
Distinct [] = Unit
Distinct (pf ∷ pfs) = All (λ (q : ProcessFile). pf.fd ≢ q.fd) pfs × Distinct pfs

-- The table of a process: its descriptors are distinct and below the next one.
pub record IsTable (p : Process) : Type 0 where
  pub below : Below p.next_fd p.file_list
  pub distinct : Distinct p.file_list

-- The table as a map.
abbrev pub Handles : Type 0
Handles = ℕ → Option Handle

abbrev pub handle_of : Option ProcessFile → Option Handle
handle_of none = none
handle_of (some pf) = some pf.handle

abbrev pub handles : List ProcessFile → Handles
handles pfs fd = handle_of (get_file pfs fd)

-- A map with another value at one place.
abbrev pub update : Handles → ℕ → Option Handle → Handles
update h fd v x = if x == fd then v else h x

Below-suc : (n : ℕ) (pfs : List ProcessFile) → Below n pfs → Below (n + 1) pfs
Below-suc n [] h = tt
Below-suc n (pf ∷ pfs) (lt, h) = (omega arith, Below-suc n pfs h)

Below-append :
    (n : ℕ) (pfs : List ProcessFile) (h : Handle)
    → Below n pfs
    → Below (n + 1) (pfs ++ (record { fd = n; handle = h } ∷ []))
Below-append n [] h b = (omega arith, tt)
Below-append n (pf ∷ pfs) h (lt, b) = (omega arith, Below-append n pfs h b)

differs-append :
    (fd n : ℕ) (pfs : List ProcessFile) (h : Handle)
    → fd < n
    → All (λ (q : ProcessFile). fd ≢ q.fd) pfs
    → All (λ (q : ProcessFile). fd ≢ q.fd) (pfs ++ (record { fd = n; handle = h } ∷ []))
differs-append fd n [] h lt d = ((λ e. omega (arith, e)), tt)
differs-append fd n (pf ∷ pfs) h lt (ne, d) = (ne, differs-append fd n pfs h lt d)

Distinct-append :
    (n : ℕ) (pfs : List ProcessFile) (h : Handle)
    → Below n pfs
    → Distinct pfs
    → Distinct (pfs ++ (record { fd = n; handle = h } ∷ []))
Distinct-append n [] h b d = (tt, tt)
Distinct-append n (pf ∷ pfs) h (lt, b) (away, d) =
    (differs-append pf.fd n pfs h lt away, Distinct-append n pfs h b d)

pub handles-append :
    (n : ℕ) (pfs : List ProcessFile) (h : Handle) (x : ℕ)
    → Below n pfs
    → handles (pfs ++ (record { fd = n; handle = h } ∷ [])) x ≡ update (handles pfs) n (some h) x
handles-append n [] h x b = elim (Bool-cases (x == n)) [ inl e ↦ rw e refl | inr e ↦ rw e refl ]
handles-append n (pf ∷ pfs) h x (lt, b) = elim (Bool-cases (x == pf.fd)) [
  | inl e ↦ let away : (x == n) ≡ false = ne→false x n (λ q. ground (arith, e)) in rw (e, away) refl
  | inr e ↦ rw e (handles-append n pfs h x b)
]

-- What a process has after a file is added: a new descriptor, and the map with the file there.
pub record Added (p p' : Process) (h : Handle) : Type 0 where
  pub table : IsTable p'
  pub map : (x : ℕ) → handles p'.file_list x ≡ update (handles p.file_list) p.next_fd (some h) x

-- Where `malloc` finds room and the next descriptor after this one is still an `int`,
-- `process_add_dir` and `process_add_file` give the next descriptor, which is not the one that
-- reports an error, keep descriptors distinct, and change the map of open files at that descriptor
-- only.
pub add_handle-Added :
    (p : Process) (h : Handle)
    → IsTable p
    → p.next_fd + 1 < 2 ^ 31
    → ((add_handle true p h).0 ≡ p.next_fd)
      × (p.next_fd ≢ error_word)
      × Added p ((add_handle true p h).1) h
unfolding add_handle
add_handle-Added p h t small = (
  refl,
  λ e. absurd (omega (arith, e)),
  record {
    table = record {
      below =
          let kept : (p.next_fd + 1) % 2 ^ 32 ≡ p.next_fd + 1 = omega arith in
          rw kept (Below-append p.next_fd p.file_list h t.below);
      distinct = Distinct-append p.next_fd p.file_list h t.below t.distinct;
    };
    map = λ x. handles-append p.next_fd p.file_list h x t.below;
  },
)

-- A table without the first file of a descriptor.
abbrev pub erase_fd : List ProcessFile → ℕ → List ProcessFile
erase_fd [] fd = []
erase_fd (pf ∷ pfs) fd = if fd == pf.fd then pfs else pf ∷ erase_fd pfs fd

pub All-erase_fd :
    (P : ProcessFile → Type 0) (pfs : List ProcessFile) (fd : ℕ)
    → All P pfs
    → All P (erase_fd pfs fd)
All-erase_fd P [] fd h = tt
All-erase_fd P (pf ∷ pfs) fd (h, hs) = elim (Bool-cases (fd == pf.fd)) [
  | inl e ↦ rw e hs
  | inr e ↦ rw e (h, All-erase_fd P pfs fd hs)
]

pub Distinct-erase_fd :
    (pfs : List ProcessFile) (fd : ℕ) → Distinct pfs → Distinct (erase_fd pfs fd)
Distinct-erase_fd [] fd h = tt
Distinct-erase_fd (pf ∷ pfs) fd (away, d) = elim (Bool-cases (fd == pf.fd)) [
  | inl e ↦ rw e d
  | inr e ↦
      rw e
        (All-erase_fd (λ (q : ProcessFile). pf.fd ≢ q.fd) pfs fd away, Distinct-erase_fd pfs fd d)
]

handles-away :
    (pfs : List ProcessFile) (fd : ℕ)
    → All (λ (q : ProcessFile). fd ≢ q.fd) pfs
    → handles pfs fd ≡ none
handles-away [] fd h = refl
handles-away (pf ∷ pfs) fd (ne, h) = rw (ne→false fd pf.fd ne) (handles-away pfs fd h)

-- At the descriptor of the first file, the map has nothing once that file is gone.
handles-tail :
    (pf : ProcessFile) (pfs : List ProcessFile) (x : ℕ)
    → All (λ (q : ProcessFile). pf.fd ≢ q.fd) pfs
    → handles pfs x ≡ update (handles (pf ∷ pfs)) pf.fd none x
handles-tail pf pfs x away = elim (ℕ_discrete x pf.fd) [
  | yes e ↦ rw (eq→== x pf.fd e, e) (handles-away pfs pf.fd away)
  | no ne ↦ rw (ne→false x pf.fd ne) refl
]

pub handles-erase_fd :
    (pfs : List ProcessFile) (fd x : ℕ)
    → Distinct pfs
    → handles (erase_fd pfs fd) x ≡ update (handles pfs) fd none x
handles-erase_fd [] fd x d = elim (Bool-cases (x == fd)) [ inl e ↦ rw e refl | inr e ↦ rw e refl ]
handles-erase_fd (pf ∷ pfs) fd x (away, d) = elim (ℕ_discrete fd pf.fd) [
  | yes e ↦ rw (e, eq→== pf.fd pf.fd refl) (handles-tail pf pfs x away)
  | no ne ↦ rw (ne→false fd pf.fd ne) (elim (Bool-cases (x == pf.fd)) [
    | inl e ↦
        let apart : (x == fd) ≡ false = ne→false x fd (λ q. ne (ground (arith, e))) in
        rw (e, apart) refl
    | inr e ↦ rw e (handles-erase_fd pfs fd x d)
  ])
]
