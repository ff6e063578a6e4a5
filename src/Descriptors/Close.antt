-- ===== src/Descriptors/Close.antt =====
-- `process_close_file` on the table of open files.
use os_labratory_spring.Prelude.{
  ℕ, ◌<◌, ◌≡◌, ◌≢◌, refl, ap, sym, ◌∙◌, inl, inr, Bool, none, some, List, [], ◌∷◌, ◌==◌, Result, ok,
  ◌>>=◌, bind-ext, bind_assoc, Bool-cases, ne→false,
}
use os_labratory_spring.Bitmap.{Bitmap}
use os_labratory_spring.Cache.{Cache}
use os_labratory_spring.Fs.{Fs}
use os_labratory_spring.Descriptors.{
  ProcessFile, Process, get_file, process_get_file, close_all, close_handle, close_files,
  process_close_file,
}
use os_labratory_spring.Descriptors.Table.{
  IsTable, handles, update, erase_fd, All-erase_fd, Distinct-erase_fd, handles-erase_fd,
}

-- What a process has after the file of a descriptor is closed.
pub record Closed (p p' : Process) (fd : ℕ) : Type 0 where
  pub table : IsTable p'
  pub map : (x : ℕ) → handles p'.file_list x ≡ update (handles p.file_list) fd none x

module _ (bitmap_write : Bitmap → Cache → Result (Bool × Cache)) (uninit : ℕ → ℕ) where
  close_files-erase_fd :
      (fs fs' : Fs) (fd : ℕ) (pfs : List ProcessFile) (pf : ProcessFile)
      → fd ≢ close_all
      → get_file pfs fd ≡ some pf
      → close_handle bitmap_write uninit fs pf.handle ≡ ok fs'
      → close_files bitmap_write uninit fs fd pfs ≡ ok (fs', erase_fd pfs fd)
  unfolding close_files
  close_files-erase_fd fs fs' fd [] pf ne found run = absurd cc
  close_files-erase_fd fs fs' fd (q ∷ qs) pf ne found run = elim (Bool-cases (fd == q.fd)) [
    | inl e ↦
        let first : get_file (q ∷ qs) fd ≡ some q = rw e refl in
        let same_file : q ≡ pf = cc in
        let run' : close_handle bitmap_write uninit fs q.handle ≡ ok fs' =
          ap (λ (r : ProcessFile). close_handle bitmap_write uninit fs r.handle) same_file ∙ run in
        rw (e, run', ne→false fd close_all ne) refl
    | inr e ↦
        let later : get_file (q ∷ qs) fd ≡ get_file qs fd = rw e refl in
        let rest = close_files-erase_fd fs fs' fd qs pf ne (sym later ∙ found) run in
        rw (e, ne→false fd close_all ne, rest) refl
  ]

  -- All files of a list are closed, one after another.
  abbrev pub close_each : Fs → List ProcessFile → Result Fs
  close_each fs [] = ok fs
  close_each fs (pf ∷ pfs) = do
    fs' ← close_handle bitmap_write uninit fs pf.handle
    close_each fs' pfs

  close_files-close_each :
      (fs : Fs) (pfs : List ProcessFile)
      → close_files bitmap_write uninit fs close_all pfs
        ≡ (do fs' ← close_each fs pfs; ok (fs', []))
  unfolding close_files
  close_files-close_each fs [] = refl
  close_files-close_each fs (pf ∷ pfs) =
      let step : close_files bitmap_write uninit fs close_all (pf ∷ pfs) ≡ (
          close_handle bitmap_write uninit fs pf.handle >>= λ fs'.
          close_files bitmap_write uninit fs' close_all pfs) =
        elim (Bool-cases (close_all == pf.fd)) [ inl e ↦ rw e refl | inr e ↦ rw e refl ] in
      step
      ∙ bind-ext (close_handle bitmap_write uninit fs pf.handle)
          (λ fs'. close_files bitmap_write uninit fs' close_all pfs)
          (λ fs'. close_each fs' pfs >>= λ fs''. ok (fs'', []))
          (λ fs'. close_files-close_each fs' pfs)
      ∙ sym (
          bind_assoc (close_handle bitmap_write uninit fs pf.handle) (λ fs'. close_each fs' pfs)
            (λ fs'. ok (fs', [])))

  -- Where the file of the descriptor can be closed, `process_close_file` closes it, keeps
  -- descriptors distinct, and changes the map of open files at that descriptor only.
  pub process_close_file-Closed :
      (p : Process) (fd : ℕ) (pf : ProcessFile) (fs' : Fs)
      → IsTable p
      → fd ≢ close_all
      → process_get_file p fd ≡ some pf
      → close_handle bitmap_write uninit p.fs pf.handle ≡ ok fs'
      → (p' : Process) × (process_close_file bitmap_write uninit p fd ≡ ok p')
        × (p'.fs ≡ fs')
        × Closed p p' fd
  unfolding process_close_file process_get_file
  process_close_file-Closed p fd pf fs' t ne found run = (
    record p { fs = fs'; file_list = erase_fd p.file_list fd },
    rw (close_files-erase_fd p.fs fs' fd p.file_list pf ne found run) refl,
    refl,
    record {
      table = record {
        below = All-erase_fd (λ (q : ProcessFile). q.fd < p.next_fd) p.file_list fd t.below;
        distinct = Distinct-erase_fd p.file_list fd t.distinct;
      };
      map = λ x. handles-erase_fd p.file_list fd x t.distinct;
    },
  )

  -- `process_close_file` of CLOSE_ALL, which is also what `close (-1)` calls, closes every file of
  -- the process.
  pub process_close_file-close_each :
      (p : Process)
      → process_close_file bitmap_write uninit p close_all
        ≡ (do fs' ← close_each p.fs p.file_list; ok (record p { fs = fs'; file_list = [] }))
  unfolding process_close_file
  process_close_file-close_each p =
      ap
        (λ (r : Result (Fs × List ProcessFile)).
          r >>= λ x. ok (record p { fs = x.0; file_list = x.1 }))
        (close_files-close_each p.fs p.file_list)
      ∙ bind_assoc (close_each p.fs p.file_list) (λ fs'. ok (fs', []))
          (λ (x : Fs × List ProcessFile). ok (record p { fs = x.0; file_list = x.1 }))
