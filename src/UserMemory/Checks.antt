-- ===== src/UserMemory/Checks.antt =====
-- What the checks on user pointers let pass.
use os_labratory_spring.Prelude.{
  ℕ, zero, suc, ◌+◌, ◌%◌, ◌^◌, ◌≤◌, ◌<◌, ◌≡◌, ◌≢◌, refl, ap, sym, ◌∙◌, ◌⊎◌, inl, inr, Bool, true,
  false, ◌&&◌, Option, none, some, ok, arith, Bool-cases, Option-cases, ℕ_discrete, eq→==, ne→false,
}
use os_labratory_spring.UserMemory.{
  user_vaddr_bottom, phys_base, is_user_vaddr, check_valid_ptr, user_to_kernel_ptr,
  check_valid_buffer, check_valid_string,
}

check_valid_ptr-true :
    (v : ℕ) → check_valid_ptr v ≡ true → (user_vaddr_bottom ≤ v) × (v < phys_base)
unfolding check_valid_ptr is_user_vaddr
check_valid_ptr-true v h = ground arith

check_valid_ptr-user : (v : ℕ) → user_vaddr_bottom ≤ v → v < phys_base → check_valid_ptr v ≡ true
unfolding check_valid_ptr is_user_vaddr
check_valid_ptr-user v a b = ground arith

no_wrap : (v : ℕ) → v < phys_base → (v + 1) % 2 ^ 32 ≡ v + 1
no_wrap v h = omega arith

and_split : (a b : Bool) → (a && b) ≡ true → (a ≡ true) × (b ≡ true)
and_split true b h = (refl, h)
and_split false b h = absurd cc

buffer-inside :
    (buffer size : ℕ)
    → check_valid_buffer buffer (suc size) ≡ true
    → (user_vaddr_bottom ≤ buffer) × (buffer + suc size ≤ phys_base)
unfolding check_valid_buffer
buffer-inside buffer zero h =
    let (first, rest) = and_split (check_valid_ptr buffer) true h in
    omega (arith, check_valid_ptr-true buffer first)
buffer-inside buffer (suc size) h =
    let (first, rest) =
      and_split (check_valid_ptr buffer) (check_valid_buffer ((buffer + 1) % 2 ^ 32) (suc size))
        h in
    let (low, high) = check_valid_ptr-true buffer first in
    let next =
      buffer-inside (buffer + 1) size
        (ap (λ (v : ℕ). check_valid_buffer v (suc size)) (sym (no_wrap buffer high)) ∙ rest) in
    omega (arith, low, next)

inside-buffer :
    (size buffer : ℕ)
    → user_vaddr_bottom ≤ buffer
    → buffer + size ≤ phys_base
    → check_valid_buffer buffer size ≡ true
unfolding check_valid_buffer
inside-buffer zero buffer a b = refl
inside-buffer (suc size) buffer a b =
    rw (check_valid_ptr-user buffer a (omega arith), no_wrap buffer (omega arith))
      (inside-buffer size (buffer + 1) (omega arith) (omega arith))

-- A buffer that is not empty passes `check_valid_buffer` just if all of it lies from
-- USER_VADDR_BOTTOM to PHYS_BASE.
pub check_valid_buffer-inside :
    (buffer size : ℕ)
    → 0 < size
    → (check_valid_buffer buffer size ≡ true
        → (user_vaddr_bottom ≤ buffer) × (buffer + size ≤ phys_base))
      × (user_vaddr_bottom ≤ buffer
          → buffer + size ≤ phys_base
          → check_valid_buffer buffer size ≡ true)
check_valid_buffer-inside buffer zero h = absurd (omega arith)
check_valid_buffer-inside buffer (suc size) h =
    (λ e. buffer-inside buffer size e, λ a b. inside-buffer (suc size) buffer a b)

-- Where `check_valid_string` ends: at a null byte, or at an address that is not mapped for the
-- user, behind mapped bytes that are not null.
pub record Ends (page : ℕ → Option ℕ) (memory : ℕ → ℕ) (str : ℕ) (passes : Bool) : Type 0 where
  pub size : ℕ
  pub before :
      (j : ℕ)
      → j < size
      → (ptr : ℕ) × (user_to_kernel_ptr page (str + j) ≡ some ptr) × (memory ptr ≢ 0)
  pub last :
      ((passes ≡ true)
        × ((ptr : ℕ) × (user_to_kernel_ptr page (str + size) ≡ some ptr) × (memory ptr ≡ 0)))
      ⊎ ((passes ≡ false) × (user_to_kernel_ptr page (str + size) ≡ none))

at_start :
    (page : ℕ → Option ℕ) (str : ℕ) {o : Option ℕ}
    → user_to_kernel_ptr page str ≡ o
    → user_to_kernel_ptr page (str + 0) ≡ o
at_start page str h = let e : str + 0 ≡ str = omega arith in rw e h

user_to_kernel_ptr-user :
    (page : ℕ → Option ℕ) (v ptr : ℕ) → user_to_kernel_ptr page v ≡ some ptr → v < phys_base
unfolding user_to_kernel_ptr
user_to_kernel_ptr-user page v ptr h = elim (Bool-cases (check_valid_ptr v)) [
  | inl e ↦ (check_valid_ptr-true v e).1
  | inr e ↦
      let refused : user_to_kernel_ptr page v ≡ none = rw e refl in
      absurd (let both : none ≡ some ptr = sym refused ∙ h in cc)
]

Ends-suc :
    {page : ℕ → Option ℕ} {memory : ℕ → ℕ} {str ptr : ℕ} {passes : Bool}
    → user_to_kernel_ptr page str ≡ some ptr
    → memory ptr ≢ 0
    → Ends page memory (str + 1) passes
    → Ends page memory str passes
Ends-suc {page} {memory} {str} {ptr} {passes} here more h = record {
  size = suc h.size;
  before = λ j lt. go j lt;
  last = let e : str + suc h.size ≡ str + 1 + h.size = omega arith in rw e h.last;
}
  where
    go :
        (j : ℕ)
        → j < suc h.size
        → (ptr : ℕ) × (user_to_kernel_ptr page (str + j) ≡ some ptr) × (memory ptr ≢ 0)
    go zero lt = (ptr, at_start page str here, more)
    go (suc j) lt =
        let e : str + suc j ≡ str + 1 + j = omega arith in rw e (h.before j (omega arith))

module _ (page : ℕ → Option ℕ) (memory : ℕ → ℕ) where
  check_none :
      (fuel str : ℕ)
      → user_to_kernel_ptr page str ≡ none
      → check_valid_string page memory (suc fuel) str ≡ ok false
  unfolding check_valid_string
  check_none fuel str e = rw (check_valid_string, e) refl

  check_null :
      (fuel str ptr : ℕ)
      → user_to_kernel_ptr page str ≡ some ptr
      → memory ptr ≡ 0
      → check_valid_string page memory (suc fuel) str ≡ ok true
  unfolding check_valid_string
  check_null fuel str ptr e z = rw (check_valid_string, e, eq→== (memory ptr) 0 z) refl

  check_on :
      (fuel str ptr : ℕ)
      → user_to_kernel_ptr page str ≡ some ptr
      → memory ptr ≢ 0
      → check_valid_string page memory (suc fuel) str
        ≡ check_valid_string page memory fuel (str + 1)
  unfolding check_valid_string
  check_on fuel str ptr e z =
      rw (check_valid_string, e, ne→false (memory ptr) 0 z)
        (ap (λ (v : ℕ). check_valid_string page memory fuel v)
          (no_wrap str (user_to_kernel_ptr-user page str ptr e)))

  -- The string ends at once, or its first byte is mapped and not null.
  first_byte :
      (fuel str : ℕ)
      → ((passes : Bool) × (check_valid_string page memory (suc fuel) str ≡ ok passes)
          × Ends page memory str passes)
        ⊎ ((ptr : ℕ) × (user_to_kernel_ptr page str ≡ some ptr) × (memory ptr ≢ 0))
  first_byte fuel str = elim (Option-cases (user_to_kernel_ptr page str)) [
    | inl e ↦ inl (
      false,
      check_none fuel str e,
      record {
        size = 0;
        before = λ j lt. absurd (omega arith);
        last = inr (refl, at_start page str e);
      },
    )
    | inr (ptr, e) ↦ elim (ℕ_discrete (memory ptr) 0) [
      | yes z ↦ inl (
        true,
        check_null fuel str ptr e z,
        record {
          size = 0;
          before = λ j lt. absurd (omega arith);
          last = inl (refl, (ptr, at_start page str e, z));
        },
      )
      | no z ↦ inr (ptr, e, z)
    ]
  ]

  -- With a round for each address below PHYS_BASE from `str` on, and one more, `check_valid_string`
  -- ends, whatever is mapped, and lets pass just the strings with a null byte that is reached through
  -- mapped addresses.
  pub check_valid_string-Ends :
      (fuel str : ℕ)
      → phys_base ≤ str + fuel
      → (passes : Bool) × (check_valid_string page memory (suc fuel) str ≡ ok passes)
        × Ends page memory str passes
  check_valid_string-Ends zero str h = elim (first_byte zero str) [
    | inl r ↦ r
    | inr (ptr, e, z) ↦ absurd (omega (arith, user_to_kernel_ptr-user page str ptr e))
  ]
  check_valid_string-Ends (suc fuel) str h = elim (first_byte (suc fuel) str) [
    | inl r ↦ r
    | inr (ptr, e, z) ↦
        let (passes, run, ends) = check_valid_string-Ends fuel (str + 1) (omega arith) in
        (passes, check_on (suc fuel) str ptr e z ∙ run, Ends-suc e z ends)
  ]
