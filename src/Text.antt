-- ===== src/Text.antt =====
-- The functions of lib/string.c that the file system calls.  A string is the list of its bytes
-- before the terminating null byte, and a pointer into it is the rest from there on.
pub mod Split
pub mod Compare
use os_labratory_spring.Prelude.{
  ℕ, zero, suc, ◌+◌, ◌-◌, Bool, true, false, Option, none, some, List, [], ◌∷◌, ◌++◌, length, ltb,
  ◌==◌, if◌then◌else◌, take, drop,
}
use Prim.Native.Nat.{compare, Ordering}

abbrev pub Text : Type 0
Text = List ℕ

-- The string that an array of bytes holds, up to its first null byte.
unfoldable pub c_string : List ℕ → Text
c_string [] = []
c_string (c ∷ cs) = if c == 0 then [] else c ∷ c_string cs

unfoldable pub strlen : Text → ℕ
strlen [] = 0
strlen (c ∷ cs) = 1 + strlen cs

-- `strcmp`, whose -1, 0 and +1 are `lt`, `eq` and `gt`.
unfoldable pub strcmp : Text → Text → Ordering
strcmp [] [] = Ordering.eq
strcmp [] (b ∷ bs) = Ordering.lt
strcmp (a ∷ as') [] = Ordering.gt
strcmp (a ∷ as') (b ∷ bs) = elim (compare a b) [
  | Ordering.eq ↦ strcmp as' bs
  | Ordering.lt ↦ Ordering.lt
  | Ordering.gt ↦ Ordering.gt
]

-- `strcmp (a, b) == 0`
unfoldable pub same_text : Text → Text → Bool
unfolding strcmp
same_text a b = elim (strcmp a b) [ Ordering.eq ↦ true | _ ↦ false ]

-- `strlcpy (dst, src, size)`: the array `dst` afterwards.
unfoldable pub strlcpy : List ℕ → Text → ℕ → List ℕ
unfolding strlen
strlcpy dst src size =
    let src_len = strlen src in
    let dst_len = if ltb src_len (size - 1) then src_len else size - 1 in
    if size == 0 then dst else take dst_len src ++ (0 ∷ drop (dst_len + 1) dst)

-- `strchr (string, c) != NULL`, for a byte that is not null.
unfoldable pub strchr : Text → ℕ → Bool
strchr [] c = false
strchr (x ∷ xs) c = if x == c then true else strchr xs c

-- The first loop of `strtok_r`: the delimiters at the position are skipped.
unfoldable pub skip_delimiters : Text → Text → Text
unfolding strchr
skip_delimiters delimiters [] = []
skip_delimiters delimiters (c ∷ cs) =
    if strchr delimiters c then skip_delimiters delimiters cs else c ∷ cs

-- The second loop: the token, and what `*save_ptr` is left at.
unfoldable pub token : Text → Text → Text × Text
unfolding strchr
token delimiters [] = ([], [])
token delimiters (c ∷ cs) =
    let rest = token delimiters cs in if strchr delimiters c then ([], cs) else (c ∷ rest.0, rest.1)

-- A token and the place where the next call starts.
abbrev pub begin_token : Text → Text → Option (Text × Text)
begin_token delimiters [] = none
begin_token delimiters (c ∷ cs) = some (token delimiters (c ∷ cs))

-- `strtok_r` from a position; `none` is the null pointer.
unfoldable pub strtok_r : Text → Text → Option (Text × Text)
unfolding skip_delimiters token
strtok_r s delimiters = begin_token delimiters (skip_delimiters delimiters s)
