-- ===== src/Ulib/Text.antt =====
-- The string functions of user/ulib.c on strings: lists of the characters before the NUL. A pointer
-- into a string is the list from there on. kernel/lib/string.c has the others, which are modelled in
-- Strings.
pub mod Tokens
pub mod Find
use oskernel.Prelude.{
  ltb, leb, ◌==◌, if◌then◌else◌, ℕ, zero, suc, ◌+◌, ◌-◌, ◌*◌, ◌^◌, Bool, true, false, ◌&&◌, Option,
  none, some, List, [], ◌∷◌,
}

-- The inner loops of `strspn` and `strcspn`.
unfoldable pub among : List ℕ → ℕ → Bool
among [] c = false
among (a ∷ s) c = let rest = among s c in if c == a then true else rest

pub strspn : List ℕ → List ℕ → ℕ
strspn [] accept = 0
strspn (c ∷ s) accept = let rest = strspn s accept in if among accept c then suc rest else 0

pub strcspn : List ℕ → List ℕ → ℕ
strcspn [] reject = 0
strcspn (c ∷ s) reject = let rest = strcspn s reject in if among reject c then 0 else suc rest

-- The two characters whose difference `strcmp` returns.
abbrev head_of : List ℕ → ℕ
head_of [] = 0
head_of (c ∷ s) = c

pub strcmp : List ℕ → List ℕ → ℕ × ℕ
strcmp [] s2 = (0, head_of s2)
strcmp (a ∷ s1) [] = (a, 0)
strcmp (a ∷ s1) (b ∷ s2) = let rest = strcmp s1 s2 in if a == b then rest else (a, b)

-- What is left from `n` characters on, and the first `n`.
abbrev pub skip : ℕ → List ℕ → List ℕ
skip zero s = s
skip (suc n) [] = []
skip (suc n) (c ∷ s) = skip n s

abbrev pub first : ℕ → List ℕ → List ℕ
first zero s = []
first (suc n) [] = []
first (suc n) (c ∷ s) = c ∷ first n s

-- `strtok` with `olds` as the state: the token, as the NUL that it writes leaves it, and the new
-- `olds`. A first argument of `none` is NULL.
abbrev from : Option (List ℕ) → List ℕ → List ℕ
from none olds = olds
from (some s) olds = s

abbrev pub cut : List ℕ → List ℕ → Option (List ℕ) × List ℕ
cut tok [] = (some tok, [])
cut tok (_ ∷ rest) = (some tok, rest)

-- `strtok` behind its `strspn`.
pub token : List ℕ → List ℕ → Option (List ℕ) × List ℕ
token [] delim = (none, [])
token (c ∷ s) delim = let n = strcspn (c ∷ s) delim in cut (first n (c ∷ s)) (skip n (c ∷ s))

pub strtok : Option (List ℕ) → List ℕ → List ℕ → Option (List ℕ) × List ℕ
strtok start delim olds = let s = from start olds in token (skip (strspn s delim) s) delim

-- The results are the rest of the string from the character on; `none` is NULL.
pub strchr : List ℕ → ℕ → Option (List ℕ)
strchr [] c = none
strchr (x ∷ s) c = let rest = strchr s c in if x == c then some (x ∷ s) else rest

pub strrchr_from : List ℕ → ℕ → Option (List ℕ) → Option (List ℕ)
strrchr_from [] c result = result
strrchr_from (x ∷ s) c result = strrchr_from s c (if x == c then some (x ∷ s) else result)

pub strrchr : List ℕ → ℕ → Option (List ℕ)
strrchr s c = strrchr_from s c none

-- The inner loop of `strstr`: whether it comes to the end of `needle`.
pub begins : List ℕ → List ℕ → Bool
begins h [] = true
begins [] (n ∷ needle) = false
begins (c ∷ h) (n ∷ needle) = let rest = begins h needle in if c == n then rest else false

pub strstr_from : List ℕ → List ℕ → Option (List ℕ)
strstr_from [] needle = none
strstr_from (c ∷ h) needle =
    let rest = strstr_from h needle in if begins (c ∷ h) needle then some (c ∷ h) else rest

abbrev is_empty : List ℕ → Bool
is_empty [] = true
is_empty (c ∷ s) = false

pub strstr : List ℕ → List ℕ → Option (List ℕ)
strstr haystack needle = if is_empty needle then some haystack else strstr_from haystack needle

-- The loop of `atoi` with the value `n` so far; `none` is an overflow of `int`, which C leaves
-- undefined.
unfoldable pub atoi_from : List ℕ → ℕ → Option ℕ
atoi_from [] n = some n
atoi_from (c ∷ s) n =
    let n' = n * 10 + (c - 48) in
    let rest = atoi_from s n' in
    if leb 48 c && leb c 57 then (if ltb n' (2 ^ 31) then rest else none) else some n

unfoldable pub atoi : List ℕ → Option ℕ
atoi s = atoi_from s 0
