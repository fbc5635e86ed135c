-- ===== src/Strings.antt =====
-- kernel/lib/string.c over a memory of bytes. Addresses do not wrap.
pub mod Blocks
pub mod Text
mod Tests
use oskernel.Prelude.{
  ltb, ◌==◌, if◌then◌else◌, update, ℕ, zero, suc, ◌+◌, ◌%◌, Bool, true, false, not, ◌&&◌, Option,
  none, some,
}

abbrev pub Memory : Type 0
Memory = ℕ → ℕ

-- `memset`: from the last byte down. `(uint8_t)v` is stored.
pub memset : Memory → ℕ → ℕ → ℕ → Memory
memset m ptr v zero = m
memset m ptr v (suc n) = memset (update m (ptr + n) (v % 256)) ptr v n

-- The two loops of `memmove`: upwards from byte `i` for `k` rounds, and downwards.
pub move_up : Memory → ℕ → ℕ → ℕ → ℕ → Memory
move_up m dst src i zero = m
move_up m dst src i (suc k) = move_up (update m (dst + i) (m (src + i))) dst src (i + 1) k

pub move_down : Memory → ℕ → ℕ → ℕ → Memory
move_down m dst src zero = m
move_down m dst src (suc i) = move_down (update m (dst + i) (m (src + i))) dst src i

pub memmove : Memory → ℕ → ℕ → ℕ → Memory
memmove m dst src n = if ltb dst src then move_up m dst src 0 n else move_down m dst src n

pub memcpy : Memory → ℕ → ℕ → ℕ → Memory
memcpy m dst src n = memmove m dst src n

-- `strlen`, with `fuel` rounds at most; `none` when they do not reach the end of the string.
pub strlen_from : ℕ → Memory → ℕ → ℕ → Option ℕ
strlen_from zero m s len = none
strlen_from (suc fuel) m s len = elim (m (s + len) == 0) [
  | true ↦ some len
  | false ↦ strlen_from fuel m s (len + 1)
]

pub strlen : ℕ → Memory → ℕ → Option ℕ
strlen fuel m s = strlen_from fuel m s 0

-- The two characters whose difference `strncmp` returns, or none where `n` runs out and it returns 0.
unfoldable pub strncmp : Memory → ℕ → ℕ → ℕ → Option (ℕ × ℕ)
strncmp m s1 s2 zero = none
strncmp m s1 s2 (suc n) =
    let rest = strncmp m (s1 + 1) (s2 + 1) n in
    if not (m s1 == 0) && (m s1 == m s2) then rest else some (m s1, m s2)

-- `strncmp(...) == 0`
abbrev pub is_zero : Option (ℕ × ℕ) → Bool
is_zero none = true
is_zero (some (a, b)) = a == b

-- The two loops of `strncpy`.
pub pad : Memory → ℕ → ℕ → Memory
pad m dst zero = m
pad m dst (suc n) = pad (update m dst 0) (dst + 1) n

pub strncpy : Memory → ℕ → ℕ → ℕ → Memory
strncpy m dst src zero = m
strncpy m dst src (suc n) =
    let rest = strncpy (update m dst (m src)) (dst + 1) (src + 1) n in
    if m src == 0 then pad m dst (suc n) else rest

-- `strrchr`, with fuel as `strlen`; the result is NULL or the address of the last `c`.
pub strrchr_from : ℕ → Memory → ℕ → ℕ → Option ℕ → Option (Option ℕ)
strrchr_from zero m s c pc = none
strrchr_from (suc fuel) m s c pc = elim (m s == 0) [
  | true ↦ some pc
  | false ↦ strrchr_from fuel m (s + 1) c (if m s == c then some s else pc)
]

pub strrchr : ℕ → Memory → ℕ → ℕ → Option (Option ℕ)
strrchr fuel m s c = strrchr_from fuel m s c none
