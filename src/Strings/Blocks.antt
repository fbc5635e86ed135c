-- ===== src/Strings/Blocks.antt =====
-- `memset` and `memmove` as functions of the whole memory.
use oskernel.Prelude.{
  ltb, leb, if◌then◌else◌, Bool-cases, update, ℕ, zero, suc, ◌+◌, ◌-◌, ◌%◌, ◌≤◌, ◌<◌, ◌≡◌, inl, inr,
  Bool, ◌&&◌, arith,
}
use oskernel.Strings.{Memory, memset, move_up, move_down, memmove}

-- `a` is one of the `n` addresses from `p` on.
abbrev pub within : ℕ → ℕ → ℕ → Bool
within p n a = leb p a && ltb a (p + n)

-- `memset` stores `v` as a byte in the `n` bytes from `ptr` on, and changes no other byte.
pub memset_lem :
    (m : Memory) (ptr v n a : ℕ) → memset m ptr v n a ≡ (if within ptr n a then v % 256 else m a)
unfolding memset
memset_lem m ptr v zero a = ground arith
memset_lem m ptr v (suc n) a = ground (arith, memset_lem (update m (ptr + n) (v % 256)) ptr v n a)

-- Upwards, where the destination lies below the source.
move_up_lem :
    (m : Memory) (dst src i k a : ℕ)
    → dst < src
    → move_up m dst src i k a ≡ (if within (dst + i) k a then m (src + (a - dst)) else m a)
unfolding move_up
move_up_lem m dst src i zero a h = ground arith
move_up_lem m dst src i (suc k) a h =
    ground (arith, move_up_lem (update m (dst + i) (m (src + i))) dst src (i + 1) k a h)

move_down_lem :
    (m : Memory) (dst src k a : ℕ)
    → src ≤ dst
    → move_down m dst src k a ≡ (if within dst k a then m (src + (a - dst)) else m a)
unfolding move_down
move_down_lem m dst src zero a h = ground arith
move_down_lem m dst src (suc k) a h =
    ground (arith, move_down_lem (update m (dst + k) (m (src + k))) dst src k a h)

-- `memmove` copies the `n` bytes as they were before the call, also where the two areas overlap, and
-- changes no byte outside the destination.
pub memmove_lem :
    (m : Memory) (dst src n a : ℕ)
    → memmove m dst src n a ≡ (if within dst n a then m (src + (a - dst)) else m a)
unfolding memmove
memmove_lem m dst src n a = elim (Bool-cases (ltb dst src)) [
  | inl below ↦ rw below (ground (arith, move_up_lem m dst src 0 n a))
  | inr above ↦ rw above (move_down_lem m dst src n a (ground arith))
]
