-- ===== src/Prelude/Int.antt =====
-- Signed C integers that do not overflow; `negsuc n` is -(n + 1).
use Prim.Native.Nat.{ℕ}

pub data ℤ : Type 0 where
  pos : ℕ → ℤ
  negsuc : ℕ → ℤ

-- The `-1` that reports an error.
abbrev pub minus_one : ℤ
minus_one = negsuc 0
