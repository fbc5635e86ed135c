-- ===== src/Inode/Read.antt =====
-- `readi` of kernel/fs/inode.c. Offsets are not negative; `off + n` is a `uint64_t`.
pub mod Content
use oskernel.Prelude.{
  ltb, ◌==◌, if◌then◌else◌, Run, ok, ◌>>=◌, ◌>>◌, ℕ, zero, suc, ◌+◌, ◌-◌, ◌/◌, ◌%◌, ◌^◌, Bool, true,
  false, not, ◌||◌, Option, none, some, List, [], ◌∷◌, ◌++◌,
}
use oskernel.Param.{block_size}
use oskernel.Inode.{Volume, Inode, bmap}

-- `len` entries of an array from `i` on.
unfoldable pub slice : (ℕ → ℕ) → ℕ → ℕ → List ℕ
slice f i zero = []
slice f i (suc len) = f i ∷ slice f (i + 1) len

-- What is left to transfer, the bytes so far, and the state.
pub record Transfer : Type 0 where
  pub left : ℕ
  pub bytes : List ℕ
  pub volume : Volume
  pub inode : Inode

abbrev pub chunk : ℕ → ℕ → ℕ
chunk off n = if ltb n (block_size - off % block_size) then n else block_size - off % block_size

-- The loop of `readi`, for `fuel` rounds at most. `copies off` says whether the `either_copy_out` of
-- the chunk at `off` succeeds. Each round transfers a byte at least.
unfoldable pub read_loop : (ℕ → Bool) → ℕ → ℕ → ℕ → Volume → Inode → Run Transfer
read_loop copies zero off n v inode =
    ok (record { left = n; bytes = []; volume = v; inode = inode })
read_loop copies (suc fuel) off n v inode = elim (n == 0) [
  | true ↦ ok (record { left = n; bytes = []; volume = v; inode = inode })
  | false ↦ do
    (addr, v', inode') ← bmap v inode (off / block_size)
    let stop : Transfer = record { left = n; bytes = []; volume = v'; inode = inode' }
    let len = chunk off n
    elim (addr == 0 || not (copies off)) [
      | true ↦ ok stop
      | false ↦ do
        rest ← read_loop copies fuel (off + len) (n - len) v' inode'
        ok (record rest { bytes = slice (v'.byte addr) (off % block_size) len ++ rest.bytes })
    ]
]

-- The number of bytes that `readi` returns, with the transfer; `none` is -1.
unfoldable pub readi : (ℕ → Bool) → ℕ → ℕ → Volume → Inode → Run (Option (ℕ × Transfer))
readi copies off n v inode =
    let n' = if ltb inode.size ((off + n) % 2 ^ 64) then inode.size - off else n in
    if ltb inode.size off
    then ok none
    else do t ← read_loop copies n' off n' v inode; ok (some (n' - t.left, t))
