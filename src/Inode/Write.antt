-- ===== src/Inode/Write.antt =====
-- `writei` of kernel/fs/inode.c, up to the `iupdate` at its end, which Inode/Table models. Offsets are
-- not negative and the sizes are below 2 ^ 32.
pub mod Content
pub mod Again
use oskernel.Prelude.{
  ltb, ◌==◌, if◌then◌else◌, update, Run, ok, ◌>>=◌, ◌>>◌, ℕ, zero, suc, ◌+◌, ◌-◌, ◌/◌, ◌%◌, Bool,
  true, false, not, ◌&&◌, Option, none, some,
}
use oskernel.Param.{block_size}
use oskernel.Inode.{Volume, Inode, bmap}
use oskernel.Inode.Read.{chunk}

-- `len` entries from `i` on are those of `src` from `j` on.
abbrev pub overwrite : (ℕ → ℕ) → ℕ → ℕ → (ℕ → ℕ) → ℕ → ℕ → ℕ
overwrite f i len src j k = if not (ltb k i) && ltb k (i + len) then src (j + (k - i)) else f k

-- What is left to transfer, the offset, and the state.
pub record Progress : Type 0 where
  pub left : ℕ
  pub off : ℕ
  pub volume : Volume
  pub inode : Inode

-- A round of the loop of `writei`, `j` being how far `src` is: whether the loop goes on, and the
-- state. `reach j len` says how many of the `len` bytes at `src + j` the `either_copy_in` copies
-- before it ends; it succeeds if that is all.
pub write_round : (ℕ → ℕ) → (ℕ → ℕ → ℕ) → ℕ → ℕ → ℕ → Volume → Inode → Run (Bool × Volume × Inode)
write_round src reach j off n v inode = do
  (addr, v', inode') ← bmap v inode (off / block_size)
  let got = reach j (chunk off n)
  let written = overwrite (v'.byte addr) (off % block_size) got src j
  ok (
      if addr == 0
      then (false, v', inode')
      else (not (ltb got (chunk off n)), record v' { byte = update v'.byte addr written }, inode'))

-- The loop, for `fuel` rounds at most. Each round transfers a byte at least.
pub write_loop : (ℕ → ℕ) → (ℕ → ℕ → ℕ) → ℕ → ℕ → ℕ → ℕ → Volume → Inode → Run Progress
write_loop src reach zero j off n v inode =
    ok (record { left = n; off = off; volume = v; inode = inode })
write_loop src reach (suc fuel) j off n v inode = elim (n == 0) [
  | true ↦ ok (record { left = n; off = off; volume = v; inode = inode })
  | false ↦ do
    (goes_on, v', inode') ← write_round src reach j off n v inode
    let len = chunk off n
    elim goes_on [
      | false ↦ ok (record { left = n; off = off; volume = v'; inode = inode' })
      | true ↦ write_loop src reach fuel (j + len) (off + len) (n - len) v' inode'
    ]
]

-- The number of bytes that `writei` returns, with the state; `none` is -1.
unfoldable pub writei :
    (ℕ → ℕ) → (ℕ → ℕ → ℕ) → ℕ → ℕ → Volume → Inode → Run (Option (ℕ × Volume × Inode))
writei src reach off n v inode = if ltb inode.size off then ok none else do
  p ← write_loop src reach n 0 off n v inode
  ok (
      some (
        n - p.left,
        p.volume,
        if ltb p.inode.size p.off then record (p.inode) { size = p.off } else p.inode,
      ))
