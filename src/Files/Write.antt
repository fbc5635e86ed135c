-- ===== src/Files/Write.antt =====
-- `file_read` and `file_write` of kernel/fs/file.c on an i-node. What `readi` and `writei` do to the
-- rest of the system, a state of any type, is an argument.
pub mod Rounds
use oskernel.Prelude.{
  ltb, ◌==◌, if◌then◌else◌, ℤ, pos, negsuc, minus_one, ℕ, zero, suc, ◌+◌, ◌-◌, ◌*◌, ◌/◌, ◌%◌, ◌^◌,
  Bool, true, false, not, Option, none, some, List, ◌∷◌,
}
use oskernel.Param.{max_op_blks, block_size}

-- The calls that a write makes, oldest last.
pub data Event : Type 0 where
  begins_op locks unlocks ends_op : Event
  writes : ℕ → ℕ → ℕ → Event

abbrev pub max_write : ℕ
max_write = (max_op_blks - 1 - 1 - 2) / 2 * block_size

-- The bytes that a result counts, if it is positive: `if (ret > 0) f->off += ret;`
abbrev pub moved : ℤ → ℕ
moved (pos k) = k
moved (negsuc k) = 0

-- `ret != len`, where `ret` is converted to unsigned; a negative one is no length.
abbrev pub is_length : ℤ → ℕ → Bool
is_length (pos k) len = k == len
is_length (negsuc k) len = false

-- The file offset, the rest of the system and the calls so far.
pub record Writer (S : Type 0) : Type 0 where
  pub off : ℕ
  pub rest : S
  pub events : List Event

module _ {S : Type 0} (writei : ℕ → ℕ → ℕ → S → ℤ × S) where
  -- One transaction: `writei(f->inode, true, src, f->off, n)`.
  abbrev pub write_once : ℕ → ℕ → Writer S → ℤ × Writer S
  write_once src n w =
      let (ret, rest) = writei src w.off n w.rest in
      (
        ret,
        record {
          off = (w.off + moved ret) % 2 ^ 32;
          rest = rest;
          events = ends_op ∷ unlocks ∷ writes src w.off n ∷ locks ∷ begins_op ∷ w.events;
        },
      )

  -- The loop of `file_write` with `i` bytes written, for `fuel` rounds at most; `none` when they run
  -- out. The result has the `i` at which the loop stops.
  pub write_loop : ℕ → ℕ → ℕ → ℕ → Writer S → Option (ℕ × Writer S)
  write_loop zero src n i w = none
  write_loop (suc fuel) src n i w =
      let len = if ltb max_write (n - i) then max_write else n - i in
      let (ret, w') = write_once src n w in
      elim (ltb i n) [
        | false ↦ some (i, w)
        | true ↦ elim (is_length ret len) [
          | false ↦ some (i, w')
          | true ↦ write_loop fuel src n (i + len) w'
        ]
      ]

  -- `file_write` on an i-node; every round but the last writes a byte, so `n + 1` rounds suffice.
  pub file_write_inode : Bool → ℕ → ℕ → Writer S → Option (ℤ × Writer S)
  file_write_inode writable src n w =
      if not writable then some (minus_one, w) else elim (write_loop (n + 1) src n 0 w) [
        | none ↦ none
        | some (i, w') ↦ some (if i == n then pos n else minus_one, w')
      ]
