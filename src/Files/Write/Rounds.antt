-- ===== src/Files/Write/Rounds.antt =====
-- What `file_write` returns, by the number of bytes.
use oskernel.Prelude.{
  ltb, ◌==◌, if◌then◌else◌, Bool-cases, ℤ, pos, minus_one, ℕ, zero, suc, ◌+◌, ◌-◌, ◌%◌, ◌^◌, ◌≤◌,
  ◌<◌, ◌≡◌, refl, inl, inr, Bool, true, false, some, arith,
}
use oskernel.Files.Write.{max_write, is_length, Writer, write_once, write_loop, file_write_inode}

module _ {S : Type 0} (writei : ℕ → ℕ → ℕ → S → ℤ × S) where
  write_loop_total :
      (fuel src n i : ℕ) (w : Writer S)
      → n - i < fuel
      → (r : ℕ × Writer S) × (write_loop writei fuel src n i w ≡ some r)
  unfolding write_loop
  write_loop_total zero src n i w h = absurd (omega arith)
  write_loop_total (suc fuel) src n i w h =
      let len = if ltb max_write (n - i) then max_write else n - i in
      let once = write_once writei src n w in
      elim (Bool-cases (ltb i n)) [
        | inr done ↦ ((i, w), rw (done, write_loop))
        | inl more ↦ elim (Bool-cases (is_length once.0 len)) [
          | inr short ↦ ((i, once.1), rw (more, write_loop) (rw (short, write_loop)))
          | inl good ↦
              let (r, e) = write_loop_total fuel src n (i + len) once.1 (ground arith) in
              (r, rw (more, write_loop) (rw (good, write_loop) e))
        ]
      ]

  loop_done :
      (fuel src n i : ℕ) (w : Writer S)
      → ltb i n ≡ false
      → write_loop writei (suc fuel) src n i w ≡ some (i, w)
  unfolding write_loop
  loop_done fuel src n i w done = rw (done, write_loop)

  -- The first round, where all bytes fit.
  loop_small :
      (fuel src n : ℕ) (w : Writer S)
      → 0 < n
      → n ≤ max_write
      → let (ret, w') = write_once writei src n w in
        write_loop writei (suc (suc fuel)) src n 0 w ≡ some (if is_length ret n then n else 0, w')
  unfolding write_loop
  loop_small fuel src n w positive small =
      let once = write_once writei src n w in
      let more : ltb 0 n ≡ true = ground arith in
      let len : (if ltb max_write (n - 0) then max_write else n - 0) ≡ n = ground arith in
      let sum : 0 + (if ltb max_write (n - 0) then max_write else n - 0) ≡ n = ground arith in
      let done : ltb (0 + (if ltb max_write (n - 0) then max_write else n - 0)) n ≡ false =
        ground arith in
      elim (Bool-cases (is_length once.0 n)) [
        | inr short ↦ rw (more, write_loop) (rw (len, write_loop) (rw (short, write_loop)))
        | inl good ↦
            rw (more, write_loop)
              (rw (len, write_loop) (rw (good, write_loop) (rw (done, write_loop) (rw sum))))
      ]

  -- The first round, where they do not fit and `writei` writes another number than `max_write`.
  loop_large :
      (fuel src n : ℕ) (w : Writer S)
      → max_write < n
      → is_length (write_once writei src n w).0 max_write ≡ false
      → write_loop writei (suc fuel) src n 0 w ≡ some (0, (write_once writei src n w).1)
  unfolding write_loop
  loop_large fuel src n w large other =
      let more : ltb 0 n ≡ true = ground arith in
      let len : (if ltb max_write (n - 0) then max_write else n - 0) ≡ max_write = ground arith in
      rw (more, write_loop) (rw (len, write_loop) (rw (other, write_loop)))

  -- `file_write` to an i-node always ends, whatever `writei` returns.
  pub file_write_total :
      (writable : Bool) (src n : ℕ) (w : Writer S)
      → (r : ℤ × Writer S) × (file_write_inode writei writable src n w ≡ some r)
  unfolding file_write_inode
  file_write_total false src n w = ((minus_one, w), refl)
  file_write_total true src n w =
      let (r, e) = write_loop_total (n + 1) src n 0 w (omega arith) in
      ((if r.0 == n then pos n else minus_one, r.1), rw e)

  -- A write of 1 to `max_write` bytes is one transaction with one `writei` of all of them. It returns
  -- the number of bytes if `writei` wrote all, and else -1; the offset advances by what was written.
  pub file_write_small :
      (src n : ℕ) (w : Writer S)
      → 0 < n
      → n ≤ max_write
      → let (ret, w') = write_once writei src n w in
        file_write_inode writei true src n w
        ≡ some (if is_length ret n then pos n else minus_one, w')
  unfolding file_write_inode
  file_write_small src n w pos_n small =
      let fuel : n + 1 ≡ suc (suc (n - 1)) = omega arith in
      let ret = (write_once writei src n w).0 in
      rw fuel (
        rw (loop_small (n - 1) src n w pos_n small) (elim (Bool-cases (is_length ret n)) [
          | inl good ↦ rw good (ground arith)
          | inr short ↦ rw short (ground arith)
        ]))

  -- The bug: a write of more than `max_write` bytes hands all of them to `writei` in one transaction,
  -- and returns -1 when `writei` writes them all, with the offset behind them.
  pub file_write_large :
      (src n : ℕ) (w : Writer S)
      → max_write < n
      → (write_once writei src n w).0 ≡ pos n
      → let (ret, w') = write_once writei src n w in
        (file_write_inode writei true src n w ≡ some (minus_one, w'))
        × (w'.off ≡ (w.off + n) % 2 ^ 32)
  unfolding file_write_inode
  file_write_large src n w large all =
      let fuel : n + 1 ≡ suc n = omega arith in
      let other : is_length (write_once writei src n w).0 max_write ≡ false =
        rw all (ground arith) in
      (rw fuel (rw (loop_large n src n w large other) (ground arith)), rw all)
