-- ===== src/Log/Overflow.antt =====
-- A log that `begin_op` counts as `log_size` blocks large and `log_write` as `size - 1`.
use Prim.Native.String.{String}
use oskernel.Prelude.{
  update_self, update_ne, Run, ok, panic, ◌>>=◌, ℕ, zero, suc, ◌+◌, ◌*◌, ◌^◌, ◌≤◌, ◌<◌, ◌≡◌, ◌≢◌,
  inl, false, some, arith, dec_le, ℕ_discrete,
}
use oskernel.Param.{max_op_blks, log_size}
use oskernel.Log.{Fs, begin_op, log_write}
use oskernel.Log.Write.{new_entry, absorbed, appended, log_write-Logs, log_write_panics}

-- `log_write` of `k` of the blocks `bs`, one after another, from the one with index `i` on.
pub log_run : (ℕ → ℕ) → ℕ → ℕ → Fs → Run Fs
log_run bs zero i s = ok s
log_run bs (suc k) i s = do s' ← log_write s (bs i); log_run bs k (i + 1) s'

-- The first `k` of the blocks `bs` are all different.
abbrev pub AllDifferent : (ℕ → ℕ) → ℕ → Type 0
AllDifferent bs k = (i j : ℕ) → i < k → j < k → bs i ≡ bs j → i ≡ j

log_run_panics :
    (bs : ℕ → ℕ) (k i : ℕ) (s : Fs)
    → AllDifferent bs (i + k)
    → 0 < s.lg.outstanding
    → s.lg.size ≤ 2 ^ 32
    → s.lg.n < s.lg.size
    → ((j m : ℕ) → j < s.lg.n → i ≤ m → m < i + k → s.lg.blocks j ≢ bs m)
    → s.lg.size ≤ s.lg.n + k
    → (message : String) × (log_run bs k i s ≡ panic message)
unfolding log_run
log_run_panics bs zero i s apart begun fits room new many = absurd (omega arith)
log_run_panics bs (suc k) i s apart begun fits room new many =
    elim (dec_le s.lg.size (s.lg.n + 1)) [
      | yes full ↦ let (m, e) = log_write_panics s (bs i) (omega arith) fits (inl full) in (m, rw e)
      | no free ↦
          let (s', e, l) = log_write-Logs s (bs i) (omega arith, fits, omega arith) begun in
          elim l [
            | absorbed j h here q ↦ absurd (new j i h (omega arith) (omega arith) here)
            | appended fresh q ↦
                let s'' = new_entry s (bs i) in
                let (m, e') =
                  log_run_panics bs k (i + 1) s''
                    (λ x y lx ly same. apart x y (omega arith) (omega arith) same) begun fits
                    (omega arith)
                    (λ j m h lo hi. elim (ℕ_discrete s.lg.n j) [
                      | yes r ↦
                          rw (← r, update_self s.lg.blocks s.lg.n (bs i))
                            (λ same. omega (arith, apart i m (omega arith) (omega arith) same))
                      | no r ↦
                          rw (update_ne s.lg.blocks s.lg.n (bs i) j r)
                            (new j m (omega arith) (omega arith) (omega arith))
                    ])
                    (omega arith) in
                (m, rw (e, q) e')
          ]
    ]

-- On a disk whose log has at most `log_size` blocks, the header included, as `mkfs` makes it:
-- `begin_op` admits three operations one after another, and when these log `max_op_blks` blocks each,
-- in any order and all different, a `log_write` panics.
pub three_operations_panic :
    (s : Fs) (bs : ℕ → ℕ)
    → AllDifferent bs (3 * max_op_blks)
    → s.lg.committing ≡ false
    → s.lg.outstanding ≡ 0
    → s.lg.n ≡ 0
    → 0 < s.lg.size
    → s.lg.size ≤ log_size
    → (s₁ s₂ s₃ : Fs) × (begin_op s ≡ some s₁)
      × (begin_op s₁ ≡ some s₂)
      × (begin_op s₂ ≡ some s₃)
      × ((message : String) × (log_run bs (3 * max_op_blks) 0 s₃ ≡ panic message))
unfolding begin_op
three_operations_panic s bs apart calm none_begun empty some_size small =
    let s₁ = record s { lg = record (s.lg) { outstanding = s.lg.outstanding + 1 } } in
    let s₂ = record s₁ { lg = record (s₁.lg) { outstanding = s₁.lg.outstanding + 1 } } in
    let s₃ = record s₂ { lg = record (s₂.lg) { outstanding = s₂.lg.outstanding + 1 } } in
    (
      s₁,
      s₂,
      s₃,
      ground arith,
      ground arith,
      ground arith,
      log_run_panics bs (3 * max_op_blks) 0 s₃ apart (omega arith) (omega arith) (omega arith)
          (λ j m h lo hi. absurd (omega arith)) (omega arith),
    )
