-- ===== src/Log/Pins.antt =====
-- The pins on buffers: `commit` gives back each pin that `log_write` took.
use oskernel.Prelude.{
  ltb, Bool-cases, update, update_self, update_ne, ℕ, zero, suc, ◌+◌, ◌-◌, ◌≤◌, ◌<◌, ◌≡◌, refl, ◌∙◌,
  inl, inr, false, arith, ℕ_discrete,
}
use oskernel.Log.{
  Log, Io, Fs, log_block, copy_block, install_one, install_from, install_trans, write_log_header,
  write_from, write_to_log, commit,
}
use oskernel.Log.Install.{NotFrom}
use oskernel.Log.Write.{Pinned}

-- The blocks from entry `i` on are pinned once, and no others.
record PinnedFrom (lg : Log) (i : ℕ) (pins : ℕ → ℕ) : Type 0 where
  one : (j : ℕ) → i ≤ j → j < lg.n → pins (lg.blocks j) ≡ 1
  none : (b : ℕ) → NotFrom lg i b → pins b ≡ 0

module _ (lg : Log)
    (distinct : (i j : ℕ) → i < lg.n → j < lg.n → lg.blocks i ≡ lg.blocks j → i ≡ j) where
  unpin-PinnedFrom :
      (i : ℕ) (pins : ℕ → ℕ)
      → i < lg.n
      → PinnedFrom lg i pins
      → PinnedFrom lg (i + 1) (update pins (lg.blocks i) (pins (lg.blocks i) - 1))
  unpin-PinnedFrom i pins h v =
      let home = lg.blocks i in
      record {
        one = λ j lo hi.
            update_ne pins home _ (lg.blocks j) (λ q. omega (arith, distinct i j h hi q))
            ∙ v.one j (omega arith) hi;
        none = λ b nb. elim (ℕ_discrete home b) [
          | yes q ↦ rw (← q) (update_self pins home _ ∙ omega (arith, v.one i (omega arith) h))
          | no ne ↦
              update_ne pins home _ b ne
              ∙ v.none b (λ j lo hi. elim (ℕ_discrete i j) [
                | yes q ↦ rw (← q) ne
                | no q ↦ nb j (omega arith) hi
              ])
        ];
      }

  install_from-PinnedFrom :
      (k i : ℕ) (io : Io)
      → i + k ≡ lg.n
      → PinnedFrom lg i io.pins
      → (b : ℕ) → (install_from false lg k i io).pins b ≡ 0
  unfolding install_from
  install_from-PinnedFrom zero i io e v b = v.none b (λ j lo hi. absurd (omega arith))
  install_from-PinnedFrom (suc k) i io e v b =
      install_from-PinnedFrom k (i + 1) (install_one false lg i io) (omega arith)
        (unpin-PinnedFrom i io.pins (omega arith) v) b

write_from-pins : (lg : Log) (k i : ℕ) (io : Io) → (write_from lg k i io).pins ≡ io.pins
unfolding write_from
write_from-pins lg zero i io = refl
write_from-pins lg (suc k) i io =
    write_from-pins lg k (i + 1) (copy_block io (lg.blocks i) (log_block lg i))

-- After `commit` no buffer is pinned by the log.
pub commit_unpins : (s : Fs) (b : ℕ) → Pinned s → (commit s).io.pins b ≡ 0
unfolding commit write_to_log write_log_header install_trans
commit_unpins s b v =
    let lg = s.lg in
    let same = write_from-pins lg lg.n 0 s.io in
    elim (Bool-cases (ltb 0 lg.n)) [
      | inl some_logged ↦ rw some_logged (
          install_from-PinnedFrom lg v.distinct lg.n 0 _ (omega arith)
            (rw same (record { one = λ j lo hi. v.one j hi; none = v.none })) b)
      | inr none_left ↦ rw none_left (v.none b (λ j lo hi. absurd (ground arith)))
    ]
