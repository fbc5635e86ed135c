-- ===== src/Log/Header.antt =====
-- The header block: what `read_log_header` and `write_log_header` copy.
use oskernel.Prelude.{ltb, if◌then◌else◌, update, ℕ, zero, suc, ◌+◌, ◌<◌, ◌≡◌, refl, arith}
use oskernel.Log.{Block, Log, read_blocks, write_blocks}

-- The loop of `read_log_header` fills the entries from `i` to `i + k`.
pub read_blocks_lem :
    (b : Block) (k i : ℕ) (blocks : ℕ → ℕ) (j : ℕ)
    → read_blocks b k i blocks j
      ≡ (if ltb j i then blocks j else if ltb j (i + k) then b (1 + j) else blocks j)
unfolding read_blocks
read_blocks_lem b zero i blocks j = ground arith
read_blocks_lem b (suc k) i blocks j =
    ground (arith, read_blocks_lem b k (i + 1) (update blocks i (b (1 + i))) j)

pub write_blocks_lem :
    (blocks : ℕ → ℕ) (k i : ℕ) (b : Block) (j : ℕ)
    → write_blocks blocks k i b (1 + j)
      ≡ (if ltb j i then b (1 + j) else if ltb j (i + k) then blocks j else b (1 + j))
unfolding write_blocks
write_blocks_lem blocks zero i b j = ground arith
write_blocks_lem blocks (suc k) i b j =
    ground (arith, write_blocks_lem blocks k (i + 1) (update b (1 + i) (blocks i)) j)

pub write_blocks_count : (blocks : ℕ → ℕ) (k i : ℕ) (b : Block) → write_blocks blocks k i b 0 ≡ b 0
unfolding write_blocks
write_blocks_count blocks zero i b = refl
write_blocks_count blocks (suc k) i b =
    ground (arith, write_blocks_count blocks k (i + 1) (update b (1 + i) (blocks i)))

-- The block holds the header of `lg`.
pub record Holds (lg : Log) (b : Block) : Type 0 where
  pub count : b 0 ≡ lg.n
  pub entries : (j : ℕ) → j < lg.n → b (1 + j) ≡ lg.blocks j

pub write_blocks-Holds :
    (lg : Log) (b : Block) → Holds lg (write_blocks lg.blocks lg.n 0 (update b 0 lg.n))
write_blocks-Holds lg b = record {
  count = ground (arith, write_blocks_count lg.blocks lg.n 0 (update b 0 lg.n));
  entries = λ j h. ground (arith, write_blocks_lem lg.blocks lg.n 0 (update b 0 lg.n) j);
}
