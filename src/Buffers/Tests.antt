-- ===== src/Buffers/Tests.antt =====
-- Runs and the theorems on a cache after `binit`.
use oskernel.Prelude.{◌==◌, if◌then◌else◌, ℕ, ◌+◌, ◌-◌, ◌*◌, ◌≡◌, refl, false, some, ◌∷◌, arith}
use oskernel.Buffers.{Buffer, Cache, binit_from, binit, unused, bread, remove, brelse}
use oskernel.Buffers.Unique.{IsCache, Reads, bread-Reads, brelse-IsCache, binit-IsCache}

abbrev zeroed : ℕ → Buffer
zeroed _ = record { valid = false; dev = 0; bno = 0; refcnt = 0; content = 0 }

abbrev start : Cache
start = binit zeroed

abbrev disk : ℕ → ℕ → ℕ
disk dev bno = dev * 1000 + bno

binit-IsCache_example : IsCache (binit zeroed)
binit-IsCache_example = binit-IsCache zeroed (λ i. refl)

bread-Reads_example : Reads disk start 1 5 (bread disk start 1 5)
bread-Reads_example = bread-Reads disk start 1 5 binit-IsCache_example (λ e. omega (arith, e))

brelse-IsCache_example :
    let c' = brelse start 3 in
    IsCache c'
    × ((c'.buf 3).refcnt ≡ (start.buf 3).refcnt - 1)
    × (c'.ring ≡ (if (start.buf 3).refcnt - 1 == 0 then 3 ∷ remove 3 start.ring else start.ring))
brelse-IsCache_example = brelse-IsCache start 3 binit-IsCache_example (omega arith)

-- The least recently used buffer is the first one, 0.
oldest : unused start.buf start.ring ≡ some 0
unfolding binit binit_from unused
oldest = refl
