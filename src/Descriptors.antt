-- ===== src/Descriptors.antt =====
-- kernel/dev/virtio_disk.c: the descriptors of the disk's queue, of which a request takes three. The
-- disk's lock is held; the wake-up at the end of `free_desc` is left out.
pub mod Three
pub mod Request
mod Tests
use oskernel.Prelude.{
  leb, if◌then◌else◌, update, Run, ok, ◌>>=◌, ◌>>◌, panic_if, ℕ, zero, suc, ◌+◌, Bool, true, false,
  Option, none, some, List, [], ◌∷◌, ◌++◌,
}

abbrev pub num : ℕ
num = 8

pub record Desc : Type 0 where
  pub addr : ℕ
  pub len : ℕ
  pub flags : ℕ
  pub next : ℕ

-- `disk.free` and `disk.desc`.
pub record Queue : Type 0 where
  pub free : ℕ → Bool
  pub desc : ℕ → Desc

-- The loop of `alloc_desc` over `k` descriptors from `i` on; `none` is -1.
pub alloc_desc_from : Queue → ℕ → ℕ → Option (ℕ × Queue)
alloc_desc_from q zero i = none
alloc_desc_from q (suc k) i =
    let rest = alloc_desc_from q k (i + 1) in
    if q.free i then some (i, record q { free = update q.free i false }) else rest

pub alloc_desc : Queue → Option (ℕ × Queue)
alloc_desc q = alloc_desc_from q num 0

pub free_desc : Queue → ℕ → Run Queue
free_desc q i = do
  panic_if (leb num i) "free an invalid descriptor"
  panic_if (q.free i) "the descriptor is already free"
  ok (record {
    free = update q.free i true;
    desc = update q.desc i (record { addr = 0; len = 0; flags = 0; next = 0 });
  })

-- The rounds of `alloc3_desc` that are left, with the descriptors taken so far, the first one first.
pub free_all : Queue → List ℕ → Run Queue
free_all q [] = ok q
free_all q (i ∷ taken) = do q' ← free_desc q i; free_all q' taken

pub alloc3_from : ℕ → List ℕ → Queue → Run (Option (List ℕ) × Queue)
alloc3_from zero taken q = ok (some taken, q)
alloc3_from (suc k) taken q = elim (alloc_desc q) [
  | some (i, q') ↦ alloc3_from k (taken ++ i ∷ []) q'
  | none ↦ do q' ← free_all q taken; ok (none, q')
]

pub alloc3_desc : Queue → Run (Option (List ℕ) × Queue)
alloc3_desc q = alloc3_from 3 [] q
