-- ===== src/Buffers.antt =====
-- kernel/fs/buf.c: the buffer cache. A function holds `bcache.lock`, and so is one step. A buffer is a
-- number below N_BUF; the ring through `prev` and `next` is the list of buffers from `head.next` to
-- `head.prev`. The content of a block is a number. The sleep lock of a buffer is left out.
pub mod Search
pub mod Unique
mod Tests
use oskernel.Prelude.{
  ltb, ◌==◌, if◌then◌else◌, update, Run, ok, panic, ◌>>◌, panic_if, ℕ, zero, suc, ◌+◌, ◌-◌, Bool,
  true, false, ◌&&◌, Option, none, some, List, [], ◌∷◌,
}
use oskernel.Param.{n_buf}

-- `struct buffer`.
pub record Buffer : Type 0 where
  pub valid : Bool
  pub dev : ℕ
  pub bno : ℕ
  pub refcnt : ℕ
  pub content : ℕ

-- `struct buffer_cache`; the most recently used buffer is first.
pub record Cache : Type 0 where
  pub buf : ℕ → Buffer
  pub ring : List ℕ

abbrev pub holds : Buffer → ℕ → ℕ → Bool
holds b dev bno = b.dev == dev && b.bno == bno

-- The loop of `binit`, over `k` buffers from `i` on.
pub binit_from : ℕ → ℕ → Cache → Cache
binit_from zero i c = c
binit_from (suc k) i c = binit_from k (i + 1) (record {
  buf = update c.buf i (record (c.buf i) { refcnt = 0; valid = false });
  ring = i ∷ c.ring;
})

pub binit : (ℕ → Buffer) → Cache
binit buf = binit_from n_buf 0 (record { buf = buf; ring = [] })

-- The two loops of `bread`: forwards for the block, and backwards for an unused buffer.
pub cached : (ℕ → Buffer) → ℕ → ℕ → List ℕ → Option ℕ
cached buf dev bno [] = none
cached buf dev bno (b ∷ ring) =
    let rest = cached buf dev bno ring in if holds (buf b) dev bno then some b else rest

pub unused : (ℕ → Buffer) → List ℕ → Option ℕ
unused buf [] = none
unused buf (b ∷ ring) = elim (unused buf ring) [
  | some older ↦ some older
  | none ↦ if (buf b).refcnt == 0 then some b else none
]

-- `disk` is what `virtio_disk_read` reads.
pub bread : (ℕ → ℕ → ℕ) → Cache → ℕ → ℕ → Run (ℕ × Cache)
bread disk c dev bno = elim (cached c.buf dev bno c.ring) [
  | some b ↦
      ok (b, record c { buf = update c.buf b (record (c.buf b) { refcnt = (c.buf b).refcnt + 1 }) })
  | none ↦ elim (unused c.buf c.ring) [
    | none ↦ panic "no buffers"
    | some b ↦
        let filled : Buffer = record {
          valid = true;
          dev = dev;
          bno = bno;
          refcnt = 1;
          content = disk dev bno;
        } in
        ok (b, record c { buf = update c.buf b filled })
  ]
]

pub remove : ℕ → List ℕ → List ℕ
remove b [] = []
remove b (a ∷ ring) = let rest = remove b ring in if a == b then rest else a ∷ rest

-- A buffer that is released was returned by `bread`, so its count is not 0.
pub brelse : Cache → ℕ → Cache
brelse c b =
    let n = (c.buf b).refcnt - 1 in
    record {
      buf = update c.buf b (record (c.buf b) { refcnt = n });
      ring = if n == 0 then b ∷ remove b c.ring else c.ring;
    }

pub bpin : Cache → ℕ → Run Cache
bpin c b = do
  panic_if (ltb (c.buf b).refcnt 1) "pin an invalid buffer"
  ok (record c { buf = update c.buf b (record (c.buf b) { refcnt = (c.buf b).refcnt + 1 }) })

pub bunpin : Cache → ℕ → Run Cache
bunpin c b = do
  panic_if (ltb (c.buf b).refcnt 1) "unpin an invalid buffer"
  ok (record c { buf = update c.buf b (record (c.buf b) { refcnt = (c.buf b).refcnt - 1 }) })
