-- ===== src/Log.antt =====
-- kernel/fs/log.c: the write-ahead log. A block is its array of 32-bit words, as the header is laid
-- out in it. `bufs b` is what `bread` returns for block `b`: the cached contents, or the disk's; a
-- cached block that is evicted has reference count 0. `past` keeps every state of the disk since
-- the start, newest first: the states in which a crash can leave it.
pub mod Header
pub mod Install
pub mod Crash
pub mod Commit
pub mod Write
pub mod Pins
pub mod Admission
pub mod Overflow
mod Tests
use oskernel.Prelude.{
  ltb, leb, ◌==◌, if◌then◌else◌, update, Run, ok, ◌>>=◌, ◌>>◌, panic_if, ℕ, zero, suc, ◌+◌, ◌-◌,
  ◌*◌, ◌%◌, ◌^◌, Bool, true, false, Option, none, some, List, [], ◌∷◌,
}
use oskernel.Param.{max_op_blks, log_size}

abbrev pub Block : Type 0
Block = ℕ → ℕ

abbrev pub Disk : Type 0
Disk = ℕ → Block

-- `struct log` and the header in it, without the lock and the device number.
pub record Log : Type 0 where
  pub start : ℕ
  pub size : ℕ
  pub outstanding : ℕ
  pub committing : Bool
  pub n : ℕ
  pub blocks : ℕ → ℕ

pub record Io : Type 0 where
  pub disk : Disk
  pub bufs : Disk
  pub pins : ℕ → ℕ
  pub past : List Disk

pub record Fs : Type 0 where
  pub lg : Log
  pub io : Io

-- Block `i` of the log, after the header: `lg.start + 1 + i` as a `uint32_t`.
abbrev pub log_block : Log → ℕ → ℕ
log_block lg i = (lg.start + 1 + i) % 2 ^ 32

-- `memmove` into the buffer of block `b`.
abbrev pub set_buf : Io → ℕ → Block → Io
set_buf io b block = record io { bufs = update io.bufs b block }

abbrev pub bwrite : Io → ℕ → Io
bwrite io b = let d = update io.disk b (io.bufs b) in record io { disk = d; past = d ∷ io.past }

abbrev pub copy_block : Io → ℕ → ℕ → Io
copy_block io from to = bwrite (set_buf io to (io.bufs from)) to

-- One round of `install_trans`. `bread` holds the buffer, so its `bunpin` does not panic.
abbrev pub install_one : Bool → Log → ℕ → Io → Io
install_one recovering lg i io =
    let home = lg.blocks i in
    let io' = copy_block io (log_block lg i) home in
    record io' { pins = if recovering then io'.pins else update io'.pins home (io'.pins home - 1) }

pub install_from : Bool → Log → ℕ → ℕ → Io → Io
install_from recovering lg zero i io = io
install_from recovering lg (suc k) i io =
    install_from recovering lg k (i + 1) (install_one recovering lg i io)

pub install_trans : Bool → Log → Io → Io
install_trans recovering lg io = install_from recovering lg lg.n 0 io

-- The loops that copy the block numbers out of the header block and into it, from `i` on.
pub read_blocks : Block → ℕ → ℕ → (ℕ → ℕ) → ℕ → ℕ
read_blocks b zero i blocks = blocks
read_blocks b (suc k) i blocks = read_blocks b k (i + 1) (update blocks i (b (1 + i)))

pub write_blocks : (ℕ → ℕ) → ℕ → ℕ → Block → Block
write_blocks blocks zero i b = b
write_blocks blocks (suc k) i b = write_blocks blocks k (i + 1) (update b (1 + i) (blocks i))

pub read_log_header : Fs → Fs
read_log_header s =
    let b = s.io.bufs s.lg.start in
    record s { lg = record (s.lg) { n = b 0; blocks = read_blocks b (b 0) 0 s.lg.blocks } }

pub write_log_header : Log → Io → Io
write_log_header lg io =
    let b = update (io.bufs lg.start) 0 lg.n in
    bwrite (set_buf io lg.start (write_blocks lg.blocks lg.n 0 b)) lg.start

abbrev pub clear : Log → Log
clear lg = record lg { n = 0 }

pub recover_from_log : Fs → Fs
recover_from_log s =
    let s' = read_log_header s in
    let lg = s'.lg in
    record { lg = clear lg; io = write_log_header (clear lg) (install_trans true lg s'.io) }

-- `log_init` on the disk `d` after a boot: no buffer is cached, and `static struct log` is zero.
pub log_init : ℕ → ℕ → Disk → Fs
log_init start size d = recover_from_log (record {
  lg = record {
    start = start;
    size = size;
    outstanding = 0;
    committing = false;
    n = 0;
    blocks = λ _. 0;
  };
  io = record { disk = d; bufs = d; pins = λ _. 0; past = d ∷ [] };
})

pub write_from : Log → ℕ → ℕ → Io → Io
write_from lg zero i io = io
write_from lg (suc k) i io = write_from lg k (i + 1) (copy_block io (lg.blocks i) (log_block lg i))

pub write_to_log : Log → Io → Io
write_to_log lg io = write_from lg lg.n 0 io

pub commit : Fs → Fs
commit s =
    let lg = s.lg in
    let logged = write_log_header lg (write_to_log lg s.io) in
    if ltb 0 lg.n
    then record { lg = clear lg; io = write_log_header (clear lg) (install_trans false lg logged) }
    else s

-- One try of `begin_op`; `none` where it waits.
pub begin_op : Fs → Option Fs
begin_op s =
    let lg = s.lg in
    if lg.committing
    then none
    else if ltb log_size (lg.n + (lg.outstanding + 1) * max_op_blks)
    then none
    else some (record s { lg = record lg { outstanding = lg.outstanding + 1 } })

-- The first locked part of `end_op`; the result says whether the caller commits. `outstanding` is
-- at least 1 where a caller has begun an operation.
pub end_op_enter : Fs → Run (Bool × Fs)
end_op_enter s = do
  let lg = record (s.lg) { outstanding = s.lg.outstanding - 1 }
  panic_if lg.committing "end the operation when the log is committing"
  if lg.outstanding == 0
      then ok (true, record s { lg = record lg { committing = true } })
      else ok (false, record s { lg = lg })

-- The second part, by the caller that commits.
pub end_op_commit : Fs → Fs
end_op_commit s = let s' = commit s in record s' { lg = record (s'.lg) { committing = false } }

pub end_op : Fs → Run Fs
end_op s = do (commits, s') ← end_op_enter s; if commits then ok (end_op_commit s') else ok s'

-- The first `i` with `blocks[i] == b`, or the end `i + k`.
pub find_slot : (ℕ → ℕ) → ℕ → ℕ → ℕ → ℕ
find_slot blocks b zero i = i
find_slot blocks b (suc k) i =
    let rest = find_slot blocks b k (i + 1) in if blocks i == b then i else rest

-- `lg.size - 1` is a `uint32_t`.
pub log_write : Fs → ℕ → Run Fs
log_write s b = do
  let lg = s.lg
  panic_if (leb ((lg.size + 2 ^ 32 - 1) % 2 ^ 32) lg.n) "too big a transaction"
  panic_if (ltb lg.outstanding 1) "outside of transaction"
  let i = find_slot lg.blocks b lg.n 0
  let lg' = record lg { blocks = update lg.blocks i b }
  if i == lg.n
      then ok (record {
        lg = record lg' { n = lg.n + 1 };
        io = record (s.io) { pins = update s.io.pins b (s.io.pins b + 1) };
      })
      else ok (record s { lg = lg' })
