-- ===== src/Descriptors/Request.antt =====
-- `virtio_disk_rw` of kernel/dev/virtio_disk.c from one wait to the next, and `virtio_disk_intr`.
-- What the device writes is in `used`, `used_idx_device` and the status bytes.
pub mod Chain
pub mod Interrupt
use oskernel.Prelude.{
  ◌==◌, if◌then◌else◌, update, Run, ok, panic, ◌>>=◌, ◌>>◌, panic_if, ℕ, zero, suc, ◌+◌, ◌-◌, ◌*◌,
  ◌%◌, ◌^◌, Bool, true, false, not, Option, none, some, List, [], ◌∷◌,
}
use oskernel.Descriptors.{num, Desc, Queue, free_desc, alloc3_desc}

-- `struct virtio_blk_req` and `struct virtio_disk_track_info`; a buffer is its number.
pub record Req : Type 0 where
  pub type : ℕ
  pub reserved : ℕ
  pub sector : ℕ

pub record Info : Type 0 where
  pub buffer : Option ℕ
  pub status : ℕ

-- `struct virtio_disk`; `busy` is the field `disk` of each buffer, `ring` and `used` the rings of
-- `avail` and `used`.
pub record Disk : Type 0 where
  pub queue : Queue
  pub ops : ℕ → Req
  pub info : ℕ → Info
  pub ring : ℕ → ℕ
  pub avail_idx : ℕ
  pub used : ℕ → ℕ
  pub used_idx_device : ℕ
  pub used_idx : ℕ
  pub busy : ℕ → Bool

-- Where `disk.ops[i]`, the data of a buffer and `disk.info[i].status` stand in memory.
pub record Places : Type 0 where
  pub req : ℕ → ℕ
  pub block : ℕ → ℕ
  pub status : ℕ → ℕ

-- The three descriptors of a request: its header, the data of buffer `b`, and the status.
abbrev pub chain : Places → (ℕ → Desc) → ℕ → ℕ → ℕ → ℕ → Bool → ℕ → Desc
chain at desc x y z b is_write =
    let header : Desc = record { addr = at.req x; len = 16; flags = 1; next = y } in
    let middle : Desc = record {
      addr = at.block b;
      len = 1024;
      flags = if is_write then 1 else 3;
      next = z;
    } in
    let status : Desc = record { addr = at.status x; len = 1; flags = 2; next = 0 } in
    update (update (update desc x header) y middle) z status

-- `virtio_disk_rw` with its descriptors, up to the wait for the device.
unfoldable pub request : Places → Disk → ℕ → ℕ → Bool → List ℕ → Option ℕ × Disk
request at d b bno is_write (x ∷ y ∷ z ∷ []) =
    let req : Req = record {
      type = if is_write then 1 else 0;
      reserved = 0;
      sector = bno * 2 % 2 ^ 32;
    } in
    let info : Info = record { buffer = some b; status = 255 } in
    (
      some x,
      record d {
        queue = record (d.queue) { desc = chain at d.queue.desc x y z b is_write };
        ops = update d.ops x req;
        info = update d.info x info;
        ring = update d.ring (d.avail_idx % num) x;
        avail_idx = (d.avail_idx + 1) % 65536;
        busy = update d.busy b true;
      },
    )
request at d b bno is_write _ = (none, d)

-- The first half of `virtio_disk_rw`: the first descriptor of the request, or `none` where it waits for
-- descriptors.
unfoldable pub rw_start : Places → Disk → ℕ → ℕ → Bool → Run (Option ℕ × Disk)
rw_start at d b bno is_write = do
  (r, q) ← alloc3_desc d.queue
  elim r [
    | none ↦ ok (none, record d { queue = q })
    | some idx ↦ ok (request at (record d { queue = q }) b bno is_write idx)
  ]

-- `free_chain` for `fuel` rounds at most; `none` if they do not come to the end. No descriptor is freed
-- twice, so there are never more rounds than descriptors.
pub free_chain : ℕ → Queue → ℕ → Run (Option Queue)
free_chain zero q i = ok none
free_chain (suc fuel) q i = do
  let d = q.desc i
  q' ← free_desc q i
  elim (d.flags % 2 == 1) [ false ↦ ok (some q') | true ↦ free_chain fuel q' d.next ]

-- The end of `virtio_disk_rw`, when the device is done with the request at `i`.
pub rw_end : Disk → ℕ → Run (Option Disk)
rw_end d i = do
  r ← free_chain (num + 1) d.queue i
  let info : Info = record (d.info i) { buffer = none }
  elim r [
    | none ↦ ok none
    | some q ↦ ok (some (record d { queue = q; info = update d.info i info }))
  ]

-- A round of `virtio_disk_intr`; a buffer that is NULL is left to fault.
pub complete : Disk → Run Disk
complete d = do
  let info = d.info (d.used (d.used_idx % num))
  panic_if (not (info.status == 0)) "virtio disk interrupt status"
  elim info.buffer [
    | none ↦ panic "NULL buffer"
    | some b ↦ ok (record d { busy = update d.busy b false; used_idx = (d.used_idx + 1) % 65536 })
  ]

-- The loop, for `fuel` rounds at most; `virtio_disk_intr` has as many as there are entries.
pub intr_loop : ℕ → Disk → Run Disk
intr_loop zero d = ok d
intr_loop (suc fuel) d = elim (d.used_idx == d.used_idx_device) [
  | true ↦ ok d
  | false ↦ do d' ← complete d; intr_loop fuel d'
]

pub virtio_disk_intr : Disk → Run Disk
virtio_disk_intr d = intr_loop ((d.used_idx_device + 65536 - d.used_idx) % 65536) d
