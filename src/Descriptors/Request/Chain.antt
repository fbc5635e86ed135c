-- ===== src/Descriptors/Request/Chain.antt =====
-- A request of `virtio_disk_rw` gives back the descriptors that it took, and no others.
use oskernel.Prelude.{update, Run, ok, panic, ℕ, true, Option, some}
use oskernel.Descriptors.{Queue}
use oskernel.Descriptors.Request.{Disk}

-- The queue once descriptor `i` is freed.
abbrev pub without : Queue → ℕ → Queue
without q i = record {
  free = update q.free i true;
  desc = update q.desc i (record { addr = 0; len = 0; flags = 0; next = 0 });
}

-- What `rw_start` gives, with defaults for a panic and for a wait.
abbrev first_of : Run (Option ℕ × Disk) → ℕ
first_of (ok (some i, d)) = i
first_of _ = 0

abbrev disk_of : Disk → Run (Option ℕ × Disk) → Disk
disk_of d (ok (r, d')) = d'
disk_of d (panic m) = d
