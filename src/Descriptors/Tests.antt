-- ===== src/Descriptors/Tests.antt =====
-- Descriptors 0 and 2 are taken.
use oskernel.Prelude.{
  ◌==◌, update, ok, ℕ, ◌+◌, ◌<◌, ◌≡◌, refl, false, not, ◌&&◌, Option, none, some, [], ◌∷◌, arith,
}
use oskernel.Descriptors.{Queue, alloc3_desc}
use oskernel.Descriptors.Three.{TakesThree, alloc3_desc-TakesThree}
use oskernel.Descriptors.Request.{Disk, Places, request, virtio_disk_intr}
use oskernel.Descriptors.Request.Interrupt.{virtio_disk_intr_lem}

abbrev queue : Queue
queue = record {
  free = λ i. not (i == 0) && not (i == 2);
  desc = λ _. record { addr = 0; len = 0; flags = 0; next = 0 };
}

alloc3_desc-TakesThree_example : TakesThree queue (alloc3_desc queue)
alloc3_desc-TakesThree_example = alloc3_desc-TakesThree queue

abbrev started_queue : Queue
started_queue = record queue { free = update (update (update queue.free 1 false) 3 false) 4 false }

abbrev places : Places
places = record { req = λ i. 100 + i; block = λ i. 200 + i; status = λ i. 300 + i }

-- Nothing is asked of the disk yet.
abbrev disk : Disk
disk = record {
  queue = queue;
  ops = λ _. record { type = 0; reserved = 0; sector = 0 };
  info = λ _. record { buffer = none; status = 0 };
  ring = λ _. 0;
  avail_idx = 65535;
  used = λ _. 1;
  used_idx_device = 0;
  used_idx = 65535;
  busy = λ _. false;
}

-- Buffer 5 is read from block 7, with descriptors 1, 3 and 4.
abbrev started : Option ℕ × Disk
started = request places (record disk { queue = started_queue }) 5 7 false (1 ∷ 3 ∷ 4 ∷ [])

-- The device is done with that request.
abbrev written : Disk
written = record started.1 { info = λ _. record { buffer = some 5; status = 0 } }

virtio_disk_intr_lem_example :
    (d : Disk) × (virtio_disk_intr written ≡ ok d)
    × (d.used_idx ≡ 0)
    × ((k : ℕ) → k < 1 → d.busy 5 ≡ false)
unfolding request
virtio_disk_intr_lem_example =
    virtio_disk_intr_lem written (λ _. 5) (omega arith) (omega arith) (λ k _. (refl, refl))
