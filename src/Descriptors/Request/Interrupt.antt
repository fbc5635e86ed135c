-- ===== src/Descriptors/Request/Interrupt.antt =====
-- `virtio_disk_intr` handles every entry that the device has written.
use oskernel.Prelude.{
  ◌==◌, update, update_self, ok, ℕ, zero, suc, ◌+◌, ◌-◌, ◌%◌, ◌<◌, ◌≡◌, refl, sym, ap, ◌∙◌, subst,
  true, false, some, arith, ℕ_discrete,
}
use oskernel.Descriptors.{num}
use oskernel.Descriptors.Request.{Info, Disk, complete, intr_loop, virtio_disk_intr}

-- Entry `k` of those that the driver has not seen: the first descriptor of a request.
unfoldable pub entry : Disk → ℕ → ℕ
entry d k = d.used ((d.used_idx + k) % 65536 % num)

-- The disk once the entry at hand, for buffer `b`, is handled.
abbrev handled : Disk → ℕ → Disk
handled d b = record d { busy = update d.busy b false; used_idx = (d.used_idx + 1) % 65536 }

-- A request that is done, for buffer `b`.
abbrev pub IsDone : Info → ℕ → Type 0
IsDone info b = (info.status ≡ 0) × (info.buffer ≡ some b)

entry-handled : (d : Disk) (b k : ℕ) → entry (handled d b) k ≡ entry d (suc k)
unfolding entry
entry-handled d b k =
    let e : ((d.used_idx + 1) % 65536 + k) % 65536 ≡ (d.used_idx + suc k) % 65536 = omega arith in
    ap (λ i. d.used (i % num)) e

complete-IsDone :
    (d : Disk) (b : ℕ)
    → d.used_idx < 65536
    → IsDone (d.info (entry d 0)) b
    → complete d ≡ ok (handled d b)
unfolding complete entry IsDone
complete-IsDone d b small (status, buffer) =
    let e : (d.used_idx + 0) % 65536 ≡ d.used_idx = omega arith in
    let here : d.used ((d.used_idx + 0) % 65536 % num) ≡ d.used (d.used_idx % num) =
      ap (λ i. d.used (i % num)) e in
    let fine : ((d.info (d.used (d.used_idx % num))).status == 0) ≡ true =
      ground (arith, sym (ap (λ i. (d.info i).status) here) ∙ status) in
    rw fine (rw (sym (ap (λ i. (d.info i).buffer) here) ∙ buffer) refl)

intr_loop-suc :
    (fuel : ℕ) (d d1 : Disk)
    → (d.used_idx == d.used_idx_device) ≡ false
    → complete d ≡ ok d1
    → intr_loop (suc fuel) d ≡ intr_loop fuel d1
unfolding intr_loop
intr_loop-suc fuel d d1 more step = rw (more, intr_loop) (rw (step, intr_loop) refl)

intr_loop_lem :
    (fuel : ℕ) (d : Disk) (owner : ℕ → ℕ)
    → d.used_idx < 65536
    → fuel < 65536
    → (d.used_idx + fuel) % 65536 ≡ d.used_idx_device
    → ((k : ℕ) → k < fuel → IsDone (d.info (entry d k)) (owner (entry d k)))
    → (d' : Disk) × (intr_loop fuel d ≡ ok d')
      × (d'.used_idx ≡ d.used_idx_device)
      × ((k : ℕ) → k < fuel → d'.busy (owner (entry d k)) ≡ false)
      × ((b : ℕ) → d.busy b ≡ false → d'.busy b ≡ false)
unfolding intr_loop
intr_loop_lem zero d owner small short e done =
    (d, refl, omega arith, λ k lt. absurd (omega arith), λ b h. h)
intr_loop_lem (suc fuel) d owner small short e done =
    let b = owner (entry d 0) in
    let d1 = handled d b in
    let more : (d.used_idx == d.used_idx_device) ≡ false = ground arith in
    let step : complete d ≡ ok d1 = complete-IsDone d b small (done 0 (omega arith)) in
    let next : (k : ℕ) → k < fuel → IsDone (d.info (entry d1 k)) (owner (entry d1 k)) = λ k lt.
      subst (λ i. IsDone (d.info i) (owner i)) (sym (entry-handled d b k))
        (done (suc k) (omega arith)) in
    let (d', run, idx, idle, kept) =
      intr_loop_lem fuel d1 owner (omega arith) (omega arith) (omega arith) next in
    (
      d',
      intr_loop-suc fuel d d1 more step ∙ run,
      idx,
      λ k lt. elim (ℕ_discrete k 0) [
        | yes zeroth ↦
            ap (λ i. d'.busy (owner (entry d i))) zeroth ∙ kept b (update_self d.busy b false)
        | no later ↦
            let j = k - 1 in
            let e : suc j ≡ k = omega arith in
            ap (λ i. d'.busy (owner i)) (sym (entry-handled d b j ∙ ap (entry d) e))
            ∙ idle j (omega arith)
      ],
      λ c h. kept c (elim (ℕ_discrete b c) [
        | yes same ↦ ground (arith, same)
        | no other ↦ ground (arith, other, h)
      ]),
    )

-- When the requests that the device has written into `used` since the last interrupt are done, that is
-- their status is 0 and their buffer known, `virtio_disk_intr` comes to the device's index without a
-- panic, and after it the buffer of each of these requests no longer waits for the disk.
pub virtio_disk_intr_lem :
    (d : Disk) (owner : ℕ → ℕ)
    → d.used_idx < 65536
    → d.used_idx_device < 65536
    → ((k : ℕ)
        → k < (d.used_idx_device + 65536 - d.used_idx) % 65536
        → IsDone (d.info (entry d k)) (owner (entry d k)))
    → (d' : Disk) × (virtio_disk_intr d ≡ ok d')
      × (d'.used_idx ≡ d.used_idx_device)
      × ((k : ℕ)
          → k < (d.used_idx_device + 65536 - d.used_idx) % 65536
          → d'.busy (owner (entry d k)) ≡ false)
unfolding virtio_disk_intr
virtio_disk_intr_lem d owner small small' done =
    let (d', run, idx, idle, _) =
      intr_loop_lem ((d.used_idx_device + 65536 - d.used_idx) % 65536) d owner small (omega arith)
        (omega arith) done in
    (d', run, idx, idle)
