-- ===== src/Inode/Table/Life.antt =====
-- `ialloc` and `iput`: the life of an i-node.
use oskernel.Prelude.{◌==◌, update_self, ℕ, ◌-◌, ◌≡◌, refl, ap, ◌∙◌, true, false, ◌&&◌, arith}
use oskernel.Inode.{itrunc}
use oskernel.Inode.Table.{Entry, Table, iupdate, forget, iput}

-- What `forget` leaves.
forget_lem :
    (t : Table) (i : ℕ)
    → let t' = forget t i in
      ((t'.entry i).refcnt ≡ (t.entry i).refcnt)
      × ((t'.entry i).valid ≡ false)
      × ((t'.disk (t.entry i).ino).type ≡ 0)
      × ((t'.disk (t.entry i).ino).map.size ≡ 0)
      × (t'.ibits ≡ t.ibits)
unfolding forget iupdate itrunc
forget_lem t i =
    let self : (i == i) ≡ true = ground arith in
    let self' : ((t.entry i).ino == (t.entry i).ino) ≡ true = ground arith in
    rw self (rw self' (refl, refl, refl, refl, refl))

-- The last `iput` of an i-node without links truncates it and clears its type on the disk, and its
-- entry can be used again; but the bitmap of i-nodes is as before, so that the number stays taken.
pub iput_unlinked :
    (t : Table) (i : ℕ)
    → (t.entry i).refcnt ≡ 1
    → (t.entry i).valid ≡ true
    → (t.entry i).node.nlink ≡ 0
    → let t' = iput t i in
      ((t'.entry i).refcnt ≡ 0)
      × ((t'.entry i).valid ≡ false)
      × ((t'.disk (t.entry i).ino).type ≡ 0)
      × ((t'.disk (t.entry i).ino).map.size ≡ 0)
      × (t'.ibits ≡ t.ibits)
unfolding iput
iput_unlinked t i one valid unlinked =
    let last : ((t.entry i).refcnt == 1 && ((t.entry i).valid && (t.entry i).node.nlink == 0))
        ≡ true =
      ground (arith, one, valid, unlinked) in
    let (count, invalid, type, size, bits) = forget_lem t i in
    let t' = forget t i in
    let dropped : Entry = record (t'.entry i) { refcnt = (t'.entry i).refcnt - 1 } in
    let self = update_self t'.entry i dropped in
    rw last (
      ap (λ (e : Entry). e.refcnt) self ∙ omega (arith, count, one),
      ap (λ (e : Entry). e.valid) self ∙ invalid,
      type,
      size,
      bits,
    )
