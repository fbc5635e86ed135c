-- ===== src/Inode/Map.antt =====
-- `bmap`: once it has given a block for a position, it gives the same block and changes nothing.
use oskernel.Prelude.{
  ltb, ◌==◌, if◌then◌else◌, Bool-cases, Run, ok, panic, ℕ, ◌+◌, ◌-◌, ◌*◌, ◌/◌, ◌%◌, ◌≤◌, ◌≡◌, ap,
  subst, ◌≢◌, ◌↔◌, inl, inr, arith, ℕ_discrete,
}
use oskernel.Inode.{n_direct, n_indirect, apb, Volume, Inode, bmap_slot, bmap_entry, bmap}

bmap_slot-again :
    (v w : Volume) (inode : Inode) (i : ℕ)
    → let (a, _, inode') = bmap_slot v inode i in a ≢ 0 → bmap_slot w inode' i ≡ (a, w, inode')
unfolding bmap_slot
bmap_slot-again v w inode i = elim (Bool-cases (inode.addrs i == 0)) [
  | inl unset ↦ rw unset (λ h. ground arith)
  | inr known ↦ rw known (λ h. ground arith)
]

bmap_entry-again :
    (v : Volume) (b j : ℕ) → let (a, v') = bmap_entry v b j in a ≢ 0 → bmap_entry v' b j ≡ (a, v')
unfolding bmap_entry
bmap_entry-again v b j = elim (Bool-cases (v.word b j == 0)) [
  | inl unset ↦ rw unset (λ h. ground arith)
  | inr known ↦ rw known (λ h. ground arith)
]

slot-keeps :
    (v w v' : Volume) (inode inode' : Inode) (i a : ℕ)
    → bmap_slot v inode i ≡ (a, v', inode')
    → a ≢ 0
    → bmap_slot w inode' i ≡ (a, w, inode')
slot-keeps v w v' inode inode' i a e =
    subst (λ (r : ℕ × Volume × Inode). r.0 ≢ 0 → bmap_slot w r.2 i ≡ (r.0, w, r.2)) e
      (bmap_slot-again v w inode i)

entry-keeps :
    (v v' : Volume) (b j a : ℕ) → bmap_entry v b j ≡ (a, v') → a ≢ 0 → bmap_entry v' b j ≡ (a, v')
entry-keeps v v' b j a e =
    subst (λ (r : ℕ × Volume). r.0 ≢ 0 → bmap_entry r.1 b j ≡ r) e (bmap_entry-again v b j)

-- The part of `bmap` behind the lookup of the indirect block.
abbrev behind : ℕ × Volume × Inode → ℕ → Run (ℕ × Volume × Inode)
behind (b, v, inode) j =
    if b == 0 then ok (0, v, inode) else (let (a, v') = bmap_entry v b j in ok (a, v', inode))

behind-again :
    (v v' : Volume) (inode inode' : Inode) (i j a : ℕ)
    → behind (bmap_slot v inode i) j ≡ ok (a, v', inode')
    → a ≢ 0
    → behind (bmap_slot v' inode' i) j ≡ ok (a, v', inode')
behind-again v v' inode inode' i j a e h =
    let (b, v1, inode1) = bmap_slot v inode i in
    elim (ℕ_discrete b 0) [
      | yes none_left ↦ ground (arith, e, none_left, h)
      | no found ↦
          let same : inode1 ≡ inode' = ground (arith, e, found) in
          let entry : bmap_entry v1 b j ≡ (a, v') = ground (arith, e, found) in
          let slot : bmap_slot v' inode' i ≡ (b, v', inode') =
            slot-keeps v v' v1 inode inode' i b ground (arith, e, found) found in
          rw slot (ground (arith, found, entry-keeps v1 v' b j a entry h))
    ]

-- A position whose block `bmap` has found or allocated keeps it: a second call returns the same block
-- and leaves the volume and the i-node as they are.
pub bmap-again :
    (v v' : Volume) (inode inode' : Inode) (nth a : ℕ)
    → bmap v inode nth ≡ ok (a, v', inode')
    → a ≢ 0
    → bmap v' inode' nth ≡ ok (a, v', inode')
unfolding bmap
bmap-again v v' inode inode' nth a e h = elim (Bool-cases (ltb nth n_direct)) [
  | inl direct ↦
      let slot : bmap_slot v inode nth ≡ (a, v', inode') = ground (arith, e, direct) in
      rw direct (ap ok (slot-keeps v v' v' inode inode' nth a slot h))
  | inr far ↦ elim (Bool-cases (ltb (nth - n_direct) (n_indirect * apb))) [
    | inl inside ↦
        let both : behind (bmap_slot v inode (n_direct + (nth - n_direct) / apb))
              ((nth - n_direct) % apb)
            ≡ ok (a, v', inode') =
          ground (arith, e, far, inside) in
        rw (far, inside)
          (behind-again v v' inode inode' (n_direct + (nth - n_direct) / apb)
            ((nth - n_direct) % apb) a both h)
    | inr outside ↦ ground (arith, e, far, outside)
  ]
]

-- `bmap` panics exactly for the positions behind the last one that an i-node can map.
pub bmap_limit :
    (v : Volume) (inode : Inode) (nth : ℕ)
    → (n_direct + n_indirect * apb ≤ nth)
      ↔ (bmap v inode nth ≡ panic "the maximum number of blocks for a single file")
unfolding bmap
bmap_limit v inode nth = ((λ h. ground arith), (λ h. ground arith))
