-- ===== src/Inode/Write/Content.antt =====
-- What `writei` makes of a file, and reading it back.
use oskernel.Prelude.{
  ltb, ◌==◌, if◌then◌else◌, Bool-cases, update, update_self, ok, ℕ, zero, suc, ◌+◌, ◌-◌, ◌*◌, ◌/◌,
  ◌%◌, ◌≤◌, ◌<◌, ◌≡◌, refl, sym, ap, ◌∙◌, ◌≢◌, inl, inr, true, false, not, ◌&&◌, some, arith,
  ℕ_discrete,
}
use oskernel.Inode.{n_direct, n_indirect, apb, Volume, Inode, bmap_slot, bmap_entry, bmap}
use oskernel.Param.{block_size}
use oskernel.Inode.Write.{overwrite, write_round, write_loop, writei}
use oskernel.Inode.Read.Content.{content, chunk-bounds}
use oskernel.Inode.Read.{chunk}

-- The block of a position, 0 if it has none.
abbrev pub block_of : Volume → Inode → ℕ → ℕ
block_of v inode nth =
    let m = nth - n_direct in
    if ltb nth n_direct
    then inode.addrs nth
    else if ltb m (n_indirect * apb) && not (inode.addrs (n_direct + m / apb) == 0)
    then v.word (inode.addrs (n_direct + m / apb)) (m % apb)
    else 0

pub bmap-block_of :
    (v : Volume) (inode : Inode) (nth : ℕ)
    → block_of v inode nth ≢ 0
    → bmap v inode nth ≡ ok (block_of v inode nth, v, inode)
unfolding bmap bmap_slot bmap_entry
bmap-block_of v inode nth h = ground arith

-- Every byte before `count` has a block, which only positions in that block share.
pub record IsLaidOut (v : Volume) (inode : Inode) (count : ℕ) : Type 0 where
  pub mapped : (i : ℕ) → i < count → block_of v inode (i / block_size) ≢ 0
  pub apart :
      (i j : ℕ)
      → i < count
      → j < count
      → block_of v inode (i / block_size) ≡ block_of v inode (j / block_size)
      → i / block_size ≡ j / block_size

-- Where a byte of the same block is.
block-offset :
    (off i : ℕ) → off / block_size ≡ i / block_size → i % block_size + off ≡ i + off % block_size
block-offset off i e = omega arith

overwrite-shift :
    (f : ℕ → ℕ) (off i len : ℕ) (src : ℕ → ℕ) (j : ℕ)
    → off / block_size ≡ i / block_size
    → overwrite f (off % block_size) len src j (i % block_size)
      ≡ (if not (ltb i off) && ltb i (off + len) then src (j + (i - off)) else f (i % block_size))
overwrite-shift f off i len src j e =
    let shift = block-offset off i e in
    elim (Bool-cases (not (ltb i off) && ltb i (off + len))) [
      | inl inside ↦
          let d : i % block_size - off % block_size ≡ i - off = ground (arith, shift, inside) in
          rw (inside, d) (ground (arith, shift, inside))
      | inr outside ↦ rw outside (ground (arith, shift, outside))
    ]

update-at : (f : ℕ → ℕ → ℕ) (a : ℕ) (g : ℕ → ℕ) (i : ℕ) → update f a g a i ≡ g i
update-at f a g i = ap (λ h. h i) (update_self f a g)

overwrite-chunk :
    (v : Volume) (inode : Inode) (count off len j : ℕ) (src : ℕ → ℕ) (i : ℕ)
    → IsLaidOut v inode count
    → off % block_size + len ≤ block_size
    → off < count
    → i < count
    → let a = block_of v inode (off / block_size) in
      content
        (record v { byte = update v.byte a (overwrite (v.byte a) (off % block_size) len src j) })
        (block_of v inode)
        i
      ≡ overwrite (content v (block_of v inode)) off len src j i
overwrite-chunk v inode count off len j src i laid fits lt lt' =
    elim (ℕ_discrete (off / block_size) (i / block_size)) [
      | yes same ↦
          let a = block_of v inode (off / block_size) in
          let e : block_of v inode (i / block_size) ≡ a = ap (block_of v inode) (sym same) in
          ap
            (λ b.
              update v.byte a (overwrite (v.byte a) (off % block_size) len src j) b
                (i % block_size))
            e
          ∙ update-at v.byte a (overwrite (v.byte a) (off % block_size) len src j) (i % block_size)
          ∙ overwrite-shift (v.byte a) off i len src j same
          ∙ ap
              (λ b.
                if not (ltb i off) && ltb i (off + len)
                then src (j + (i - off))
                else v.byte b (i % block_size))
              (sym e)
      | no other ↦ ground (arith, laid.apart off i lt lt')
    ]

overwrite_join :
    (f g : ℕ → ℕ) (off len n j : ℕ) (src : ℕ → ℕ) (i : ℕ)
    → g i ≡ overwrite f off len src j i
    → len ≤ n
    → overwrite g (off + len) (n - len) src (j + len) i ≡ overwrite f off n src j i
overwrite_join f g off len n j src i e le = elim (Bool-cases (ltb i (off + len))) [
  | inl first ↦ ground (arith, e, first)
  | inr later ↦
      let shift : src (j + len + (i - (off + len))) ≡ src (j + (i - off)) =
        ap src {x = j + len + (i - (off + len))} {y = j + (i - off)} (ground (arith, later)) in
      ground (arith, e, later, shift)
]

-- A round that finds its block and copies all of its bytes.
write_round_lem :
    (src : ℕ → ℕ) (reach : ℕ → ℕ → ℕ) (j off n : ℕ) (v : Volume) (inode : Inode) (a : ℕ)
    → bmap v inode (off / block_size) ≡ ok (a, v, inode)
    → a ≢ 0
    → reach j (chunk off n) ≡ chunk off n
    → write_round src reach j off n v inode
      ≡ ok (
        true,
        record v {
          byte = update v.byte a (overwrite (v.byte a) (off % block_size) (chunk off n) src j);
        },
        inode,
      )
unfolding write_round
write_round_lem src reach j off n v inode a here set all = rw here (rw all (ground arith))

pub writes-file :
    (src : ℕ → ℕ) (reach : ℕ → ℕ → ℕ) (fuel j off n count : ℕ) (v : Volume) (inode : Inode)
    → IsLaidOut v inode count
    → off + n ≤ count
    → ((i len : ℕ) → reach i len ≡ len)
    → n ≤ fuel
    → (b : ℕ → ℕ → ℕ) × (write_loop src reach fuel j off n v inode
        ≡ ok (record { left = 0; off = off + n; volume = record v { byte = b }; inode = inode }))
      × ((i : ℕ)
          → i < count
          → content (record v { byte = b }) (block_of v inode) i
            ≡ overwrite (content v (block_of v inode)) off n src j i)
unfolding write_loop
writes-file src reach zero j off n count v inode laid fits all le =
    let e : n ≡ 0 = omega arith in (v.byte, rw (write_loop, e) (ground arith), λ i lt. ground arith)
writes-file src reach (suc fuel) j off n count v inode laid fits all le = elim (ℕ_discrete n 0) [
  | yes e ↦ (v.byte, rw (e, write_loop) (ground arith), λ i lt. ground arith)
  | no more ↦
      let a = block_of v inode (off / block_size) in
      let len = chunk off n in
      let (start, len_le, some_bytes) = chunk-bounds off n more in
      let b1 = update v.byte a (overwrite (v.byte a) (off % block_size) len src j) in
      let v1 : Volume = record v { byte = b1 } in
      let laid1 : IsLaidOut v1 inode count = record { mapped = laid.mapped; apart = laid.apart } in
      let (b, run, same) =
        writes-file src reach fuel (j + len) (off + len) (n - len) count v1 inode laid1
          (omega arith) all (omega arith) in
      let ne : (n == 0) ≡ false = ground arith in
      let set = laid.mapped off (omega arith) in
      let here = bmap-block_of v inode (off / block_size) set in
      (
        b,
        rw (ne, write_loop)
            (rw (write_round_lem src reach j off n v inode a here set (all j len)) (
              run
              ∙ ap
                  (λ o.
                    ok
                      (record { left = 0; off = o; volume = record v { byte = b }; inode = inode }))
                  (omega arith))),
        λ i lt.
            same i lt
            ∙ overwrite_join (content v (block_of v inode)) (content v1 (block_of v inode)) off len
                n j src i
                (overwrite-chunk v inode count off len j src i laid start (omega arith) lt) len_le,
      )
]

overwrite_zero :
    (f : ℕ → ℕ) (off n : ℕ) (src : ℕ → ℕ) (i : ℕ)
    → overwrite f off n src 0 i
      ≡ (if not (ltb i off) && ltb i (off + n) then src (i - off) else f i)
overwrite_zero f off n src i =
    ap (λ k. if not (ltb i off) && ltb i (off + n) then src k else f i) (omega arith)

-- Writing `n` bytes at an offset within a file, over blocks that it has, when every copy from the
-- caller succeeds: `writei` returns `n`, the file's bytes from `off` to `off + n` become those of the
-- source and the others stay, and the size becomes `off + n` if that is larger; it never panics.
pub writei_lem :
    (src : ℕ → ℕ) (reach : ℕ → ℕ → ℕ) (off n count : ℕ) (v : Volume) (inode : Inode)
    → IsLaidOut v inode count
    → off ≤ inode.size
    → off + n ≤ count
    → ((i len : ℕ) → reach i len ≡ len)
    → (b : ℕ → ℕ → ℕ) × (writei src reach off n v inode
        ≡ ok (
            some (
              n,
              record v { byte = b },
              (if ltb inode.size (off + n) then record inode { size = off + n } else inode),
            )))
      × ((i : ℕ)
          → i < count
          → content (record v { byte = b }) (block_of v inode) i ≡ (
              if not (ltb i off) && ltb i (off + n)
              then src (i - off)
              else content v (block_of v inode) i))
unfolding writei
writei_lem src reach off n count v inode laid inside fits all =
    let (b, run, same) =
      writes-file src reach n 0 off n count v inode laid fits all (omega arith) in
    let within : ltb inode.size off ≡ false = ground arith in
    let back : n - 0 ≡ n = omega arith in
    (
      b,
      rw within (rw run (rw back refl)),
      λ i lt. same i lt ∙ overwrite_zero (content v (block_of v inode)) off n src i,
    )
