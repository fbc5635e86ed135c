-- ===== src/Inode.antt =====
-- kernel/fs/inode.c: the bitmap of data blocks, the block map of an i-node, reading and truncating.
-- A byte of the bitmap is its eight bits. A block has its 32-bit words, as the indirect blocks use
-- them, and its bytes, as the data blocks do; no block is used in both ways. Every change goes
-- through `log_write`, so the state is that of the buffers.
pub mod Bitmap
pub mod Blocks
pub mod Map
pub mod Read
pub mod Write
pub mod Table
mod Tests
use oskernel.Prelude.{
  ltb, ◌==◌, if◌then◌else◌, update, Run, ok, panic, ℕ, zero, suc, ◌+◌, ◌-◌, ◌*◌, ◌/◌, ◌%◌, Bool,
  true, false, Option, none, some,
}
use oskernel.Param.{block_size}

abbrev pub n_direct : ℕ
n_direct = 10

abbrev pub n_indirect : ℕ
n_indirect = 3

-- `APB`, the addresses in a block.
abbrev pub apb : ℕ
apb = block_size / 4

pub record Volume : Type 0 where
  pub data_start : ℕ
  pub bits : ℕ → ℕ → Bool
  pub word : ℕ → ℕ → ℕ
  pub byte : ℕ → ℕ → ℕ

-- `struct m_inode`: what the block map uses.
pub record Inode : Type 0 where
  pub size : ℕ
  pub addrs : ℕ → ℕ

abbrev pub set_bit : (ℕ → ℕ → Bool) → ℕ → ℕ → Bool → ℕ → ℕ → Bool
set_bit bits byte shift v = update bits byte (update (bits byte) shift v)

-- The inner and the outer loop of `balloc`: the first clear bit, from bit `shift` of a byte and from
-- byte `byte` on.
unfoldable pub scan_byte : (ℕ → Bool) → ℕ → ℕ → Option ℕ
scan_byte bits zero shift = none
scan_byte bits (suc k) shift =
    let rest = scan_byte bits k (shift + 1) in if bits shift then rest else some shift

pub scan_bytes : (ℕ → ℕ → Bool) → ℕ → ℕ → Option (ℕ × ℕ)
scan_bytes bits zero byte = none
scan_bytes bits (suc k) byte =
    let rest = scan_bytes bits k (byte + 1) in
    elim (scan_byte (bits byte) 8 0) [ none ↦ rest | some shift ↦ some (byte, shift) ]

pub bzero : Volume → ℕ → Volume
bzero v bno = record v { word = update v.word bno (λ _. 0); byte = update v.byte bno (λ _. 0) }

-- The block, or 0 if there is none.
pub balloc : Volume → ℕ × Volume
balloc v = elim (scan_bytes v.bits block_size 0) [
  | none ↦ (0, v)
  | some (byte, shift) ↦
      let bno = byte * 8 + shift + v.data_start in
      (bno, bzero (record v { bits = set_bit v.bits byte shift true }) bno)
]

pub bfree : Volume → ℕ → Volume
bfree v bno = let k = bno - v.data_start in record v { bits = set_bit v.bits (k / 8) (k % 8) false }

-- The direct part of `bmap`, and the slot of an indirect block: allocate where the entry is 0.
unfoldable pub bmap_slot : Volume → Inode → ℕ → ℕ × Volume × Inode
bmap_slot v inode i =
    let (a, v') = balloc v in
    if inode.addrs i == 0
    then (a, v', record inode { addrs = update inode.addrs i a })
    else (inode.addrs i, v, inode)

-- Entry `j` of the indirect block `b`.
pub bmap_entry : Volume → ℕ → ℕ → ℕ × Volume
bmap_entry v b j =
    let (a, v') = balloc v in
    if v.word b j == 0
    then (a, record v' { word = update v'.word b (update (v'.word b) j a) })
    else (v.word b j, v)

unfoldable pub bmap : Volume → Inode → ℕ → Run (ℕ × Volume × Inode)
bmap v inode nth =
    let m = nth - n_direct in
    if ltb nth n_direct
    then ok (bmap_slot v inode nth)
    else if ltb m (n_indirect * apb)
    then (let (b, v', inode') = bmap_slot v inode (n_direct + m / apb) in
        if b == 0
        then ok (0, v', inode')
        else (let (a, v'') = bmap_entry v' b (m % apb) in ok (a, v'', inode')))
    else panic "the maximum number of blocks for a single file"

-- The loops of `itrunc`, over the entries from `i` on: of an indirect block, the direct blocks and
-- the indirect blocks.
pub free_entries : (ℕ → ℕ) → ℕ → ℕ → Volume → Volume
free_entries entries zero j v = v
free_entries entries (suc k) j v =
    free_entries entries k (j + 1) (if entries j == 0 then v else bfree v (entries j))

pub free_direct : ℕ → ℕ → Volume × Inode → Volume × Inode
free_direct zero i s = s
free_direct (suc k) i (v, inode) = free_direct k (i + 1) (
    if inode.addrs i == 0
    then (v, inode)
    else (bfree v (inode.addrs i), record inode { addrs = update inode.addrs i 0 }))

pub free_indirect : ℕ → ℕ → Volume × Inode → Volume × Inode
free_indirect zero i s = s
free_indirect (suc k) i (v, inode) = free_indirect k (i + 1) (
    if inode.addrs i == 0 then (v, inode) else (
      bfree (free_entries (v.word (inode.addrs i)) apb 0 v) (inode.addrs i),
      record inode { addrs = update inode.addrs i 0 },
    ))

-- Up to the `iupdate` at its end, which Inode/Table models.
pub itrunc : Volume × Inode → Volume × Inode
itrunc s =
    let (v, inode) = free_indirect n_indirect n_direct (free_direct n_direct 0 s) in
    (v, record inode { size = 0 })
