-- ===== src/Inode/Table.antt =====
-- The table of i-nodes in kernel/fs/inode.c. A function holds `itable.lock`; the sleep locks of the
-- i-nodes are left out, so `ilock` is what it does once it has the lock. The i-nodes on the disk are an
-- array, of which a block holds several.
pub mod Unique
pub mod Life
use oskernel.Prelude.{
  ltb, ◌==◌, if◌then◌else◌, update, Run, ok, panic, ◌>>=◌, ◌>>◌, panic_if, ℕ, zero, suc, ◌+◌, ◌-◌,
  ◌*◌, Bool, true, false, not, ◌&&◌, Option, none, some,
}
use oskernel.Param.{block_size, n_inode}
use oskernel.Inode.{Volume, Inode, set_bit, itrunc}

-- `struct d_inode`; a type of 0 is none.
pub record DInode : Type 0 where
  pub type : ℕ
  pub major : ℕ
  pub minor : ℕ
  pub nlink : ℕ
  pub map : Inode

-- `struct m_inode`.
pub record Entry : Type 0 where
  pub dev : ℕ
  pub ino : ℕ
  pub refcnt : ℕ
  pub valid : Bool
  pub node : DInode

-- `disk` has the i-nodes as the buffers have them, `ibits` the bitmap of i-nodes.
pub record Table : Type 0 where
  pub entry : ℕ → Entry
  pub disk : ℕ → DInode
  pub ibits : ℕ → ℕ → Bool
  pub volume : Volume

abbrev pub is_node : Entry → ℕ → ℕ → Bool
is_node e dev ino = not (e.refcnt == 0) && (e.dev == dev && e.ino == ino)

-- What the loop of `iget` finds in `k` entries from `i` on: an entry for the i-node, or else the first
-- that is empty, where `empty` is what it has found of these so far.
pub data Found : Type 0 where
  present : ℕ → Found
  absent : Option ℕ → Found

abbrev pub or_this : Option ℕ → Entry → ℕ → Option ℕ
or_this (some j) e i = some j
or_this none e i = if e.refcnt == 0 then some i else none

pub find : (ℕ → Entry) → ℕ → ℕ → ℕ → ℕ → Option ℕ → Found
find entry dev ino zero i empty = absent empty
find entry dev ino (suc k) i empty =
    let rest = find entry dev ino k (i + 1) (or_this empty (entry i) i) in
    if is_node (entry i) dev ino then present i else rest

pub iget : Table → ℕ → ℕ → Run (ℕ × Table)
iget t dev ino = elim (find t.entry dev ino n_inode 0 none) [
  | present i ↦ ok (
    i,
    record t { entry = update t.entry i (record (t.entry i) { refcnt = (t.entry i).refcnt + 1 }) },
  )
  | absent none ↦ panic "no inodes"
  | absent (some i) ↦
      let fresh : Entry = record (t.entry i) { dev = dev; ino = ino; refcnt = 1; valid = false } in
      ok (i, record t { entry = update t.entry i fresh })
]

pub idup : Table → ℕ → Run Table
idup t i = do
  panic_if (ltb (t.entry i).refcnt 1) "duplicate an invalid inode"
  ok (record t {
    entry = update t.entry i (record (t.entry i) { refcnt = (t.entry i).refcnt + 1 });
  })

pub ilock : Table → ℕ → Run Table
ilock t i = do
  let e = t.entry i
  let loaded : Entry = record e { node = t.disk e.ino; valid = true }
  panic_if (ltb e.refcnt 1) "lock an invalid inode"
  panic_if (not e.valid && loaded.node.type == 0) "inode has no type"
  ok (if e.valid then t else record t { entry = update t.entry i loaded })

unfoldable pub iupdate : Table → ℕ → Table
iupdate t i = record t { disk = update t.disk (t.entry i).ino (t.entry i).node }

-- What `iput` does to the last reference of an i-node without links, before it drops the reference.
-- `itrunc` writes the i-node to the disk too, and `iupdate` writes it again.
pub forget : Table → ℕ → Table
forget t i =
    let e = t.entry i in
    let (v, map) = itrunc (t.volume, e.node.map) in
    let cut : Entry = record e { node = record (e.node) { map = map; type = 0 } } in
    let t1 = iupdate (record t { entry = update t.entry i cut; volume = v }) i in
    record t1 { entry = update t1.entry i (record cut { valid = false }) }

-- `iput` of an entry to which there is a reference.
pub iput : Table → ℕ → Table
iput t i =
    let e = t.entry i in
    let t' = if e.refcnt == 1 && (e.valid && e.node.nlink == 0) then forget t i else t in
    record t' {
      entry = update t'.entry i (record (t'.entry i) { refcnt = (t'.entry i).refcnt - 1 });
    }

-- The loops of `ialloc`, over the bits of byte `byte` from `shift` on, and over the bytes.
pub free_in : (ℕ → Bool) → ℕ → ℕ → ℕ → Option ℕ
free_in bits byte zero shift = none
free_in bits byte (suc k) shift =
    let rest = free_in bits byte k (shift + 1) in
    if not (bits shift) && not (byte == 0 && shift == 0) then some shift else rest

pub free_ino : (ℕ → ℕ → Bool) → ℕ → ℕ → Option (ℕ × ℕ)
free_ino bits zero byte = none
free_ino bits (suc k) byte =
    let rest = free_ino bits k (byte + 1) in
    elim (free_in (bits byte) byte 8 0) [ none ↦ rest | some shift ↦ some (byte, shift) ]

-- `none` is NULL.
pub ialloc : Table → ℕ → ℕ → Run (Option (ℕ × Table))
ialloc t dev type = elim (free_ino t.ibits block_size 0) [
  | none ↦ ok none
  | some (byte, shift) ↦ do
    let ino = byte * 8 + shift
    let blank : DInode = record {
      type = type;
      major = 0;
      minor = 0;
      nlink = 0;
      map = record { size = 0; addrs = λ _. 0 };
    }
    (i, t') ←
        iget (record t { ibits = set_bit t.ibits byte shift true; disk = update t.disk ino blank })
          dev ino
    ok (some (i, t'))
]
