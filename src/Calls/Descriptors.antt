-- ===== src/Calls/Descriptors.antt =====
-- Open files that are i-nodes: `stati` and `lseeki` of kernel/fs/inode.c, `file_stat`, `file_lseek`
-- and `file_read` of kernel/fs/file.c, and `sys_read`, `sys_fstat` and `sys_lseek` of
-- kernel/syscall/sysfile.c. A file offset is a `long` that does not overflow.
use oskernel.Prelude.{
  ltb, leb, ◌==◌, if◌then◌else◌, update, ℤ, pos, negsuc, minus_one, Run, ok, panic, ◌>>=◌, ℕ, zero,
  suc, ◌+◌, ◌-◌, ◌/◌, ◌%◌, ◌^◌, Bool, true, false, Option, none, some,
}
use oskernel.Param.{block_size, n_dev}
use oskernel.Files.{FileType, fd_none, fd_inode, fd_device, fd_pipe, File, arg_fd}
use oskernel.Dir.{ft_file, with_file}
use oskernel.Inode.{bmap}
use oskernel.Inode.Read.{readi}
use oskernel.Inode.Table.{ilock}
use oskernel.Calls.{Nodes, System}

-- `struct stat`.
pub record Stat : Type 0 where
  pub ino : ℕ
  pub type : ℕ
  pub nlink : ℕ
  pub size : ℕ

pub stati : Nodes → ℕ → Stat
stati t i =
    let e = t.entry i in
    record { ino = e.ino; type = e.node.type; nlink = e.node.nlink; size = e.node.map.size }

-- `offset / BLOCK_SIZE`, which rounds to 0, as the `uint32_t` that `bmap` takes.
abbrev pub block_index : ℤ → ℕ
block_index (pos n) = n / block_size % 2 ^ 32
block_index (negsuc k) = (2 ^ 32 - (k + 1) / block_size % 2 ^ 32) % 2 ^ 32

unfoldable pub lseeki : Nodes → ℕ → ℤ → Run (ℤ × Nodes)
lseeki t i offset =
    let node = (t.entry i).node in
    if node.type == ft_file
    then (do
      (addr, v, map) ← bmap t.volume node.map (block_index offset)
      ok ((if addr == 0 then minus_one else offset), with_file t i v map))
    else ok (minus_one, t)

-- `n + offset`
abbrev pub plus : ℕ → ℤ → ℤ
plus n (pos k) = pos (n + k)
plus n (negsuc k) = if ltb k n then pos (n - (k + 1)) else negsuc (k - n)

-- The offset in the file, a `uint32_t`; it stays where the result is -1.
abbrev pub moved : ℕ → ℤ → ℕ
moved old (pos n) = n % 2 ^ 32
moved old (negsuc zero) = old
moved old (negsuc (suc k)) = (2 ^ 32 - (k + 2) % 2 ^ 32) % 2 ^ 32

-- What `whence` asks for; `seek_other` is any other number.
pub data Whence : Type 0 where
  seek_set seek_cur seek_end seek_other : Whence

-- The file with its new offset.
abbrev pub with_off : System → ℕ → ℕ → System
with_off s f off =
    let file = s.files.files f in
    record s {
      files = record (s.files) { files = update s.files.files f (record file { off = off }) };
    }

abbrev pub is_inode : FileType → Bool
is_inode fd_none = false
is_inode fd_inode = true
is_inode fd_device = false
is_inode fd_pipe = false

-- `file_lseek` of file `f` with i-node `i`; `f->inode` is not NULL in a file of that type.
unfoldable pub seek : System → ℕ → ℕ → ℤ → Run (ℤ × System)
seek s f i offset = do
  (ret, t) ← lseeki s.table i offset
  ok (ret, with_off (record s { table = t }) f (moved (s.files.files f).off ret))

unfoldable pub file_lseek : System → ℕ → ℕ → ℤ → Whence → Run (ℤ × System)
file_lseek s f i offset whence =
    let file = s.files.files f in
    if is_inode file.type
    then elim whence [
      | seek_set ↦ seek s f i offset
      | seek_cur ↦ seek s f i (plus file.off offset)
      | seek_end ↦ seek s f i (plus (s.table.entry i).node.map.size offset)
      | seek_other ↦ ok (minus_one, s)
    ]
    else ok (minus_one, s)

abbrev pub has_inode : FileType → Bool
has_inode fd_none = false
has_inode fd_inode = true
has_inode fd_device = true
has_inode fd_pipe = false

-- `file_stat`; `copied` says whether the `copy_out` succeeds. The result is the value and what is
-- copied.
pub file_stat : Bool → System → ℕ → ℕ → Run (ℤ × Option Stat × System)
file_stat copied s f i =
    if has_inode (s.files.files f).type
    then (do
      t ← ilock s.table i
      ok ((if copied then pos 0 else minus_one), some (stati t i), record s { table = t }))
    else ok (minus_one, none, s)

-- The case `FD_INODE` of `file_read`.
pub read_inode : (ℕ → Bool) → System → ℕ → ℕ → ℕ → Run (ℤ × System)
read_inode copies s f i n = do
  t ← ilock s.table i
  let off = (s.files.files f).off
  r ← readi copies off n t.volume (t.entry i).node.map
  elim r [
    | none ↦ ok (minus_one, record s { table = t })
    | some (count, x) ↦ ok (
      pos count,
      with_off (record s { table = with_file t i x.volume x.inode }) f ((off + count) % 2 ^ 32),
    )
  ]

-- `device` is what the `read` of a device in `devlist` returns, where there is one, and `piped` what
-- `pipe_read` returns.
pub file_read : (ℕ → Option ℤ) → ℤ → (ℕ → Bool) → System → ℕ → ℕ → ℕ → Run (ℤ × System)
file_read device piped copies s f i n =
    let file = s.files.files f in
    let from_device : ℤ = elim (device file.major) [ none ↦ minus_one | some ret ↦ ret ] in
    if file.readable
    then elim (file.type) [
      | fd_device ↦ ok ((if leb n_dev file.major then minus_one else from_device), s)
      | fd_inode ↦ read_inode copies s f i n
      | fd_pipe ↦ ok (piped, s)
      | fd_none ↦ panic "unknown file descriptor type"
    ]
    else ok (minus_one, s)

-- `f->inode` of the file in a descriptor; 0 where it is NULL, which the calls do not use.
abbrev inode_of : File → ℕ
inode_of file = elim (file.inode) [ none ↦ 0 | some i ↦ i ]

pub sys_read : (ℕ → Option ℤ) → ℤ → (ℕ → Bool) → System → ℤ → ℕ → Run (ℤ × System)
sys_read device piped copies s fd n = elim (arg_fd s.files.ofile fd) [
  | none ↦ ok (minus_one, s)
  | some (_, f) ↦ file_read device piped copies s f (inode_of (s.files.files f)) n
]

pub sys_fstat : Bool → System → ℤ → Run (ℤ × Option Stat × System)
sys_fstat copied s fd = elim (arg_fd s.files.ofile fd) [
  | none ↦ ok (minus_one, none, s)
  | some (_, f) ↦ file_stat copied s f (inode_of (s.files.files f))
]

pub sys_lseek : System → ℤ → ℤ → Whence → Run (ℤ × System)
sys_lseek s fd offset whence = elim (arg_fd s.files.ofile fd) [
  | none ↦ ok (minus_one, s)
  | some (_, f) ↦ file_lseek s f (inode_of (s.files.files f)) offset whence
]
