-- ===== src/Calls/Open.antt =====
-- `sys_open` and `sys_pipe` of kernel/syscall/sysfile.c, and `pipe_alloc` of kernel/fs/pipe.c.
use oskernel.Prelude.{
  leb, ◌==◌, if◌then◌else◌, update, pos, negsuc, minus_one, Run, ok, panic, ◌>>=◌, ℕ, ◌/◌, ◌%◌, ◌^◌,
  Bool, true, false, not, ◌&&◌, ◌||◌, Option, none, some, List,
}
use oskernel.Param.{n_dev}
use oskernel.Files.{
  fd_inode, fd_device, File, file_alloc, Release, keeps, closes_pipe, puts_inode, file_close,
  fd_alloc,
}
use oskernel.Dir.{ft_dir, ft_file}
use oskernel.Dir.Path.{arrives, nothing, namei}
use oskernel.Inode.{itrunc}
use oskernel.Inode.Table.{ilock, iupdate, iput}
use oskernel.Calls.{Nodes, System, begin_op, end_op, Result, put_end, set_node}
use oskernel.Calls.Create.{ft_device, create}
use oskernel.Calls.Descriptors.{lseeki}

-- `omode`, an `int` that is not negative, and its bits.
abbrev pub bit : ℕ → ℕ → Bool
bit omode k = omode / 2 ^ k % 2 == 1

abbrev pub wronly : ℕ → Bool
wronly omode = bit omode 0

abbrev pub rdwr : ℕ → Bool
rdwr omode = bit omode 1

abbrev pub creat : ℕ → Bool
creat omode = bit omode 6

abbrev pub trunc : ℕ → Bool
trunc omode = bit omode 9

abbrev pub append : ℕ → Bool
append omode = bit omode 10

-- `sys_open` up to the i-node, which is locked.
pub open_node : Nodes → ℕ → List ℕ → (ℕ → ℕ) → ℕ → Run (Option ℕ × Nodes)
open_node t cwd path buffer omode =
    if creat omode then create t cwd path buffer ft_file 0 0 else (do
      looked ← namei t cwd path buffer
      elim looked [
        | none ↦ ok (none, t)
        | some (nothing _ t1) ↦ ok (none, t1)
        | some (arrives i _ t1) ↦ do
          t2 ← ilock t1 i
          if (t2.entry i).node.type == ft_dir && not (omode == 0)
              then ok (none, iput t2 i)
              else ok (some i, t2)
      ])

-- What a closed file gives back: an i-node is put, and NULL is left to fault.
pub give_back : Release → Nodes → Run Nodes
give_back keeps t = ok t
give_back (closes_pipe _ _) t = ok t
give_back (puts_inode none) t = panic "iput(NULL)"
give_back (puts_inode (some i)) t = ok (iput t i)

-- The fields of the new file `f` of the i-node `i`.
abbrev pub opened : File → Nodes → ℕ → ℕ → File
opened file t i omode =
    let node = (t.entry i).node in
    record file {
      type = if node.type == ft_device then fd_device else fd_inode;
      major = if node.type == ft_device then node.major else file.major;
      off = if node.type == ft_device then file.off else 0;
      inode = some i;
      readable = not (wronly omode);
      writable = wronly omode || rdwr omode;
    }

-- `itrunc` with its `iupdate`.
abbrev pub truncated : Nodes → ℕ → Nodes
truncated t i =
    let node = (t.entry i).node in
    let (v, map) = itrunc (t.volume, node.map) in
    iupdate (record (set_node t i (record node { map = map })) { volume = v }) i

-- The end of `sys_open`, with `O_APPEND`: where the offset cannot be found, the file is closed, and
-- the i-node put again.
unfoldable pub open_append : System → ℕ → ℕ → ℕ → ℕ → Result
open_append s i fd f omode = elim (append omode) [
  | false ↦ ok (pos fd, end_op s)
  | true ↦ do
    let size = (s.table.entry i).node.map.size
    (ret, t) ← lseeki s.table i (pos size)
    elim ret [
      | pos _ ↦
          let file = record (s.files.files f) { off = size } in
          let files = record (s.files) { files = update s.files.files f file } in
          ok (pos fd, end_op (record s { table = t; files = files }))
      | negsuc _ ↦ do
        (released, files) ← file_close s.files.files f
        t1 ← give_back released t
        put_end
            (record s { files = record { files = files; ofile = update s.files.ofile fd none } }) t1
            i minus_one
    ]
]

-- With a file and a descriptor.
unfoldable pub open_file : System → ℕ → ℕ → ℕ → ℕ → Result
open_file s i fd f omode =
    let files = update s.files.files f (opened (s.files.files f) s.table i omode) in
    let t =
      if trunc omode && (s.table.entry i).node.type == ft_file
      then truncated s.table i
      else s.table in
    open_append (record s { table = t; files = record (s.files) { files = files } }) i fd f omode

-- With the i-node: the device number, the file and the descriptor.
unfoldable pub open_found : System → ℕ → ℕ → Result
open_found s i omode =
    let node = (s.table.entry i).node in
    elim (node.type == ft_device && leb n_dev node.major) [
      | true ↦ put_end s s.table i minus_one
      | false ↦ elim (file_alloc s.files.files) [
        | none ↦ put_end s s.table i minus_one
        | some (f, files) ↦ elim (fd_alloc s.files.ofile f) [
          | none ↦ do
            (released, files') ← file_close files f
            t ← give_back released s.table
            put_end (record s { files = record (s.files) { files = files' } }) t i minus_one
          | some (fd, ofile) ↦
              open_file (record s { files = record { files = files; ofile = ofile } }) i fd f omode
        ]
      ]
    ]

unfoldable pub sys_open : System → Option (List ℕ) → (ℕ → ℕ) → ℕ → Result
sys_open s none buffer omode = ok (minus_one, s)
sys_open s (some path) buffer omode = do
  let s1 = begin_op s
  (r, t) ← open_node s1.table s1.cwd path buffer omode
  elim r [
    | none ↦ ok (minus_one, end_op (record s1 { table = t }))
    | some i ↦ open_found (record s1 { table = t }) i omode
  ]
