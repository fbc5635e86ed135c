-- ===== src/Calls/Create.antt =====
-- `create`, `sys_mkdir` and `sys_mknod` of kernel/syscall/sysfile.c.
use oskernel.Prelude.{
  ltb, ◌==◌, if◌then◌else◌, pos, minus_one, Run, ok, ◌>>=◌, ℕ, ◌%◌, Bool, true, false, ◌&&◌, ◌||◌,
  Option, none, some, List,
}
use oskernel.Dir.{ft_dir, ft_file, dir_lookup, dir_link}
use oskernel.Dir.Path.{arrives, nothing, parenti}
use oskernel.Inode.Table.{Table, ilock, iupdate, iput, ialloc}
use oskernel.Calls.{System, begin_op, end_op, Result, put_end, set_node, with_nlink, add_link}

abbrev pub ft_device : ℕ
ft_device = 3

-- The names "." and "..", in arrays.
abbrev pub dot : ℕ → ℕ
dot i = if i == 0 then 46 else 0

abbrev pub dot_dot : ℕ → ℕ
dot_dot i = if ltb i 2 then 46 else 0

-- The label `fail`: the new i-node `i` loses its link, and `parent` is put.
abbrev pub failed : Table → ℕ → ℕ → Run (Option ℕ × Table)
failed t i parent = ok (none, iput (iput (with_nlink t i 0) i) parent)

-- The entries "." and ".." of a new directory; true if both are linked.
pub link_dots : Table → ℕ → ℕ → Run (Bool × Table)
link_dots t i parent = do
  (linked, t1) ← dir_link t i dot (t.entry i).ino
  if linked then dir_link t1 i dot_dot (t1.entry parent).ino else ok (false, t1)

-- `create` once it has an i-node `i` for the name.
pub fill : Table → ℕ → ℕ → (ℕ → ℕ) → ℕ → ℕ → ℕ → Run (Option ℕ × Table)
fill t i parent name type major minor = do
  t1 ← ilock t i
  let t2 = set_node t1 i (record ((t1.entry i).node) { major = major; minor = minor; nlink = 1 })
  let t3 = iupdate t2 i
  (dots, t4) ← if type == ft_dir then link_dots t3 i parent else ok (true, t3)
  elim dots [
    | false ↦ failed t4 i parent
    | true ↦ do
      (linked, t5) ← dir_link t4 parent name (t4.entry i).ino
      elim linked [
        | false ↦ failed t5 i parent
        | true ↦ ok (some i, iput (if type == ft_dir then add_link t5 i else t5) parent)
      ]
  ]

-- `create` where the name is in use, for the i-node `i`.
pub reuse : Table → ℕ → ℕ → Run (Option ℕ × Table)
reuse t i type = do
  t1 ← ilock t i
  let found = (t1.entry i).node.type
  if type == ft_file && (found == ft_file || found == ft_device)
      then ok (some i, t1)
      else ok (none, iput t1 i)

-- `create` in the directory `parent`.
pub create_in : Table → ℕ → (ℕ → ℕ) → ℕ → ℕ → ℕ → Run (Option ℕ × Table)
create_in t parent name type major minor = do
  t1 ← ilock t parent
  (found, t2) ← dir_lookup t1 parent name
  elim found [
    | some (_, i) ↦ reuse (iput t2 parent) i type
    | none ↦ do
      r ← ialloc t2 (t2.entry parent).dev type
      elim r [
        | none ↦ ok (none, iput t2 parent)
        | some (i, t3) ↦ fill t3 i parent name type major minor
      ]
  ]

-- The walk of `parenti` always ends (Dir/Path/Ends), so its last case does not arise.
pub create : Table → ℕ → List ℕ → (ℕ → ℕ) → ℕ → ℕ → ℕ → Run (Option ℕ × Table)
create t cwd path buffer type major minor = do
  looked ← parenti t cwd path buffer
  elim looked [
    | some (arrives parent name t1) ↦ create_in t1 parent name type major minor
    | some (nothing _ t1) ↦ ok (none, t1)
    | none ↦ ok (none, t)
  ]

-- Nothing ends the operation where `create` fails.
unfoldable pub sys_mkdir : System → Option (List ℕ) → (ℕ → ℕ) → Result
sys_mkdir s none buffer = ok (minus_one, s)
sys_mkdir s (some path) buffer = do
  let s1 = begin_op s
  (r, t) ← create s1.table s1.cwd path buffer ft_dir 0 0
  elim r [ none ↦ ok (minus_one, record s1 { table = t }) | some i ↦ put_end s1 t i (pos 0) ]

unfoldable pub sys_mknod : System → Option (List ℕ) → (ℕ → ℕ) → ℕ → ℕ → Result
sys_mknod s none buffer major minor = ok (minus_one, s)
sys_mknod s (some path) buffer major minor = do
  let s1 = begin_op s
  (r, t) ← create s1.table s1.cwd path buffer ft_device (major % 65536) (minor % 65536)
  elim r [
    | none ↦ ok (minus_one, end_op (record s1 { table = t }))
    | some i ↦ put_end s1 t i (pos 0)
  ]
