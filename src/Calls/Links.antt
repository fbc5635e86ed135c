-- ===== src/Calls/Links.antt =====
-- `sys_link`, `sys_unlink` and `sys_chdir` of kernel/syscall/sysfile.c.
use oskernel.Prelude.{
  ltb, ◌==◌, if◌then◌else◌, pos, minus_one, Run, ok, ◌>>=◌, ◌>>◌, panic_if, ℕ, zero, suc, ◌+◌, ◌*◌,
  ◌/◌, Bool, true, false, not, ◌||◌, Option, none, some, List,
}
use oskernel.Dir.{
  entry_size, ft_dir, DirEntry, read_entry, same_name, dir_lookup, write_entry, dir_link,
}
use oskernel.Dir.Path.{arrives, nothing, namei, parenti}
use oskernel.Inode.Table.{Table, ilock, iput}
use oskernel.Calls.{System, begin_op, end_op, Result, put_end, add_link, drop_link}
use oskernel.Calls.Create.{dot, dot_dot}

-- The label `bad` of `sys_link`: the new link of `i` is taken back.
unfoldable pub unlinked : System → Table → ℕ → Result
unlinked s t i = do t1 ← ilock t i; put_end s (drop_link t1 i) i minus_one

-- `sys_link` once the i-node has its new link: the new name.
unfoldable pub link_name : System → Table → ℕ → List ℕ → (ℕ → ℕ) → Result
link_name s t i path buffer = do
  looked ← parenti t s.cwd path buffer
  elim looked [
    | none ↦ unlinked s t i
    | some (nothing _ t1) ↦ unlinked s t1 i
    | some (arrives parent name t1) ↦ do
      t2 ← ilock t1 parent
      (linked, t3) ← dir_link t2 parent name (t2.entry i).ino
      if linked then put_end s (iput t3 parent) i (pos 0) else unlinked s (iput t3 parent) i
  ]

unfoldable pub sys_link : System → Option (List ℕ) → Option (List ℕ) → (ℕ → ℕ) → Result
sys_link s none path buffer = ok (minus_one, s)
sys_link s (some old) none buffer = ok (minus_one, s)
sys_link s (some old) (some path) buffer = do
  let s1 = begin_op s
  looked ← namei s1.table s1.cwd old buffer
  elim looked [
    | none ↦ ok (minus_one, end_op s1)
    | some (nothing _ t1) ↦ ok (minus_one, end_op (record s1 { table = t1 }))
    | some (arrives i _ t1) ↦ do
      t2 ← ilock t1 i
      if (t2.entry i).node.type == ft_dir
          then put_end s1 t2 i minus_one
          else link_name s1 (add_link t2 i) i path buffer
  ]

-- The loop of `is_dir_empty` from `off` on, for `fuel` rounds at most.
pub empty_from : ℕ → Table → ℕ → ℕ → Run (Bool × Table)
empty_from zero t d off = ok (true, t)
empty_from (suc fuel) t d off = elim (ltb off (t.entry d).node.map.size) [
  | false ↦ ok (true, t)
  | true ↦ do
    (de, t') ← read_entry t d off
    elim (de.ino == 0) [ false ↦ ok (false, t') | true ↦ empty_from fuel t' d (off + entry_size) ]
]

pub is_dir_empty : Table → ℕ → Run (Bool × Table)
is_dir_empty t d = empty_from ((t.entry d).node.map.size / entry_size + 1) t d (2 * entry_size)

-- An entry that is not in use.
abbrev pub blank : DirEntry
blank = record { ino = 0; name = λ _. 0 }

-- `sys_unlink` of the i-node `i`, whose entry stands at `off` in `parent`. The write of the entry
-- is that of `dir_link`.
unfoldable pub remove_entry : System → Table → ℕ → ℕ → ℕ → Result
remove_entry s t i parent off = do
  (written, t1) ← write_entry t parent off blank
  panic_if (not written) "inode write error"
  let t2 = if (t1.entry i).node.type == ft_dir then drop_link t1 parent else t1
  let t3 = iput t2 parent
  put_end s (drop_link t3 i) i (pos 0)

unfoldable pub unlink_found : System → Table → ℕ → ℕ → ℕ → Result
unlink_found s t i parent off = do
  t1 ← ilock t i
  panic_if (ltb (t1.entry i).node.nlink 1) "unlink an invalid inode"
  (empty, t2) ← if (t1.entry i).node.type == ft_dir then is_dir_empty t1 i else ok (true, t1)
  if empty then remove_entry s t2 i parent off else put_end s (iput t2 i) parent minus_one

unfoldable pub sys_unlink : System → Option (List ℕ) → (ℕ → ℕ) → Result
sys_unlink s none buffer = ok (minus_one, s)
sys_unlink s (some path) buffer = do
  let s1 = begin_op s
  looked ← parenti s1.table s1.cwd path buffer
  elim looked [
    | none ↦ ok (minus_one, end_op s1)
    | some (nothing _ t1) ↦ ok (minus_one, end_op (record s1 { table = t1 }))
    | some (arrives parent name t1) ↦ do
      t2 ← ilock t1 parent
      elim (same_name name dot || same_name name dot_dot) [
        | true ↦ put_end s1 t2 parent minus_one
        | false ↦ do
          (found, t3) ← dir_lookup t2 parent name
          elim found [
            | none ↦ put_end s1 t3 parent minus_one
            | some (off, i) ↦ unlink_found s1 t3 i parent off
          ]
      ]
  ]

unfoldable pub sys_chdir : System → Option (List ℕ) → (ℕ → ℕ) → Result
sys_chdir s none buffer = ok (minus_one, s)
sys_chdir s (some path) buffer = do
  let s1 = begin_op s
  looked ← namei s1.table s1.cwd path buffer
  elim looked [
    | none ↦ ok (minus_one, end_op s1)
    | some (nothing _ t1) ↦ ok (minus_one, end_op (record s1 { table = t1 }))
    | some (arrives i _ t1) ↦ do
      t2 ← ilock t1 i
      if (t2.entry i).node.type == ft_dir
          then ok (pos 0, record (end_op (record s1 { table = iput t2 s1.cwd })) { cwd = i })
          else put_end s1 t2 i minus_one
  ]
