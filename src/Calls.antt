-- ===== src/Calls.antt =====
-- kernel/syscall/sysfile.c: the system calls on paths, over the table of i-nodes, the table of files
-- and the descriptors of the process. `outstanding` is the log's count of operations; `begin_op` and
-- `end_op` are what they do to it, with the waiting and the commit left to Log. A path is what
-- `fetch_str` gives, `none` where it fails; the buffer for its last element is an argument, since it
-- is not initialised.
pub mod Create
pub mod Balance
pub mod Open
pub mod Pipes
pub mod PipeFiles
pub mod PipeFds
pub mod Seek
mod Tests
pub mod Links
pub mod Descriptors
use oskernel.Prelude.{update, ℤ, Run, ok, ℕ, ◌+◌, ◌-◌, ◌%◌}
use oskernel.Inode.Table.{DInode, Table, iupdate, iput}
use oskernel.Files

-- The table of i-nodes.
abbrev pub Nodes : Type 0
Nodes = Table

pub record System : Type 0 where
  pub table : Table
  pub outstanding : ℕ
  pub files : Files.State
  pub cwd : ℕ

-- `lg.outstanding += 1` in `begin_op`, and `lg.outstanding -= 1` in `end_op`, which has a `begin_op`
-- before it. Where they wait, what they test and the commit are in Log.
abbrev pub begin_op : System → System
begin_op s = record s { outstanding = s.outstanding + 1 }

abbrev pub end_op : System → System
end_op s = record s { outstanding = s.outstanding - 1 }

-- What a call comes to: the value that it returns, and the state.
abbrev pub Result : Type 0
Result = Run (ℤ × System)

-- `iput` of entry `i`, `end_op` and the return of a value.
abbrev pub put_end : System → Table → ℕ → ℤ → Result
put_end s t i value = ok (value, end_op (record s { table = iput t i }))

abbrev pub set_node : Table → ℕ → DInode → Table
set_node t i node = record t { entry = update t.entry i (record (t.entry i) { node = node }) }

-- A change of `nlink`, a `uint16_t`, and the `iupdate` behind it.
abbrev pub with_nlink : Table → ℕ → ℕ → Table
with_nlink t i n = iupdate (set_node t i (record ((t.entry i).node) { nlink = n % 65536 })) i

-- `nlink++` and `nlink--`.
abbrev pub add_link : Table → ℕ → Table
add_link t i = with_nlink t i ((t.entry i).node.nlink + 1)

abbrev pub drop_link : Table → ℕ → Table
drop_link t i = with_nlink t i ((t.entry i).node.nlink + 65535)
