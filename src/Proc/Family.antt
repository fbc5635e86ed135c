-- ===== src/Proc/Family.antt =====
-- `fork`, `do_exit` and `wait`: parents and children. The address of a process as a wait channel is
-- its index plus one.
pub mod Wait
pub mod Exit
use oskernel.Prelude.{
  ◌==◌, if◌then◌else◌, update, ℤ, Run, ok, panic, ◌>>=◌, ◌>>◌, panic_if, ℕ, zero, suc, ◌+◌, Bool,
  true, false, not, ◌&&◌, ◌||◌, Option, none, some, List, [], ◌∷◌, ◌++◌,
}
use oskernel.Param.{n_proc, n_ofile}
use oskernel.Files
use oskernel.Files.{Table, Release, puts_inode, file_close, file_dup, State}
use oskernel.Proc.{
  proc_unused, proc_runnable, proc_zombie, Process, Procs, Kernel, proc_free, allocated, failed,
  no_free_pid, hangs, proc_alloc, is_proc, wake_up, sleeper,
}

abbrev pub address : Option ℕ → ℕ
address none = 0
address (some i) = i + 1

-- The loop of `do_exit` that closes the files, over `k` descriptors from `fd` on, with what
-- `file_close` gives back for each.
pub close_from : ℕ → ℕ → Files.State → Run (List Release × Files.State)
close_from zero fd s = ok ([], s)
close_from (suc k) fd s = elim (s.ofile fd) [
  | none ↦ close_from k (fd + 1) s
  | some f ↦ do
    (r, files) ← file_close s.files f
    (rs, s') ← close_from k (fd + 1) (record { files = files; ofile = update s.ofile fd none })
    ok (r ∷ rs, s')
]

-- The loop of `do_exit` over the children of `p`, in `k` processes from `i` on.
abbrev pub adopt : ℕ → ℕ → Process → Process
adopt init p child =
    if not (child.state == proc_unused) && is_proc child.parent p
    then record child { parent = some init }
    else child

pub adopt_from : ℕ → ℕ → ℕ → ℕ → Procs → Procs
adopt_from init p zero i procs = procs
adopt_from init p (suc k) i procs =
    adopt_from init p k (i + 1) (update procs i (adopt init p (procs i)))

-- Up to the last `sched`, which does not return, with the calls of `pipe_close` and `iput` that it
-- makes on its way, in their order: what they do, where they panic and what other processes do
-- meanwhile is not part of it.
pub do_exit : Kernel → Table → ℕ → ℤ → Run (List Release × Kernel × Table)
do_exit s files p status = do
  panic_if (p == s.init_proc) "'init' exit"
  (releases, closed) ← close_from n_ofile 0 (record { files = files; ofile = (s.procs p).ofile })
  let procs = update s.procs p (record (s.procs p) { ofile = closed.ofile; cwd = none })
  let procs = adopt_from s.init_proc p n_proc 0 procs
  let procs = wake_up (some p) (address (some s.init_proc)) procs
  let procs = update procs p (record (procs p) { xstate = status; state = proc_zombie })
  ok (
    releases ++ (puts_inode (s.procs p).cwd ∷ []),
    record s { procs = wake_up (some p) (address (procs p).parent) procs },
    closed.files,
  )

-- One pass of `wait` over `k` processes from `i` on: a child that is a zombie, or whether there are
-- children.
pub data Pass : Type 0 where
  zombie : ℕ → Pass
  children : Bool → Pass

pub pass : Procs → ℕ → ℕ → ℕ → Bool → Pass
pass procs parent zero i have_kids = children have_kids
pass procs parent (suc k) i have_kids =
    let with_kid = pass procs parent k (i + 1) true in
    let without = pass procs parent k (i + 1) have_kids in
    if is_proc (procs i).parent parent
    then (if (procs i).state == proc_zombie then zombie i else with_kid)
    else without

pub data Waited : Type 0 where
  reaped : ℤ → Kernel → Waited
  fails : Waited
  sleeps : Kernel → Waited

-- `wait` up to its result or its next `sleep_on`; `copied` says whether the status, if it is wanted,
-- could be copied out.
pub wait : Kernel → ℕ → Bool → Waited
wait s parent copied = elim (pass s.procs parent n_proc 0 false) [
  | zombie i ↦ if copied then reaped (s.procs i).pid (proc_free s i) else fails
  | children have_kids ↦
      if not have_kids || (s.procs parent).killed
      then fails
      else sleeps (record s {
        procs = update s.procs parent (sleeper (address (some parent)) (s.procs parent));
      })
]

-- The loop of `fork` that duplicates the files, over `k` descriptors from `fd` on.
pub dup_from : (ℕ → Option ℕ) → ℕ → ℕ → Files.State → Run Files.State
dup_from parent zero fd s = ok s
dup_from parent (suc k) fd s = elim (parent fd) [
  | none ↦ dup_from parent k (fd + 1) s
  | some f ↦ do
    files ← file_dup s.files f
    dup_from parent k (fd + 1) (record { files = files; ofile = update s.ofile fd (some f) })
]

-- What `fork` comes to: the child's number, or -1, with the state; or `pid_alloc` does not return.
pub data Forked : Type 0 where
  child : ℤ → Kernel → Table → Forked
  no_child : Kernel → Forked
  stuck : Forked

-- `copied` says whether `copy_user_page_table` succeeds; `tf`, `page_table` are as in `proc_alloc`.
pub fork : Kernel → Table → ℕ → ℕ → Option ℕ → Option ℕ → Bool → Run Forked
fork s files parent rounds tf page_table copied = elim (proc_alloc s rounds tf page_table) [
  | failed s' ↦ ok (no_child s')
  | no_free_pid ↦ panic "no free pid"
  | hangs ↦ ok stuck
  | allocated i s' ↦ elim copied [
    | false ↦ ok (no_child (proc_free s' i))
    | true ↦ do
      let p = s'.procs parent
      dup ← dup_from p.ofile n_ofile 0 (record { files = files; ofile = (s'.procs i).ofile })
      let c : Process = record (s'.procs i) {
        size = p.size;
        ofile = dup.ofile;
        cwd = p.cwd;
        parent = some parent;
        state = proc_runnable;
      }
      ok (child c.pid (record s' { procs = update s'.procs i c }) dup.files)
  ]
]
