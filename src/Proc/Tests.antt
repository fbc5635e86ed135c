-- ===== src/Proc/Tests.antt =====
-- Runs and the theorems on a small table.
use oskernel.Prelude.{
  ltb, ◌==◌, if◌then◌else◌, pos, ℕ, ◌≡◌, refl, true, false, Option, none, some, arith,
}
use oskernel.Param.{n_proc}
use oskernel.Files.{fd_none, fd_device, Table}
use oskernel.Proc.{
  proc_unused, proc_runnable, proc_running, proc_sleeping, Process, Procs, Pids, Kernel, allotted,
  searching, pid_alloc, is_proc, wake, wake_up, kill,
}
use oskernel.Proc.Numbers.{used, pid_alloc_hangs, pid_alloc_fresh}
use oskernel.Proc.Sleeping.{wake_up_lem, Killed, kill-Killed}
use oskernel.Proc.Family.{wait}
use oskernel.Proc.Family.Wait.{Outcome, wait-Outcome}

-- The numbers of the first byte are all in use.
abbrev full : Pids
full = record { bits = λ byte shift. byte == 0; byte = 0; shift = 8 }

pid_alloc_hangs_example : pid_alloc full 5000 ≡ searching
pid_alloc_hangs_example = pid_alloc_hangs full 5000 (λ e. omega arith) (λ k lt. refl)

-- Numbers 0, 1 and 2 are in use.
abbrev three : Pids
three = record {
  bits = λ byte shift. if byte == 0 then ltb shift 3 else false;
  byte = 0;
  shift = 3;
}

pid_alloc_fresh_example :
    (n : ℕ) × (p' : Pids) × (pid_alloc three 5 ≡ allotted n p')
    × (used three n ≡ false)
    × ((j : ℕ) → used p' j ≡ (if n == j then true else used three j))
pid_alloc_fresh_example = pid_alloc_fresh three 4 5 (omega arith) (omega arith) refl

-- Process 0 is init; 1 waits for its child 2, which runs with the console as descriptors 0 and 1.
abbrev slot : ℕ → ℕ → Option ℕ → (ℕ → Option ℕ) → Process
slot state chan parent ofile = record {
  state = state;
  chan = chan;
  killed = false;
  xstate = pos 0;
  pid = pos 7;
  parent = parent;
  size = 0;
  page_table = none;
  tf = none;
  ofile = ofile;
  cwd = none;
}

abbrev procs : Procs
procs i =
    if i == 0
    then slot proc_runnable 0 none (λ _. none)
    else if i == 1
    then slot proc_sleeping 2 (some 0) (λ _. none)
    else if i == 2
    then slot proc_running 0 (some 1) (λ fd. if ltb fd 2 then some 4 else none)
    else slot proc_unused 0 none (λ _. none)

abbrev kernel : Kernel
kernel = record { procs = procs; pids = three; init_proc = 0 }

wake_up_lem_example :
    wake_up (some 2) 2 procs 1 ≡ (if is_proc (some 2) 1 then procs 1 else wake 2 (procs 1))
wake_up_lem_example = wake_up_lem (some 2) 2 procs 1 (omega arith)

kill-Killed_example : Killed (pos 7) 0 n_proc procs (kill (pos 7) procs)
kill-Killed_example = kill-Killed (pos 7) procs

wait-Outcome_example : Outcome kernel 1 true (wait kernel 1 true)
wait-Outcome_example = wait-Outcome kernel 1 true

-- Three references to the console; one is that of another process.
abbrev files : Table
files f = record {
  type = if f == 4 then fd_device else fd_none;
  readable = true;
  writable = true;
  refcnt = if f == 4 then 3 else 0;
  inode = none;
  pi = none;
  off = 0;
  major = 1;
}

abbrev others : ℕ → ℕ
others f = if f == 4 then 1 else 0
