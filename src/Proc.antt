-- ===== src/Proc.antt =====
-- kernel/sched/proc.c: the table of processes. A function holds a process's lock, and `wait_lock` where
-- parents matter, from one `sched` to the next; such a stretch is one step here. A pointer that only
-- serves as a name is a number: a process by its index, a wait channel (0 is NULL), a page. The saved
-- registers and the name of a process are left out.
pub mod Numbers
pub mod Sleeping
pub mod Family
mod Tests
use oskernel.Prelude.{
  ◌==◌, if◌then◌else◌, update, ℤ, pos, negsuc, minus_one, ℕ, zero, suc, ◌+◌, ◌-◌, ◌*◌, ◌/◌, ◌%◌,
  Bool, true, false, ◌&&◌, Option, none, some,
}
use oskernel.Param.{n_proc}
use oskernel.Inode.{set_bit, scan_byte}

abbrev pub proc_unused : ℕ
proc_unused = 0

abbrev pub proc_used : ℕ
proc_used = 1

abbrev pub proc_runnable : ℕ
proc_runnable = 2

abbrev pub proc_running : ℕ
proc_running = 3

abbrev pub proc_sleeping : ℕ
proc_sleeping = 4

abbrev pub proc_zombie : ℕ
proc_zombie = 5

-- `struct process`.
pub record Process : Type 0 where
  pub state : ℕ
  pub chan : ℕ
  pub killed : Bool
  pub xstate : ℤ
  pub pid : ℤ
  pub parent : Option ℕ
  pub size : ℕ
  pub page_table : Option ℕ
  pub tf : Option ℕ
  pub ofile : ℕ → Option ℕ
  pub cwd : Option ℕ

abbrev pub Procs : Type 0
Procs = ℕ → Process

-- `pid_bitmap`, and where `pid_alloc` goes on searching.
pub record Pids : Type 0 where
  pub bits : ℕ → ℕ → Bool
  pub byte : ℕ
  pub shift : ℕ

pub record Kernel : Type 0 where
  pub procs : Procs
  pub pids : Pids
  pub init_proc : ℕ

-- What a search for a process number comes to; `searching` if the rounds do not end it.
pub data Search : Type 0 where
  allotted : ℕ → Pids → Search
  no_pid searching : Search

-- `rounds` rounds of the loop of `pid_alloc`; the bits tested are those of `pid_bitmap[byte]`, whatever
-- `b` is.
pub pid_loop : Pids → ℕ → ℕ → ℕ → Search
pid_loop p zero b s = searching
pid_loop p (suc rounds) b s =
    let b' = (b + 1) % 4096 in
    let rest = pid_loop p rounds b' 0 in
    elim (scan_byte (p.bits p.byte) (8 - s) s) [
      | some s' ↦
          allotted (b * 8 + s')
            (record { bits = set_bit p.bits p.byte s' true; byte = b; shift = s' + 1 })
      | none ↦ if b' == p.byte && 0 == p.shift then no_pid else rest
    ]

pub pid_alloc : Pids → ℕ → Search
pid_alloc p rounds = pid_loop p rounds p.byte p.shift

-- A negative number is never freed: only processes with a number are.
pub pid_free : Pids → ℤ → Pids
pid_free p (negsuc _) = p
pid_free p (pos n) = record p { bits = set_bit p.bits (n / 8) (n % 8) false }

-- `tf` and `page_table` go back to mm.c.
abbrev pub freed : Process → Process
freed p = record p {
  tf = none;
  page_table = none;
  size = 0;
  pid = minus_one;
  parent = none;
  chan = 0;
  killed = false;
  xstate = pos 0;
  state = proc_unused;
}

pub proc_free : Kernel → ℕ → Kernel
proc_free s i = record s {
  pids = pid_free s.pids (s.procs i).pid;
  procs = update s.procs i (freed (s.procs i));
}

-- The search of `proc_alloc` in `k` processes from `i` on.
pub unused_from : Procs → ℕ → ℕ → Option ℕ
unused_from procs zero i = none
unused_from procs (suc k) i =
    let rest = unused_from procs k (i + 1) in
    if (procs i).state == proc_unused then some i else rest

pub data Alloc : Type 0 where
  allocated : ℕ → Kernel → Alloc
  failed : Kernel → Alloc
  no_free_pid hangs : Alloc

-- `tf` is what `pm_alloc` returns and `page_table` what `get_user_page_table` does; `none` is NULL.
pub proc_alloc : Kernel → ℕ → Option ℕ → Option ℕ → Alloc
proc_alloc s rounds tf page_table = elim (unused_from s.procs n_proc 0) [
  | none ↦ failed s
  | some i ↦ elim (pid_alloc s.pids rounds) [
    | searching ↦ hangs
    | no_pid ↦ no_free_pid
    | allotted pid pids ↦
        let p : Process = record (s.procs i) { pid = pos pid; state = proc_used; tf = tf } in
        let s1 : Kernel = record s { pids = pids; procs = update s.procs i p } in
        elim tf [
          | none ↦ failed (proc_free s1 i)
          | some _ ↦
              let s2 : Kernel = record s1 {
                procs = update s1.procs i (record p { page_table = page_table });
              } in
              elim page_table [ none ↦ failed (proc_free s2 i) | some _ ↦ allocated i s2 ]
        ]
  ]
]

-- One round of `wake_up`; `rp` is the running process, if any.
abbrev pub is_proc : Option ℕ → ℕ → Bool
is_proc none i = false
is_proc (some j) i = i == j

abbrev pub wake : ℕ → Process → Process
wake chan p =
    if p.state == proc_sleeping && p.chan == chan then record p { state = proc_runnable } else p

pub wake_from : Option ℕ → ℕ → ℕ → ℕ → Procs → Procs
wake_from rp chan zero i procs = procs
wake_from rp chan (suc k) i procs =
    wake_from rp chan k (i + 1)
      (if is_proc rp i then procs else update procs i (wake chan (procs i)))

pub wake_up : Option ℕ → ℕ → Procs → Procs
wake_up rp chan procs = wake_from rp chan n_proc 0 procs

abbrev pub same : ℤ → ℤ → Bool
same (pos a) (pos b) = a == b
same (negsuc a) (negsuc b) = a == b
same _ _ = false

abbrev pub killed_one : Process → Process
killed_one p = record p {
  killed = true;
  state = if p.state == proc_sleeping then proc_runnable else p.state;
}

pub kill_from : ℤ → ℕ → ℕ → Procs → Option Procs
kill_from pid zero i procs = none
kill_from pid (suc k) i procs =
    let rest = kill_from pid k (i + 1) procs in
    if same (procs i).pid pid then some (update procs i (killed_one (procs i))) else rest

-- `none` is the error -1.
pub kill : ℤ → Procs → Option Procs
kill pid procs = kill_from pid n_proc 0 procs

-- `sleep_on` up to `sched`: what becomes of the process.
abbrev pub sleeper : ℕ → Process → Process
sleeper chan p = record p { chan = chan; state = proc_sleeping }
