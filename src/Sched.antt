-- ===== src/Sched.antt =====
-- kernel/sched/proc.c, `scheduler`, `sched` and what gives up the CPU: CPUs that run processes.
pub mod Exclusive
mod Tests
use oskernel.Prelude.{
  ◌==◌, update, Run, ok, ◌>>◌, panic_if, ℕ, ◌+◌, ◌<◌, ◌≡◌, ◌≢◌, Bool, true, false, not, Option,
  none, some,
}
use oskernel.Param.{n_proc}
use oskernel.Lock.{Cpu, push_off, pop_off}
use oskernel.Proc.{
  proc_unused, proc_used, proc_runnable, proc_running, proc_sleeping, proc_zombie, Process, Procs,
  freed, wake, killed_one,
}

-- Where a CPU stands. In the loop of `scheduler`: before process `k`, or with the lock of process `p`;
-- on the stack of process `p`: behind `context_switch` with the lock that the scheduler took, in the
-- process's own code, with its lock taken again, or before `sched`, its state changed; and back in
-- `scheduler`, behind its `context_switch`.
pub data Pc : Type 0 where
  scanning : ℕ → Pc
  holding : ℕ → Pc
  resuming : ℕ → Pc
  executing : ℕ → Pc
  locked : ℕ → Pc
  ending : ℕ → Pc
  returned : ℕ → Pc

-- `owner p` is the CPU in the lock of process `p`, `running` the field `proc` of each `struct cpu`,
-- `others` the number of spin locks that a CPU holds besides the one in `owner`, and `saved` and `home`
-- are what a process's `sched` keeps in `intr_ena` and in `c`: the CPU on which it was called.
pub record Machine : Type 0 where
  pub owner : ℕ → Option ℕ
  pub procs : Procs
  pub running : ℕ → Option ℕ
  pub others : ℕ → ℕ
  pub saved : ℕ → Bool
  pub home : ℕ → ℕ
  pub cpu : ℕ → Cpu
  pub pc : ℕ → Pc

abbrev same_cpu : Option ℕ → ℕ → Bool
same_cpu none i = false
same_cpu (some j) i = j == i

-- `sched` up to `context_switch`, by CPU `i`, whose process is `p`.
pub sched : Machine → ℕ → ℕ → Run (Unit {0})
sched m i p = do
  panic_if (not (same_cpu (m.owner p) i)) "the process lock is not held during scheduling"
  panic_if (not ((m.cpu i).n_off == 1)) "locked during scheduling"
  panic_if ((m.procs p).state == proc_running) "schedule a running process"
  panic_if (m.cpu i).intr "scheduling can be interrupted"

-- CPU `i` takes the lock of process `p`, which is free, or gives it up and is left with `c`.
abbrev pub take_lock : Machine → ℕ → ℕ → Pc → Machine
take_lock m i p pc = record m {
  owner = update m.owner p (some i);
  cpu = update m.cpu i (push_off (m.cpu i));
  pc = update m.pc i pc;
}

abbrev pub drop_lock : Machine → ℕ → ℕ → Cpu → Pc → Machine
drop_lock m i p c pc = record m {
  owner = update m.owner p none;
  cpu = update m.cpu i c;
  pc = update m.pc i pc;
}

abbrev pub set_state : Machine → ℕ → ℕ → Machine
set_state m p s = record m { procs = update m.procs p (record (m.procs p) { state = s }) }

abbrev pub with_intr_ena : Cpu → Bool → Cpu
with_intr_ena c b = record c { intr_ena = b }

-- Whether the CPU is in the process's own code, before its `context_switch`.
abbrev pub on_stack : Pc → Bool
on_stack (scanning _) = false
on_stack (holding _) = false
on_stack (resuming _) = false
on_stack (executing _) = true
on_stack (locked _) = true
on_stack (ending _) = true
on_stack (returned _) = false

-- What a function does to a process under that process's lock, from another process or from an
-- interrupt: `wake_up`, `kill`, `proc_alloc`, the end of `fork`, `proc_free` in `fork` and in `wait`.
pub data Touch (p p' : Process) : Type 0 where
  wakes : (chan : ℕ) → p' ≡ wake chan p → Touch p p'
  kills : p' ≡ killed_one p → Touch p p'
  allots : p.state ≡ proc_unused → p'.state ≡ proc_used → Touch p p'
  readies : p.state ≡ proc_used → p' ≡ record p { state = proc_runnable } → Touch p p'
  undoes : p.state ≡ proc_used → p' ≡ freed p → Touch p p'
  reaps : p.state ≡ proc_zombie → p' ≡ freed p → Touch p p'

-- One step of CPU `i`; `p` is the process at hand.
pub data Step (m m' : Machine) : Type 0 where
  starts :
      (i : ℕ)
      → m.pc i ≡ scanning n_proc
      → m' ≡ record m {
        cpu = update m.cpu i (record (m.cpu i) { intr = true });
        pc = update m.pc i (scanning 0);
      }
      → Step m m'
  acquires :
      (i p : ℕ)
      → m.pc i ≡ scanning p
      → p < n_proc
      → m.owner p ≡ none
      → m' ≡ take_lock m i p (holding p)
      → Step m m'
  dispatches :
      (i p : ℕ)
      → m.pc i ≡ holding p
      → (m.procs p).state ≡ proc_runnable
      → m' ≡ record (set_state m p proc_running) {
        running = update m.running i (some p);
        pc = update m.pc i (resuming p);
      }
      → Step m m'
  skips :
      (i p : ℕ) (c : Cpu)
      → m.pc i ≡ holding p
      → (m.procs p).state ≢ proc_runnable
      → pop_off (m.cpu i) ≡ ok c
      → m' ≡ drop_lock m i p c (scanning (p + 1))
      → Step m m'
  -- The process returns from `sched`, whose last line writes to the CPU on which it was called, or it
  -- starts in `fork_return` and gives up its lock. The state does not tell which of the two it does.
  restores :
      (i p h : ℕ)
      → m.pc i ≡ resuming p
      → h ≡ m.home p
      → m' ≡ record m {
        cpu = update m.cpu h (with_intr_ena (m.cpu h) (m.saved p));
        pc = update m.pc i (locked p);
      }
      → Step m m'
  begins :
      (i p : ℕ) (c : Cpu)
      → m.pc i ≡ resuming p
      → pop_off (m.cpu i) ≡ ok c
      → m' ≡ drop_lock m i p c (executing p)
      → Step m m'
  -- `yield`, `sleep_on`, `do_exit`, `killed` and `set_killed` take the lock of the running process.
  relocks :
      (i p : ℕ)
      → m.pc i ≡ executing p
      → m.owner p ≡ none
      → m' ≡ take_lock m i p (locked p)
      → Step m m'
  unlocks :
      (i p : ℕ) (c : Cpu)
      → m.pc i ≡ locked p
      → pop_off (m.cpu i) ≡ ok c
      → m' ≡ drop_lock m i p c (executing p)
      → Step m m'
  yields :
      (i p : ℕ)
      → m.pc i ≡ locked p
      → m' ≡ record (set_state m p proc_runnable) { pc = update m.pc i (ending p) }
      → Step m m'
  sleeps :
      (i p : ℕ)
      → m.pc i ≡ locked p
      → m' ≡ record (set_state m p proc_sleeping) { pc = update m.pc i (ending p) }
      → Step m m'
  exits :
      (i p : ℕ)
      → m.pc i ≡ locked p
      → m' ≡ record (set_state m p proc_zombie) { pc = update m.pc i (ending p) }
      → Step m m'
  switches :
      (i p : ℕ)
      → m.pc i ≡ ending p
      → sched m i p ≡ ok tt
      → m' ≡ record m {
        saved = update m.saved p (m.cpu i).intr_ena;
        home = update m.home p i;
        pc = update m.pc i (returned p);
      }
      → Step m m'
  comes_back :
      (i p : ℕ) (c : Cpu)
      → m.pc i ≡ returned p
      → pop_off (m.cpu i) ≡ ok c
      → m' ≡ record (drop_lock m i p c (scanning (p + 1))) { running = update m.running i none }
      → Step m m'
  -- The process's code turns interrupts on or off, with no spin lock held.
  sets_intr :
      (i p : ℕ) (b : Bool)
      → m.pc i ≡ executing p
      → (m.cpu i).n_off ≡ 0
      → m' ≡ record m { cpu = update m.cpu i (record (m.cpu i) { intr = b }) }
      → Step m m'
  -- It takes or gives up another spin lock: in a call, in `sleep_on` with its own lock held, or in the
  -- `wake_up` at the end of `do_exit`.
  takes_other :
      (i p : ℕ)
      → on_stack (m.pc i) ≡ true
      → m' ≡ record m {
        others = update m.others i (m.others i + 1);
        cpu = update m.cpu i (push_off (m.cpu i));
      }
      → Step m m'
  drops_other :
      (i n : ℕ) (c : Cpu)
      → on_stack (m.pc i) ≡ true
      → m.others i ≡ n + 1
      → pop_off (m.cpu i) ≡ ok c
      → m' ≡ record m { others = update m.others i n; cpu = update m.cpu i c }
      → Step m m'
  touches :
      (q : ℕ) (p' : Process)
      → m.owner q ≡ none
      → Touch (m.procs q) p'
      → m' ≡ record m { procs = update m.procs q p' }
      → Step m m'

-- The CPUs enter `scheduler` with every lock free, and no process runs. What `sched` has kept for a
-- process that never called it is any value.
pub data Reaches : Machine → Type 0 where
  boot :
      (procs : Procs) (cpu : ℕ → Cpu) (saved : ℕ → Bool) (home : ℕ → ℕ)
      → ((p : ℕ) → (procs p).state ≢ proc_running)
      → ((i : ℕ) → (cpu i).n_off ≡ 0)
      → Reaches (record {
        owner = λ _. none;
        procs = procs;
        running = λ _. none;
        others = λ _. 0;
        saved = saved;
        home = home;
        cpu = cpu;
        pc = λ _. scanning n_proc;
      })
  later : {m m' : Machine} → Reaches m → Step m m' → Reaches m'
