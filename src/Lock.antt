-- ===== src/Lock.antt =====
-- kernel/lock.c and the interrupt nesting of kernel/sched/cpu.c: spin locks, taken by many CPUs.
pub mod Nesting
pub mod Exclusion
pub mod Sleep
mod Tests
use oskernel.Prelude.{
  ltb, ◌==◌, if◌then◌else◌, Run, ok, ◌>>◌, panic_if, ℕ, ◌+◌, ◌-◌, Bool, true, false, not, ◌&&◌,
  Option, none, some,
}

-- `struct cpu` without its process and context, and the interrupt enable bit of the hardware.
pub record Cpu : Type 0 where
  pub n_off : ℕ
  pub intr_ena : Bool
  pub intr : Bool

unfoldable pub push_off : Cpu → Cpu
push_off c = record {
  n_off = c.n_off + 1;
  intr_ena = if c.n_off == 0 then c.intr else c.intr_ena;
  intr = false;
}

unfoldable pub pop_off : Cpu → Run Cpu
pop_off c = do
  panic_if c.intr "interrupts enabled"
  panic_if (ltb c.n_off 1) "pop off"
  let n = c.n_off - 1
  ok (record c { n_off = n; intr = if (n == 0) && c.intr_ena then true else c.intr })

-- `struct spin_lock` without its name; `none` is the CPU number -1.
pub record SpinLock : Type 0 where
  pub locked : Bool
  pub cpuid : Option ℕ

pub spin_lock_init : SpinLock
spin_lock_init = record { locked = false; cpuid = none }

abbrev same_cpu : Option ℕ → ℕ → Bool
same_cpu none me = false
same_cpu (some cpu) me = cpu == me

-- `me` is the number of the CPU that asks.
abbrev pub spin_lock_holding : SpinLock → ℕ → Bool
spin_lock_holding l me = l.locked && same_cpu l.cpuid me

-- `spin_lock_acquire` up to its loop.
pub acquire_start : SpinLock → ℕ → Run (Unit {0})
acquire_start l me = panic_if (spin_lock_holding l me) "repeatedly acquire lock"

-- `__sync_lock_test_and_set(&lock->locked, true)`: the old value and the new lock.
abbrev pub test_and_set : SpinLock → Bool × SpinLock
test_and_set l = (l.locked, record l { locked = true })

-- The end of `spin_lock_acquire`, by the CPU whose test and set returned false.
abbrev pub acquire_finish : SpinLock → ℕ → SpinLock
acquire_finish l me = record l { cpuid = some me }

-- `spin_lock_release` up to the barrier.
pub release_start : SpinLock → ℕ → Run SpinLock
release_start l me = do
  panic_if (not (spin_lock_holding l me)) "release unheld lock"
  ok (record l { cpuid = none })

abbrev pub release_finish : SpinLock → SpinLock
release_finish l = record l { locked = false }
