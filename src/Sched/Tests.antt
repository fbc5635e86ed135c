-- ===== src/Sched/Tests.antt =====
-- A CPU that runs process 0 up to `sched`.
use oskernel.Sched.{
  ending, Machine, sched, starts, acquires, dispatches, begins, relocks, yields, Reaches, boot,
  later,
}
use oskernel.Sched.Exclusive.{runs, one_cpu_runs, sched_passes}
use oskernel.Prelude.{
  ◌==◌, if◌then◌else◌, pos, ok, panic, ℕ, ◌≡◌, refl, ap, true, false, none, some, arith,
}
use oskernel.Proc.{proc_unused, proc_runnable, Procs}
use oskernel.Lock.{Cpu, push_off, pop_off}

abbrev one_runnable : Procs
one_runnable i = record {
  state = if i == 0 then proc_runnable else proc_unused;
  chan = 0;
  killed = false;
  xstate = pos 0;
  pid = pos i;
  parent = none;
  size = 0;
  page_table = none;
  tf = none;
  ofile = λ _. none;
  cwd = none;
}

abbrev idle : Cpu
idle = record { n_off = 0; intr_ena = false; intr = false }

at_sched : (m : Machine) × Reaches m × (m.pc 0 ≡ ending 0)
unfolding push_off pop_off
at_sched = (
  _,
  later
      (later
        (later
          (later
            (later
              (later
                (boot one_runnable (λ _. idle) (λ _. false) (λ _. 0) (λ p h. ground arith)
                  (λ i. refl))
                (starts 0 refl refl))
              (acquires 0 0 refl (omega arith) refl refl))
            (dispatches 0 0 refl refl refl))
          (begins 0 0 (record { n_off = 0; intr_ena = true; intr = true }) refl refl refl))
        (relocks 0 0 refl refl refl))
      (yields 0 0 refl refl),
  refl,
)

one_cpu_runs_example : ◌≡◌ {A = ℕ} 0 0
one_cpu_runs_example =
    one_cpu_runs at_sched.1 0 0 0 (ap (λ pc. runs pc 0) at_sched.2)
      (ap (λ pc. runs pc 0) at_sched.2)

sched_passes_example :
    (at_sched.0.running 0 ≡ some 0)
    × (sched at_sched.0 0 0
        ≡ (if at_sched.0.others 0 == 0 then ok tt else panic "locked during scheduling"))
sched_passes_example = sched_passes at_sched.1 0 0 at_sched.2
