-- ===== src/Sched/Exclusive.antt =====
-- A process runs on one CPU at a time, under the lock that `scheduler` and `sched` pass on.
use oskernel.Prelude.{
  ◌==◌, if◌then◌else◌, ok, panic, ℕ, ◌+◌, ◌<◌, ◌≡◌, ◌≢◌, ◌↔◌, Bool, true, false, some, arith,
}
use oskernel.Lock.{push_off, pop_off}
use oskernel.Proc.{proc_running, Process}
use oskernel.Sched.{
  Pc, scanning, holding, resuming, executing, locked, ending, returned, Machine, sched, on_stack,
  Touch, wakes, kills, allots, readies, undoes, reaps, Step, starts, acquires, dispatches, skips,
  restores, begins, relocks, unlocks, yields, sleeps, exits, switches, comes_back, sets_intr,
  takes_other, drops_other, touches, Reaches, boot, later,
}

-- Whose lock a CPU holds.
abbrev pub holds_lock : Pc → ℕ → Bool
holds_lock (scanning _) q = false
holds_lock (holding p) q = p == q
holds_lock (resuming p) q = p == q
holds_lock (executing _) q = false
holds_lock (locked p) q = p == q
holds_lock (ending p) q = p == q
holds_lock (returned p) q = p == q

abbrev locks : Pc → ℕ
locks (scanning _) = 0
locks (holding _) = 1
locks (resuming _) = 1
locks (executing _) = 0
locks (locked _) = 1
locks (ending _) = 1
locks (returned _) = 1

-- Whose code a CPU executes, up to the change of the process's state.
abbrev active : Pc → ℕ → Bool
active (scanning _) q = false
active (holding _) q = false
active (resuming p) q = p == q
active (executing p) q = p == q
active (locked p) q = p == q
active (ending _) q = false
active (returned _) q = false

-- On whose stack a CPU is.
abbrev pub runs : Pc → ℕ → Bool
runs (scanning _) q = false
runs (holding _) q = false
runs (resuming p) q = p == q
runs (executing p) q = p == q
runs (locked p) q = p == q
runs (ending p) q = p == q
runs (returned _) q = false

-- What a state keeps: of process `p` and of two CPUs.
Inv : Machine → Type 0
Inv m =
    (p i j : ℕ)
    → (m.owner p ≡ some i → holds_lock (m.pc i) p ≡ true)
      × (holds_lock (m.pc i) p ≡ true → m.owner p ≡ some i)
      × (active (m.pc i) p ≡ true → (m.procs p).state ≡ proc_running)
      × (m.pc i ≡ ending p → (m.procs p).state ≢ proc_running)
      × (active (m.pc i) p ≡ true → active (m.pc j) p ≡ true → i ≡ j)
      × (runs (m.pc i) p ≡ true → m.running i ≡ some p)
      × ((m.cpu i).n_off ≡ locks (m.pc i) + m.others i)
      × (on_stack (m.pc i) ≡ false → m.others i ≡ 0)
      × (0 < (m.cpu i).n_off → (m.cpu i).intr ≡ false)

-- What another process or an interrupt does to a process neither makes it run nor stops it.
Touch-running : {p p' : Process} → Touch p p' → (p.state ≡ proc_running) ↔ (p'.state ≡ proc_running)
Touch-running (wakes chan e) = rw e (ground arith)
Touch-running (kills e) = rw e (ground arith)
Touch-running (allots a e) = ground arith
Touch-running (readies a e) = rw e (ground arith)
Touch-running (undoes a e) = rw e (ground arith)
Touch-running (reaps a e) = rw e (ground arith)

Step-Inv : {m m' : Machine} → Step m m' → Inv m → Inv m'
unfolding Inv push_off pop_off sched
Step-Inv (starts i a e) v =
    rw e (λ q j k. ground (arith, v q j k, v q k j, v q i j, v q i i, v q j i))
Step-Inv (acquires i p a lt b e) v =
    rw e (λ q j k. ground (arith, v q j k, v q k j, v q i j, v p i i, v p j i))
Step-Inv (dispatches i p a b e) v =
    rw e (λ q j k. ground (arith, v q j k, v q k j, v q i j, v p i i, v p j i))
Step-Inv (skips i p c a b d e) v =
    rw e (λ q j k. ground (arith, v q j k, v q k j, v q i j, v p i i, v p j i))
Step-Inv (restores i p h a b e) v =
    rw e (λ q j k. ground (arith, v q j k, v q k j, v q i j, v p i i, v p j i))
Step-Inv (begins i p c a b e) v =
    rw e (λ q j k. ground (arith, v q j k, v q k j, v q i j, v p i i, v p j i))
Step-Inv (relocks i p a b e) v =
    rw e (λ q j k. ground (arith, v q j k, v q k j, v q i j, v p i i, v p j i))
Step-Inv (unlocks i p c a b e) v =
    rw e (λ q j k. ground (arith, v q j k, v q k j, v q i j, v p i i, v p j i))
Step-Inv (yields i p a e) v =
    rw e (λ q j k. ground (arith, v q j k, v q k j, v q i j, v p i i, v p j i))
Step-Inv (sleeps i p a e) v =
    rw e (λ q j k. ground (arith, v q j k, v q k j, v q i j, v p i i, v p j i))
Step-Inv (exits i p a e) v =
    rw e (λ q j k. ground (arith, v q j k, v q k j, v q i j, v p i i, v p j i))
Step-Inv (switches i p a b e) v =
    rw e (λ q j k. ground (arith, v q j k, v q k j, v q i j, v p i i, v p j i))
Step-Inv (comes_back i p c a b e) v =
    rw e (λ q j k. ground (arith, v q j k, v q k j, v q i j, v p i i, v p j i))
Step-Inv (sets_intr i p b a d e) v =
    rw e (λ q j k. ground (arith, v q j k, v q k j, v q i j, v q i i, v q j i))
Step-Inv (takes_other i p a e) v =
    rw e (λ q j k. ground (arith, v q j k, v q k j, v q i j, v q i i, v q j i))
Step-Inv (drops_other i n c a b d e) v =
    rw e (λ q j k. ground (arith, v q j k, v q k j, v q i j, v q i i, v q j i))
Step-Inv (touches p p' a t e) v = rw e (λ q j k. ground (arith, v q j k, v q k j, Touch-running t))

Reaches-Inv : {m : Machine} → Reaches m → Inv m
unfolding Inv
Reaches-Inv (boot procs cpu saved home none_runs unlocked) = λ p i j. ground (arith, unlocked i)
Reaches-Inv (later r s) = Step-Inv s (Reaches-Inv r)

-- In every state that CPUs reach by scheduling, no process is on two CPUs: not in its own code, not on
-- its way from the scheduler, nor on its way to `sched`.
pub one_cpu_runs :
    {m : Machine}
    → Reaches m
    → (p i j : ℕ) → runs (m.pc i) p ≡ true
    → runs (m.pc j) p ≡ true
    → i ≡ j
unfolding Inv
one_cpu_runs r p i j hi hj = let v = Reaches-Inv r in ground (arith, v p i j, v p j i)

-- In every state that CPUs reach by scheduling, a CPU about to call `sched` in process `p` calls it
-- for the process that `running_proc` returns, and `sched` goes on to `context_switch` exactly when
-- the CPU holds no spin lock besides that of `p`. Otherwise it panics since it is locked: its other
-- checks, that the lock of `p` is held, `p` is not marked as running and interrupts are off, never
-- fail.
pub sched_passes :
    {m : Machine}
    → Reaches m
    → (i p : ℕ) → m.pc i ≡ ending p
    → (m.running i ≡ some p)
      × (sched m i p ≡ (if m.others i == 0 then ok tt else panic "locked during scheduling"))
unfolding Inv sched
sched_passes r i p h = let v = Reaches-Inv r in ground (arith, v p i i)
