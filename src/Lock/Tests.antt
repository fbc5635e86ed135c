-- ===== src/Lock/Tests.antt =====
-- The theorems on locks at concrete inputs.
use oskernel.Prelude.{update, ok, ℕ, ◌≡◌, refl, ap, ◌↔◌, true, false, some, arith}
use oskernel.Lock.{Cpu, SpinLock, spin_lock_init, spin_lock_holding, acquire_start, release_start}
use oskernel.Lock.Nesting.{finish, section, enter_all, enter_all_lem}
use oskernel.Lock.Exclusion.{
  outside, waiting, inside, Machine, starts, tests, marks, Reaches, boot, later, owns,
  mutual_exclusion, holding_exact,
}
use oskernel.Lock.Sleep.{
  SleepLock, sleep_lock_init, acquire_check, acquire_once, sleep_lock_release,
}
use oskernel.Lock.Sleep.Waiters.{
  elsewhere, looking, asleep, holding, Sleepers, asks, takes, waits, Follows, nobody, after,
  one_holder, no_lost_wakeup,
}

abbrev running : Cpu
running = record { n_off = 0; intr_ena = false; intr = true }

enter_all_lem_example :
    (c' : Cpu) × (enter_all (section (section finish finish) (section finish finish)) running
      ≡ ok c')
    × (c'.n_off ≡ 0)
    × (c'.intr ≡ true)
enter_all_lem_example =
    enter_all_lem (section (section finish finish) (section finish finish)) running
      (record { masked = λ h. absurd (omega arith) })

-- CPU 1 in the section, CPU 2 in the loop.
contended :
    (m : Machine) × Reaches m × (m.pc 1 ≡ inside) × (m.pc 2 ≡ waiting) × (m.lock.cpuid ≡ some 1)
unfolding spin_lock_init acquire_start
contended = (
  _,
  later
      (later (later (later boot (starts 1 refl refl refl)) (starts 2 refl refl refl))
        (tests 1 refl refl))
      (marks 1 refl refl),
  refl,
  refl,
  refl,
)

mutual_exclusion_example : ◌≡◌ {A = ℕ} 1 1
mutual_exclusion_example =
    mutual_exclusion contended.1 1 1 (ap owns contended.2) (ap owns contended.2)

holding_exact_example :
    ((spin_lock_holding contended.0.lock 1 ≡ true) ↔ (contended.0.pc 1 ≡ inside))
    × (contended.0.pc 1 ≡ outside → acquire_start contended.0.lock 1 ≡ ok tt)
    × (contended.0.pc 1 ≡ inside → (l : SpinLock) × (release_start contended.0.lock 1 ≡ ok l))
holding_exact_example = holding_exact contended.1 1

-- Process 1 has the lock, and process 2 waits for it.
abbrev held_lock : SleepLock
held_lock = record { locked = true; pid = some 1 }

abbrev asked : Sleepers
asked = record { lock = sleep_lock_init; place = update (λ _. elsewhere) 1 looking }

abbrev held : Sleepers
held = record { lock = held_lock; place = update asked.place 1 holding }

abbrev asked_again : Sleepers
asked_again = record held { place = update held.place 2 looking }

abbrev with_sleeper : Sleepers
with_sleeper = record asked_again { place = update asked_again.place 2 asleep }

reaches_held : Follows held
unfolding sleep_lock_init acquire_check acquire_once
reaches_held = after (after nobody (asks 1 refl refl refl)) (takes 1 held_lock refl refl refl)

reaches_sleeper : Follows with_sleeper
unfolding acquire_check acquire_once
reaches_sleeper = after (after reaches_held (asks 2 refl refl refl)) (waits 2 refl refl refl)

one_holder_example : ◌≡◌ {A = ℕ} 1 1
one_holder_example = one_holder reaches_held 1 1 refl refl

no_lost_wakeup_example :
    (q : ℕ) × (with_sleeper.place q ≡ holding)
    × (l : SleepLock) × (sleep_lock_release with_sleeper.lock q ≡ ok l)
no_lost_wakeup_example = no_lost_wakeup reaches_sleeper 2 refl
