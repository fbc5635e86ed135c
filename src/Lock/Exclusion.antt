-- ===== src/Lock/Exclusion.antt =====
-- Any number of CPUs that take and release one spin lock, step by step.
use oskernel.Prelude.{
  if◌then◌else◌, update, ok, ℕ, ◌≡◌, refl, ◌↔◌, Bool, true, false, none, some, arith,
}
use oskernel.Lock.{
  SpinLock, spin_lock_init, spin_lock_holding, acquire_start, test_and_set, acquire_finish,
  release_start, release_finish,
}

-- Where a CPU stands: outside, in the loop of `spin_lock_acquire`, between the test and set and the
-- store of its number, in the critical section, or in `spin_lock_release` with its number cleared.
pub data Pc : Type 0 where
  outside waiting entering inside leaving : Pc

pub record Machine : Type 0 where
  pub lock : SpinLock
  pub pc : ℕ → Pc

abbrev pub at : Machine → SpinLock → ℕ → Pc → Machine
at m l i p = record { lock = l; pc = update m.pc i p }

-- One step of CPU `i`. The checks of `acquire_start` and `release_start` must pass.
pub data Step (m m' : Machine) : Type 0 where
  starts :
      (i : ℕ)
      → m.pc i ≡ outside
      → acquire_start m.lock i ≡ ok tt
      → m' ≡ at m m.lock i waiting
      → Step m m'
  tests :
      (i : ℕ)
      → m.pc i ≡ waiting
      → m' ≡ (let (old, l) = test_and_set m.lock in at m l i (if old then waiting else entering))
      → Step m m'
  marks : (i : ℕ) → m.pc i ≡ entering → m' ≡ at m (acquire_finish m.lock i) i inside → Step m m'
  unmarks :
      (i : ℕ) (l : SpinLock)
      → m.pc i ≡ inside
      → release_start m.lock i ≡ ok l
      → m' ≡ at m l i leaving
      → Step m m'
  frees : (i : ℕ) → m.pc i ≡ leaving → m' ≡ at m (release_finish m.lock) i outside → Step m m'

pub data Reaches : Machine → Type 0 where
  boot : Reaches (record { lock = spin_lock_init; pc = λ _. outside })
  later : {m m' : Machine} → Reaches m → Step m m' → Reaches m'

-- From the successful test and set to the store that frees the lock.
abbrev pub owns : Pc → Bool
owns outside = false
owns waiting = false
owns entering = true
owns inside = true
owns leaving = true

record Inv (m : Machine) : Type 0 where
  unique : (i j : ℕ) → owns (m.pc i) ≡ true → owns (m.pc j) ≡ true → i ≡ j
  free : (i : ℕ) → m.lock.locked ≡ false → owns (m.pc i) ≡ false
  marked : (i : ℕ) → m.lock.cpuid ≡ some i → m.pc i ≡ inside
  inside_marked : (i : ℕ) → m.pc i ≡ inside → m.lock.cpuid ≡ some i

-- Every step keeps the lock with one owner at most, which is the CPU in it when it is in the section.
Step-Inv : {m m' : Machine} → Step m m' → Inv m → Inv m'
unfolding acquire_start release_start
Step-Inv {m} {m'} (starts i p a e) v = rw e (record {
  unique =
      λ j k hj hk. ground (arith, v.unique j k, v.unique i j, v.unique i k, v.free j, v.free k);
  free = λ j h. ground (arith, v.free j, v.unique i j);
  marked = λ j h. ground (arith, v.marked j, v.inside_marked i);
  inside_marked = λ j h. ground (arith, v.inside_marked j, v.unique i j, v.free j);
})
Step-Inv {m} {m'} (tests i p e) v = rw e (record {
  unique =
      λ j k hj hk. ground (arith, v.unique j k, v.unique i j, v.unique i k, v.free j, v.free k);
  free = λ j h. ground (arith, v.free j, v.unique i j);
  marked = λ j h. ground (arith, v.marked j, v.inside_marked i);
  inside_marked = λ j h. ground (arith, v.inside_marked j, v.unique i j, v.free j);
})
Step-Inv {m} {m'} (marks i p e) v = rw e (record {
  unique =
      λ j k hj hk. ground (arith, v.unique j k, v.unique i j, v.unique i k, v.free j, v.free k);
  free = λ j h. ground (arith, v.free j, v.unique i j);
  marked = λ j h. ground (arith, v.marked j, v.inside_marked i);
  inside_marked = λ j h. ground (arith, v.inside_marked j, v.unique i j, v.free j);
})
Step-Inv {m} {m'} (unmarks i l p a e) v = rw e (record {
  unique =
      λ j k hj hk. ground (arith, v.unique j k, v.unique i j, v.unique i k, v.free j, v.free k);
  free = λ j h. ground (arith, v.free j, v.unique i j);
  marked = λ j h. ground (arith, v.marked j, v.inside_marked i);
  inside_marked = λ j h. ground (arith, v.inside_marked j, v.unique i j, v.free j);
})
Step-Inv {m} {m'} (frees i p e) v = rw e (record {
  unique =
      λ j k hj hk. ground (arith, v.unique j k, v.unique i j, v.unique i k, v.free j, v.free k);
  free = λ j h. ground (arith, v.free j, v.unique i j);
  marked = λ j h. ground (arith, v.marked j, v.inside_marked i);
  inside_marked = λ j h. ground (arith, v.inside_marked j, v.unique i j, v.free j);
})

Reaches-Inv : {m : Machine} → Reaches m → Inv m
unfolding spin_lock_init
Reaches-Inv boot = record {
  unique = λ i j hi hj. cc;
  free = λ i h. refl;
  marked = λ i h. cc;
  inside_marked = λ i h. cc;
}
Reaches-Inv (later r s) = Step-Inv s (Reaches-Inv r)

-- In every state that CPUs reach by taking and releasing a lock, at most one of them is between its
-- test and set and the store that frees the lock.
pub mutual_exclusion :
    {m : Machine} → Reaches m → (i j : ℕ) → owns (m.pc i) ≡ true → owns (m.pc j) ≡ true → i ≡ j
mutual_exclusion r = (Reaches-Inv r).unique

-- `spin_lock_holding`, which reads the lock with no lock held, is exact in every state that CPUs
-- reach by taking and releasing a lock: a CPU
-- gets true exactly in its critical section. So no CPU outside panics when it starts to take the lock,
-- and none in the section when it releases it.
pub holding_exact :
    {m : Machine}
    → Reaches m
    → (i : ℕ)
    → ((spin_lock_holding m.lock i ≡ true) ↔ (m.pc i ≡ inside))
      × (m.pc i ≡ outside → acquire_start m.lock i ≡ ok tt)
      × (m.pc i ≡ inside → (l : SpinLock) × (release_start m.lock i ≡ ok l))
unfolding acquire_start release_start
holding_exact {m} r i =
    let v = Reaches-Inv r in
    let owned : m.pc i ≡ inside → m.lock.locked ≡ true = λ h. ground (arith, v.free i) in
    (
      ((λ h. ground (arith, v.marked i)), (λ h. ground (arith, v.inside_marked i h, owned h))),
      (λ h. ground (arith, v.marked i)),
      (λ h. (record (m.lock) { cpuid = none }, ground (arith, v.inside_marked i h, owned h))),
    )
