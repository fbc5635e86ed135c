-- ===== src/Lock/Sleep/Waiters.antt =====
-- Any number of processes that take and release one sleep lock.
use oskernel.Prelude.{
  Option-cases, update, ok, ℕ, ◌≡◌, ◌≢◌, inl, inr, true, false, none, some, arith,
}
use oskernel.Lock.Sleep.{
  SleepLock, sleep_lock_init, acquire_check, acquire_once, sleep_lock_release,
}

-- Where a process stands: outside, about to look at the lock, asleep in `sleep_on`, or with the lock.
pub data Place : Type 0 where
  elsewhere looking asleep holding : Place

abbrev pub woken : Place → Place
woken elsewhere = elsewhere
woken looking = looking
woken asleep = looking
woken holding = holding

pub record Sleepers : Type 0 where
  pub lock : SleepLock
  pub place : ℕ → Place

-- One step of process `p`. A process that sleeps is woken by `wake_up`, or by `kill`.
pub data Turn (m m' : Sleepers) : Type 0 where
  asks :
      (p : ℕ)
      → m.place p ≡ elsewhere
      → acquire_check m.lock p ≡ ok tt
      → m' ≡ record m { place = update m.place p looking }
      → Turn m m'
  takes :
      (p : ℕ) (l : SleepLock)
      → m.place p ≡ looking
      → acquire_once m.lock p ≡ some l
      → m' ≡ record { lock = l; place = update m.place p holding }
      → Turn m m'
  waits :
      (p : ℕ)
      → m.place p ≡ looking
      → acquire_once m.lock p ≡ none
      → m' ≡ record m { place = update m.place p asleep }
      → Turn m m'
  killed :
      (p : ℕ) → m.place p ≡ asleep → m' ≡ record m { place = update m.place p looking } → Turn m m'
  releases :
      (p : ℕ) (l : SleepLock)
      → m.place p ≡ holding
      → sleep_lock_release m.lock p ≡ ok l
      → m' ≡ record { lock = l; place = λ q. woken (update m.place p elsewhere q) }
      → Turn m m'

pub data Follows : Sleepers → Type 0 where
  nobody : Follows (record { lock = sleep_lock_init; place = λ _. elsewhere })
  after : {m m' : Sleepers} → Follows m → Turn m m' → Follows m'

-- The lock names who has it, and a process sleeps only while the lock is held.
record Kept (m : Sleepers) : Type 0 where
  named : (p : ℕ) → m.place p ≡ holding → (m.lock.locked ≡ true) × (m.lock.pid ≡ some p)
  held : (p : ℕ) → m.lock.pid ≡ some p → m.place p ≡ holding
  someone : m.lock.locked ≡ true → m.lock.pid ≢ none
  sleeping : (p : ℕ) → m.place p ≡ asleep → m.lock.locked ≡ true

Turn-Kept : {m m' : Sleepers} → Turn m m' → Kept m → Kept m'
unfolding acquire_once sleep_lock_release
Turn-Kept (asks p at check e) v = rw e (record {
  named = λ q h. ground (arith, v.named q, v.named p);
  held = λ q h. ground (arith, v.held q, v.named p);
  someone = λ h. ground (arith, v.someone, v.named p);
  sleeping = λ q h. ground (arith, v.sleeping q, v.named p);
})
Turn-Kept (takes p l at got e) v = rw e (record {
  named = λ q h. ground (arith, v.named q, v.named p);
  held = λ q h. ground (arith, v.held q, v.named p);
  someone = λ h. ground (arith, v.someone, v.named p);
  sleeping = λ q h. ground (arith, v.sleeping q, v.named p);
})
Turn-Kept (waits p at none_yet e) v = rw e (record {
  named = λ q h. ground (arith, v.named q, v.named p);
  held = λ q h. ground (arith, v.held q, v.named p);
  someone = λ h. ground (arith, v.someone, v.named p);
  sleeping = λ q h. ground (arith, v.sleeping q, v.named p);
})
Turn-Kept (killed p at e) v = rw e (record {
  named = λ q h. ground (arith, v.named q, v.named p);
  held = λ q h. ground (arith, v.held q, v.named p);
  someone = λ h. ground (arith, v.someone, v.named p);
  sleeping = λ q h. ground (arith, v.sleeping q, v.named p);
})
Turn-Kept (releases p l at done e) v = rw e (record {
  named = λ q h. ground (arith, v.named q, v.named p);
  held = λ q h. ground (arith, v.held q, v.named p);
  someone = λ h. ground (arith, v.someone, v.named p);
  sleeping = λ q h. ground (arith, v.sleeping q, v.named p);
})

Follows-Kept : {m : Sleepers} → Follows m → Kept m
unfolding sleep_lock_init
Follows-Kept nobody = record {
  named = λ p h. cc;
  held = λ p h. cc;
  someone = λ h. cc;
  sleeping = λ p h. cc;
}
Follows-Kept (after f t) = Turn-Kept t (Follows-Kept f)

-- In every state that processes reach by taking and releasing a sleep lock, two processes that have it
-- are the same.
pub one_holder :
    {m : Sleepers} → Follows m → (p q : ℕ) → m.place p ≡ holding → m.place q ≡ holding → p ≡ q
one_holder f p q hp hq =
    let v = Follows-Kept f in
    let (_, a) = v.named p hp in let (_, b) = v.named q hq in ground (arith, a, b)

-- No wake-up is lost: in every state that processes reach by taking and releasing a sleep lock, while a
-- process sleeps on the lock, some process has it, and the `sleep_lock_release` of that one succeeds.
pub no_lost_wakeup :
    {m : Sleepers}
    → Follows m
    → (p : ℕ) → m.place p ≡ asleep
    → (q : ℕ) × (m.place q ≡ holding) × (l : SleepLock) × (sleep_lock_release m.lock q ≡ ok l)
unfolding sleep_lock_release
no_lost_wakeup {m} f p h =
    let v = Follows-Kept f in
    let locked = v.sleeping p h in
    elim (Option-cases m.lock.pid) [
      | inl unnamed ↦ absurd (v.someone locked unnamed)
      | inr (q, pid) ↦
          (q, v.held q pid, record { locked = false; pid = none }, ground (arith, locked, pid))
    ]
