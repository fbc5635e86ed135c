-- ===== src/Lock/Sleep.antt =====
-- The sleep locks of kernel/lock.c, one section under their spin lock at a time. A process is its
-- pid, and a `pid` of -1 is `none`.
pub mod Waiters
use oskernel.Prelude.{
  ◌==◌, Run, ok, ◌>>◌, panic_if, ℕ, Bool, true, false, not, ◌&&◌, Option, none, some,
}

pub record SleepLock : Type 0 where
  pub locked : Bool
  pub pid : Option ℕ

unfoldable pub sleep_lock_init : SleepLock
sleep_lock_init = record { locked = false; pid = none }

abbrev is_pid : Option ℕ → ℕ → Bool
is_pid none p = false
is_pid (some q) p = p == q

abbrev pub sleep_lock_holding : SleepLock → ℕ → Bool
sleep_lock_holding l p = l.locked && is_pid l.pid p

-- The check with which `sleep_lock_acquire` begins.
unfoldable pub acquire_check : SleepLock → ℕ → Run (Unit {0})
acquire_check l p = panic_if (sleep_lock_holding l p) "repeatedly acquire lock"

-- The loop of `sleep_lock_acquire` from one look at the lock to the next: `none` is `sleep_on`.
unfoldable pub acquire_once : SleepLock → ℕ → Option SleepLock
acquire_once l p = elim l.locked [
  | true ↦ none
  | false ↦ some (record { locked = true; pid = some p })
]

-- Followed by the `wake_up`, with the spin lock still held.
unfoldable pub sleep_lock_release : SleepLock → ℕ → Run SleepLock
sleep_lock_release l p = do
  panic_if (not (sleep_lock_holding l p)) "release unheld lock"
  ok (record { locked = false; pid = none })
