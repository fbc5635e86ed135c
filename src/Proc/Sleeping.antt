-- ===== src/Proc/Sleeping.antt =====
-- `wake_up` and `kill`: who becomes runnable.
use oskernel.Prelude.{
  if◌then◌else◌, Bool-cases, update, update_self, update_ne, ℤ, ℕ, zero, suc, ◌+◌, ◌≤◌, ◌<◌, ◌≡◌,
  refl, sym, ap, ◌∙◌, subst, ◌≢◌, inl, inr, true, false, Option, none, some, arith, ℕ_discrete,
}
use oskernel.Param.{n_proc}
use oskernel.Proc.{Procs, is_proc, wake, wake_from, wake_up, same, killed_one, kill_from, kill}

-- One round, and the loop on the processes before `i` and from `i` on.
abbrev round : Option ℕ → ℕ → ℕ → Procs → Procs
round rp chan i procs = if is_proc rp i then procs else update procs i (wake chan (procs i))

round_other :
    (rp : Option ℕ) (chan i : ℕ) (procs : Procs) (j : ℕ) → i ≢ j → round rp chan i procs j ≡ procs j
round_other rp chan i procs j ne = elim (Bool-cases (is_proc rp i)) [
  | inl own ↦ rw own refl
  | inr other ↦ rw other (update_ne procs i (wake chan (procs i)) j ne)
]

round_self :
    (rp : Option ℕ) (chan j : ℕ) (procs : Procs)
    → round rp chan j procs j ≡ (if is_proc rp j then procs j else wake chan (procs j))
round_self rp chan j procs = elim (Bool-cases (is_proc rp j)) [
  | inl own ↦ rw own refl
  | inr other ↦ rw other (update_self procs j (wake chan (procs j)))
]

wake_from_before :
    (rp : Option ℕ) (chan k i : ℕ) (procs : Procs) (j : ℕ)
    → j < i
    → wake_from rp chan k i procs j ≡ procs j
unfolding wake_from
wake_from_before rp chan zero i procs j h = refl
wake_from_before rp chan (suc k) i procs j h =
    wake_from_before rp chan k (i + 1) (round rp chan i procs) j (omega arith)
    ∙ round_other rp chan i procs j (λ e. omega arith)

wake_from_lem :
    (rp : Option ℕ) (chan k i : ℕ) (procs : Procs) (j : ℕ)
    → i ≤ j
    → j < i + k
    → wake_from rp chan k i procs j ≡ (if is_proc rp j then procs j else wake chan (procs j))
unfolding wake_from
wake_from_lem rp chan zero i procs j lo hi = absurd (omega arith)
wake_from_lem rp chan (suc k) i procs j lo hi = elim (ℕ_discrete i j) [
  | yes e ↦
      wake_from_before rp chan k (i + 1) (round rp chan i procs) j (omega arith)
      ∙ subst
          (λ x. round rp chan x procs j ≡ (if is_proc rp j then procs j else wake chan (procs j)))
          (sym e) (round_self rp chan j procs)
  | no ne ↦
      let same : round rp chan i procs j ≡ procs j = round_other rp chan i procs j ne in
      wake_from_lem rp chan k (i + 1) (round rp chan i procs) j (omega arith) (omega arith)
      ∙ ap (λ p. if is_proc rp j then p else wake chan p) same
]

-- `wake_up(chan)` makes every process that sleeps on `chan` runnable, except the running one, and
-- changes nothing else of any process.
pub wake_up_lem :
    (rp : Option ℕ) (chan : ℕ) (procs : Procs) (j : ℕ)
    → j < n_proc
    → wake_up rp chan procs j ≡ (if is_proc rp j then procs j else wake chan (procs j))
unfolding wake_up
wake_up_lem rp chan procs j h = wake_from_lem rp chan n_proc 0 procs j (omega arith) (omega arith)

-- What a search for the process with number `pid` comes to.
pub data Killed (pid : ℤ) (i end : ℕ) (procs : Procs) (r : Option Procs) : Type 0 where
  nobody :
      r ≡ none
      → ((j : ℕ) → i ≤ j → j < end → same (procs j).pid pid ≡ false)
      → Killed pid i end procs r
  victim :
      (v : ℕ)
      → v < end
      → same (procs v).pid pid ≡ true
      → ((j : ℕ) → i ≤ j → j < v → same (procs j).pid pid ≡ false)
      → r ≡ some (update procs v (killed_one (procs v)))
      → Killed pid i end procs r

kill_from-Killed :
    (pid : ℤ) (k i end : ℕ) (procs : Procs)
    → i + k ≡ end
    → Killed pid i end procs (kill_from pid k i procs)
unfolding kill_from
kill_from-Killed pid zero i end procs e = nobody refl (λ j lo hi. absurd (omega arith))
kill_from-Killed pid (suc k) i end procs e = elim (Bool-cases (same (procs i).pid pid)) [
  | inl here ↦ rw here (victim i (omega arith) here (λ j lo hi. absurd (omega arith)) refl)
  | inr other ↦
      let widen : (j : ℕ)
          → (i + 1 ≤ j → same (procs j).pid pid ≡ false)
          → i ≤ j
          → same (procs j).pid pid ≡ false =
        λ j h lo. elim (ℕ_discrete i j) [ yes q ↦ rw (← q) other | no q ↦ h (omega arith) ] in
      rw other (elim (kill_from-Killed pid k (i + 1) end procs (omega arith)) [
        | nobody r all ↦ nobody r (λ j lo hi. widen j (λ l. all j l hi) lo)
        | victim v lt c all r ↦ victim v lt c (λ j lo hi. widen j (λ l. all j l hi) lo) r
      ])
]

-- `kill` fails exactly when no process has the number; otherwise it marks the first one that has it as
-- killed, makes that process runnable if it sleeps, and changes nothing else.
pub kill-Killed : (pid : ℤ) (procs : Procs) → Killed pid 0 n_proc procs (kill pid procs)
unfolding kill
kill-Killed pid procs = kill_from-Killed pid n_proc 0 n_proc procs (omega arith)
