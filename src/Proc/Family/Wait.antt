-- ===== src/Proc/Family/Wait.antt =====
-- `wait`: what it finds among the children, and what it does.
use oskernel.Prelude.{
  ◌==◌, Bool-cases, update, ℕ, zero, suc, ◌+◌, ◌≤◌, ◌<◌, ◌≡◌, refl, ap, subst, ◌≢◌, ◌⊎◌, inl, inr,
  Bool, true, false, some, arith, ℕ_discrete,
}
use oskernel.Param.{n_proc}
use oskernel.Proc.{proc_zombie, Procs, Kernel, proc_free, is_proc, sleeper}
use oskernel.Proc.Family.{
  address, Pass, zombie, children, pass, Waited, reaped, fails, sleeps, wait,
}

-- What a pass of `wait` finds in the processes from `i` to `end`.
pub data Finds (procs : Procs) (me i end : ℕ) (have : Bool) (r : Pass) : Type 0 where
  dead :
      (c : ℕ)
      → r ≡ zombie c
      → c < end
      → is_proc (procs c).parent me ≡ true
      → (procs c).state ≡ proc_zombie
      → ((j : ℕ)
          → i ≤ j
          → j < c
          → is_proc (procs j).parent me ≡ true
          → (procs j).state ≢ proc_zombie)
      → Finds procs me i end have r
  alive :
      (c : ℕ)
      → r ≡ children true
      → (have ≡ true) ⊎ ((c < end) × (is_proc (procs c).parent me ≡ true))
      → ((j : ℕ)
          → i ≤ j
          → j < end
          → is_proc (procs j).parent me ≡ true
          → (procs j).state ≢ proc_zombie)
      → Finds procs me i end have r
  childless :
      r ≡ children false
      → have ≡ false
      → ((j : ℕ) → i ≤ j → j < end → is_proc (procs j).parent me ≡ false)
      → Finds procs me i end have r

pass-Finds :
    (procs : Procs) (me k i end : ℕ) (have : Bool)
    → i + k ≡ end
    → Finds procs me i end have (pass procs me k i have)
unfolding pass
pass-Finds procs me zero i end true e = alive 0 refl (inl refl) (λ j lo hi. absurd (omega arith))
pass-Finds procs me zero i end false e = childless refl refl (λ j lo hi. absurd (omega arith))
pass-Finds procs me (suc k) i end have e = elim (Bool-cases (is_proc (procs i).parent me)) [
  | inr other ↦ rw other (elim (pass-Finds procs me k (i + 1) end have (omega arith)) [
    | dead c r lt p z before ↦ dead c r lt p z (λ j lo hi q. elim (ℕ_discrete i j) [
      | yes e ↦ ground (arith, other, q, ap (λ x. is_proc (procs x).parent me) e)
      | no ne ↦ before j (omega arith) hi q
    ])
    | alive c r some_child none_dead ↦ alive c r some_child (λ j lo hi q. elim (ℕ_discrete i j) [
      | yes e ↦ ground (arith, other, q, ap (λ x. is_proc (procs x).parent me) e)
      | no ne ↦ none_dead j (omega arith) hi q
    ])
    | childless r h nobody ↦ childless r h (λ j lo hi. elim (ℕ_discrete i j) [
      | yes e ↦ rw (← e) other
      | no ne ↦ nobody j (omega arith) hi
    ])
  ])
  | inl mine ↦ rw mine (elim (ℕ_discrete (procs i).state proc_zombie) [
    | yes z ↦ rw z (dead i refl (omega arith) mine z (λ j lo hi. absurd (omega arith)))
    | no z ↦
        let go : ((procs i).state == proc_zombie) ≡ false = ground (arith, z) in
        let rest = pass-Finds procs me k (i + 1) end true (omega arith) in
        rw go (elim rest [
          | dead c r lt p z' before ↦ dead c r lt p z' (λ j lo hi q. elim (ℕ_discrete i j) [
            | yes e ↦ subst (λ x. (procs x).state ≢ proc_zombie) e z
            | no ne ↦ before j (omega arith) hi q
          ])
          | alive c r some_child none_dead ↦ alive i r (inr (omega arith, mine)) (λ j lo hi q.
              elim (ℕ_discrete i j) [
                | yes e ↦ subst (λ x. (procs x).state ≢ proc_zombie) e z
                | no ne ↦ none_dead j (omega arith) hi q
              ])
          | childless r h nobody ↦ ground (arith, h)
        ])
  ])
]

-- Process `c` is a child of `me`; no child of `me` is a zombie.
pub record Child (procs : Procs) (me c : ℕ) : Type 0 where
  pub in_table : c < n_proc
  pub is_child : is_proc (procs c).parent me ≡ true

abbrev pub NoneDead : Procs → ℕ → Type 0
NoneDead procs me = (j : ℕ) → Child procs me j → (procs j).state ≢ proc_zombie

-- What `wait` does.
pub data Outcome (s : Kernel) (me : ℕ) (copied : Bool) (r : Waited) : Type 0 where
  reaps :
      (c : ℕ)
      → Child s.procs me c
      → (s.procs c).state ≡ proc_zombie
      → copied ≡ true
      → r ≡ reaped (s.procs c).pid (proc_free s c)
      → Outcome s me copied r
  copy_fails :
      (c : ℕ)
      → Child s.procs me c
      → (s.procs c).state ≡ proc_zombie
      → copied ≡ false
      → r ≡ fails
      → Outcome s me copied r
  no_children : ((j : ℕ) → ¬ Child s.procs me j) → r ≡ fails → Outcome s me copied r
  was_killed : NoneDead s.procs me → (s.procs me).killed ≡ true → r ≡ fails → Outcome s me copied r
  falls_asleep :
      (c : ℕ)
      → Child s.procs me c
      → NoneDead s.procs me
      → (s.procs me).killed ≡ false
      → r
        ≡ sleeps (record s { procs = update s.procs me (sleeper (address (some me)) (s.procs me)) })
      → Outcome s me copied r

-- `wait` frees a child that is a zombie and returns its number, or fails if its status cannot be copied
-- out; without a zombie it fails if there are no children or the process is killed; it sleeps only
-- while there is a child, no child is a zombie and the process is not killed.
pub wait-Outcome : (s : Kernel) (me : ℕ) (copied : Bool) → Outcome s me copied (wait s me copied)
unfolding wait
wait-Outcome s me copied = elim (pass-Finds s.procs me n_proc 0 n_proc false (omega arith)) [
  | dead c r lt p z before ↦
      let here : Child s.procs me c = record { in_table = lt; is_child = p } in
      elim (Bool-cases copied) [
        | inl yes_copied ↦ reaps c here z yes_copied (rw (r, wait) (rw yes_copied refl))
        | inr not_copied ↦ copy_fails c here z not_copied (rw (r, wait) (rw not_copied refl))
      ]
  | childless r h nobody ↦
      no_children (λ j child. ground (arith, nobody j (omega arith) child.in_table, child.is_child))
        (rw (r, wait) refl)
  | alive c r (inl h) none_dead ↦ ground (arith, h)
  | alive c r (inr (lt, p)) none_dead ↦
      let quiet : NoneDead s.procs me =
        λ j child. none_dead j (omega arith) child.in_table child.is_child in
      elim (Bool-cases (s.procs me).killed) [
        | inl dead_me ↦ was_killed quiet dead_me (rw (r, wait) (rw dead_me refl))
        | inr live ↦
            falls_asleep c (record { in_table = lt; is_child = p }) quiet live
              (rw (r, wait) (rw live refl))
      ]
]
