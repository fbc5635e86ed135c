-- ===== src/Proc/Family/Exit.antt =====
-- `do_exit`: the files, the children and the parent.
use oskernel.Prelude.{
  Option-cases, update, update_self, update_ne, ℤ, ok, ℕ, zero, suc, ◌+◌, ◌≤◌, ◌<◌, ◌≡◌, refl, ap,
  ◌∙◌, ◌≢◌, inl, inr, true, false, Option, none, some, List, [], ◌∷◌, arith, ℕ_discrete,
}
use oskernel.Param.{n_proc, n_ofile}
use oskernel.Files
use oskernel.Files.{Release, State}
use oskernel.Files.Counts.{names, refs-update, IsCounted, file_close_counts, named-pos}
use oskernel.Proc.Family.{address, close_from, adopt_from}
use oskernel.Proc.{
  proc_unused, proc_runnable, proc_sleeping, proc_zombie, Process, Procs, Kernel, is_proc, wake_up,
}

-- Closing the files of a process: what `close_from` leaves.
pub record Closed (others : ℕ → ℕ) (k fd : ℕ) (s s' : Files.State) : Type 0 where
  pub counted : IsCounted others s'
  pub closed : (i : ℕ) → fd ≤ i → i < fd + k → s'.ofile i ≡ none
  pub before : (i : ℕ) → i < fd → s'.ofile i ≡ s.ofile i

-- With counts that are right, closing all files does not panic, and leaves no descriptor open and the
-- counts right.
pub close_from-Closed :
    (others : ℕ → ℕ) (k fd : ℕ) (s : Files.State)
    → fd + k ≤ n_ofile
    → IsCounted others s
    → (rs : List Release) × (s' : Files.State) × (close_from k fd s ≡ ok (rs, s'))
      × Closed others k fd s s'
unfolding close_from
close_from-Closed others zero fd s h counted = (
  [],
  s,
  refl,
  record { counted = counted; closed = λ i lo hi. absurd (omega arith); before = λ i lt. refl },
)
close_from-Closed others (suc k) fd s h counted = elim (Option-cases (s.ofile fd)) [
  | inl shut ↦
      let (rs, s', e, rest) = close_from-Closed others k (fd + 1) s (omega arith) counted in
      (
        rs,
        s',
        rw (shut, close_from) e,
        record {
          counted = rest.counted;
          closed = λ i lo hi. elim (ℕ_discrete fd i) [
            | yes q ↦ rw (← q) (rest.before fd (omega arith) ∙ shut)
            | no q ↦ rest.closed i (omega arith) (omega arith)
          ];
          before = λ i lt. rest.before i (omega arith);
        },
      )
  | inr (f, open_at) ↦
      let (r, files, done, less) =
        file_close_counts s.files f (named-pos others s counted fd f (omega arith) open_at) in
      let s1 : Files.State = record { files = files; ofile = update s.ofile fd none } in
      let counted1 : IsCounted others s1 = record {
        total = λ g. omega (
          arith,
          counted.total g,
          less g,
          refs-update s.ofile none g n_ofile fd (omega arith),
          ap (λ o. names o g) open_at,
        );
      } in
      let (rs, s', e, rest) = close_from-Closed others k (fd + 1) s1 (omega arith) counted1 in
      (
        r ∷ rs,
        s',
        rw (open_at, close_from) (rw done (rw e refl)),
        record {
          counted = rest.counted;
          closed = λ i lo hi. elim (ℕ_discrete fd i) [
            | yes q ↦ rw (← q) (rest.before fd (omega arith) ∙ update_self s.ofile fd none)
            | no q ↦ rest.closed i (omega arith) (omega arith)
          ];
          before =
              λ i lt. rest.before i (omega arith) ∙ update_ne s.ofile fd none i (λ q. omega arith);
        },
      )
]

-- No process of the table but an unused slot has `p` as its parent.
abbrev pub NoChildren : Procs → ℕ → Type 0
NoChildren procs p =
    (j : ℕ) → j < n_proc → (procs j).state ≢ proc_unused → is_proc (procs j).parent p ≡ false

-- Process `q` waits for a child in `wait`.
abbrev pub IsWaiting : Procs → ℕ → Type 0
IsWaiting procs q = ((procs q).state ≡ proc_sleeping) × ((procs q).chan ≡ address (some q))

-- What the exit of `p`, which is `own` before, does to another process `q`: a child becomes a child of
-- init, and one that sleeps on its own address and is init or the parent of `p` becomes runnable.
pub record Left (init p : ℕ) (own : Process) (q : ℕ) (c c' : Process) : Type 0 where
  pub orphan : c.state ≢ proc_unused → is_proc c.parent p ≡ true → c'.parent ≡ some init
  pub others_child : is_proc c.parent p ≡ false → c'.parent ≡ c.parent
  pub woken_parent :
      own.parent ≡ some q → c.state ≡ proc_sleeping → c.chan ≡ q + 1 → c'.state ≡ proc_runnable
  pub woken_init : q ≡ init → c.state ≡ proc_sleeping → c.chan ≡ q + 1 → c'.state ≡ proc_runnable
  pub undisturbed : c.state ≢ proc_sleeping → c'.state ≡ c.state

-- The tables that `do_exit` goes through, given what is left of the process's descriptors.
abbrev woken : Kernel → ℕ → (ℕ → Option ℕ) → Procs
woken s p ofile =
    let procs = update s.procs p (record (s.procs p) { ofile = ofile; cwd = none }) in
    let procs = adopt_from s.init_proc p n_proc 0 procs in
    wake_up (some p) (address (some s.init_proc)) procs

abbrev gone : Kernel → ℕ → ℤ → (ℕ → Option ℕ) → Procs
gone s p status ofile =
    let procs = woken s p ofile in
    let procs = update procs p (record (procs p) { xstate = status; state = proc_zombie }) in
    wake_up (some p) (address (procs p).parent) procs

module _ (s : Kernel) (p : ℕ) (status : ℤ) (ofile : ℕ → Option ℕ) (lp : p < n_proc) where
  abbrev left : Process
  left = record (s.procs p) { ofile = ofile; cwd = none }

  abbrev adopted : Procs
  adopted = adopt_from s.init_proc p n_proc 0 (update s.procs p left)

  own : is_proc (some p) p ≡ true
  own = ground arith

  abbrev dead : Process
  dead = record (woken s p ofile p) { xstate = status; state = proc_zombie }
