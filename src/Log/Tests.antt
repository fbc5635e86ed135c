-- ===== src/Log/Tests.antt =====
-- The theorems on the log at concrete inputs.
use Prim.Native.String.{String}
use oskernel.Prelude.{
  ◌==◌, if◌then◌else◌, update, update_ne, All, ok, panic, ℕ, zero, suc, ◌+◌, ◌*◌, ◌<◌, ◌≡◌, refl,
  sym, ap, ◌∙◌, inl, inr, false, some, [], ◌∷◌, arith,
}
use oskernel.Log.{Block, Disk, Log, Fs, log_block, log_init, commit, begin_op, log_write}
use oskernel.Log.Install.{Placed, NotFrom, Committed, Clean, Recoverable}
use oskernel.Log.Write.{log_write_panics, Pinned, write_block, write_block_lem}
use oskernel.Log.Crash.{log_init_lem}
use oskernel.Log.Commit.{Settled, Done, commit_lem}
use oskernel.Log.Pins.{commit_unpins}
use oskernel.Log.Admission.{Running, begins, Reach, here, next, log_write_admitted}
use oskernel.Log.Overflow.{log_run, three_operations_panic}
use oskernel.Param.{log_size}

-- A log of two blocks, 40 and 41, on an empty disk; the log area starts at block 2.
abbrev two : Log
two = record {
  start = 2;
  size = 30;
  outstanding = 1;
  committing = false;
  n = 2;
  blocks = λ i. i + 40;
}

abbrev blank : Disk
blank = λ _ _. 0

abbrev changed : Disk
changed = update (update blank 40 (λ _. 1)) 41 (λ _. 2)

abbrev sample : Fs
sample = record {
  lg = two;
  io = record {
    disk = blank;
    bufs = changed;
    pins = λ b. if b == 40 then 1 else if b == 41 then 1 else 0;
    past = blank ∷ [];
  };
}

two-Placed : Placed two
two-Placed = record { fits = omega arith; small = omega arith; outs = λ j h. inr (omega arith) }

unlogged : (b : ℕ) → NotFrom two 0 b → blank b ≡ changed b
unlogged b nb = sym (
    update_ne (update blank 40 (λ _. 1)) 41 (λ _. 2) b (nb 1 (omega arith) (omega arith))
    ∙ update_ne blank 40 (λ _. 1) b (nb 0 (omega arith) (omega arith)))

sample-Settled : Settled sample
sample-Settled = record {
  placed = two-Placed;
  none_logged = refl;
  flushed = λ b ob nb. unlogged b nb;
}

sample-Pinned : Pinned sample
sample-Pinned = record {
  distinct = λ i j hi hj e. omega arith;
  one = λ j h. ground arith;
  none = λ b nb. ground (arith, nb 0 (omega arith) (omega arith), nb 1 (omega arith) (omega arith));
}

-- The disk right after the header was written: the log is committed and not installed.
abbrev logged_disk : Disk
logged_disk b =
    if b == 2
    then (λ w. if w == 0 then 2 else w + 39)
    else if b == 3
    then (λ _. 1)
    else if b == 4
    then (λ _. 2)
    else (λ _. 0)

logged_disk-Committed : Committed two changed logged_disk
logged_disk-Committed = record {
  header = record { count = refl; entries = λ j h. ground arith };
  logged = λ j h. two_cases j h;
  rest = λ b ob nb. ground (arith, unlogged b nb);
}
  where
    two_cases : (j : ℕ) → j < 2 → logged_disk (log_block two j) ≡ changed (j + 40)
    two_cases zero h = refl
    two_cases (suc zero) h = refl
    two_cases (suc (suc j)) h = absurd (omega arith)

log_init_lem_example :
    let s = log_init 2 30 logged_disk in
    Clean two changed s.io.disk × All (Recoverable two changed) s.io.past
log_init_lem_example = log_init_lem two changed logged_disk two-Placed (inl logged_disk-Committed)

recovered_block : (log_init 2 30 logged_disk).io.disk 41 7 ≡ 2
recovered_block = ap (λ (b : Block). b 7) (log_init_lem_example.0.same 41 (inr (omega arith)))

commit_lem_example : Done sample (commit sample)
commit_lem_example = commit_lem sample sample-Settled refl

commit_unpins_example : (commit sample).io.pins 41 ≡ 0
commit_unpins_example = commit_unpins sample 41 sample-Pinned

write_block_lem_example :
    (s' : Fs) × (write_block sample 50 (λ _. 3) ≡ ok s')
    × Settled s'
    × Pinned s'
    × (s'.io.bufs ≡ update changed 50 (λ _. 3))
    × (s'.io.disk ≡ blank)
    × (s'.io.past ≡ blank ∷ [])
write_block_lem_example =
    write_block_lem sample 50 (λ _. 3) (omega arith) (omega arith) (inr (omega arith))
      sample-Settled sample-Pinned

log_write_panics_example :
    (message : String) × (log_write (record sample { lg = record two { size = 3 } }) 9
      ≡ panic message)
log_write_panics_example =
    log_write_panics (record sample { lg = record two { size = 3 } }) 9 (omega arith) (omega arith)
      (inl (omega arith))

-- No operation, and an empty log of 40 blocks.
abbrev idle : Fs
idle = record sample { lg = record two { size = 40; outstanding = 0; n = 0 } }

abbrev one_begun : Running
one_begun = record {
  fs = record idle { lg = record two { size = 40; outstanding = 1; n = 0 } };
  budgets = 10 ∷ [];
}

one_begun-Reach : Reach (record { fs = idle; budgets = [] }) one_begun
unfolding begin_op
one_begun-Reach = next here (begins refl refl)

log_write_admitted_example :
    (one_begun.fs.lg.n < log_size) × ((s : Fs) × (write_block one_begun.fs 50 (λ _. 3) ≡ ok s))
log_write_admitted_example =
    log_write_admitted refl refl (omega arith) one_begun-Reach [] [] 9 50 (λ _. 3) refl
      (omega arith) (omega arith)

three_operations_panic_example :
    (s₁ s₂ s₃ : Fs) × (begin_op (record idle { lg = record two { outstanding = 0; n = 0 } })
      ≡ some s₁)
    × (begin_op s₁ ≡ some s₂)
    × (begin_op s₂ ≡ some s₃)
    × ((message : String) × (log_run (λ i. 50 + 7 * i) 30 0 s₃ ≡ panic message))
three_operations_panic_example =
    three_operations_panic (record idle { lg = record two { outstanding = 0; n = 0 } })
      (λ i. 50 + 7 * i) (λ i j li lj e. omega arith) refl refl refl (omega arith) (omega arith)
