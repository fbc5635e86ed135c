-- ===== src/Log/Admission.antt =====
-- `begin_op` and `end_op`: reservations of log space. Each operation may log up to `max_op_blks`
-- blocks; `begin_op` admits it only if the log could hold that many for each running operation.
use oskernel.Prelude.{
  ◌==◌, ==_iff, length, length-append, All, ok, ℕ, suc, ◌+◌, ◌-◌, ◌*◌, ◌^◌, ◌≤◌, ◌<◌, ◌≡◌, refl,
  sym, ap, ◌∙◌, ◌≢◌, Bool, true, false, some, List, [], ◌∷◌, ◌++◌, arith,
}
use oskernel.Param.{max_op_blks, log_size}
use oskernel.Log.{Block, Fs, set_buf, commit, begin_op, end_op_enter, end_op_commit, log_write}
use oskernel.Log.Write.{log_write-Logs, write_block}

-- The file system with the number of blocks that each running operation may still log.
pub record Running : Type 0 where
  pub fs : Fs
  pub budgets : List ℕ

abbrev pub sum : List ℕ → ℕ
sum [] = 0
sum (x ∷ xs) = x + sum xs

pub sum-append : (xs ys : List ℕ) → sum (xs ++ ys) ≡ sum xs + sum ys
sum-append [] ys = omega arith
sum-append (x ∷ xs) ys = omega (arith, sum-append xs ys)

-- The calls of the processes, each up to its next wait. Between `end_op_enter` by the last operation
-- and `end_op_commit` other calls may run.
pub data Step (r r' : Running) : Type 0 where
  begins : begin_op r.fs ≡ some r'.fs → r'.budgets ≡ max_op_blks ∷ r.budgets → Step r r'
  writes :
      (before after : List ℕ) (left b : ℕ) (block : Block)
      → r.budgets ≡ before ++ (suc left ∷ after)
      → write_block r.fs b block ≡ ok r'.fs
      → r'.budgets ≡ before ++ (left ∷ after)
      → Step r r'
  ends :
      (before after : List ℕ) (left : ℕ) (final : Bool)
      → r.budgets ≡ before ++ (left ∷ after)
      → end_op_enter r.fs ≡ ok (final, r'.fs)
      → r'.budgets ≡ before ++ after
      → Step r r'
  commits :
      r.fs.lg.committing ≡ true → r'.fs ≡ end_op_commit r.fs → r'.budgets ≡ r.budgets → Step r r'

pub data Reach (r : Running) : Running → Type 0 where
  here : Reach r r
  next : {s t : Running} → Reach r s → Step s t → Reach r t

pub record Reserved (r : Running) : Type 0 where
  pub counted : r.fs.lg.outstanding ≡ length r.budgets
  pub each : All (λ k. k ≤ max_op_blks) r.budgets
  pub fits : r.fs.lg.n + sum r.budgets ≤ log_size
  pub quiet : r.fs.lg.committing ≡ true → r.budgets ≡ []

sum-le : (xs : List ℕ) → All (λ k. k ≤ max_op_blks) xs → sum xs ≤ length xs * max_op_blks
sum-le [] h = omega arith
sum-le (x ∷ xs) h = omega (arith, h.0, sum-le xs h.1)

append-ne-nil : (xs ys : List ℕ) (y : ℕ) → xs ++ (y ∷ ys) ≢ []
append-ne-nil [] ys y e = cc
append-ne-nil (x ∷ xs) ys y e = cc

-- One item of a list of budgets replaced, or taken out.
All-replace :
    (before after : List ℕ) (x y : ℕ)
    → y ≤ x
    → All (λ k. k ≤ max_op_blks) (before ++ (x ∷ after))
    → All (λ k. k ≤ max_op_blks) (before ++ (y ∷ after))
All-replace [] after x y h a = (omega (arith, a.0), a.1)
All-replace (z ∷ before) after x y h a = (a.0, All-replace before after x y h a.1)

All-remove :
    (before after : List ℕ) (x : ℕ)
    → All (λ k. k ≤ max_op_blks) (before ++ (x ∷ after))
    → All (λ k. k ≤ max_op_blks) (before ++ after)
All-remove [] after x a = a.1
All-remove (z ∷ before) after x a = (a.0, All-remove before after x a.1)

begin_op-Reserved :
    (fs fs' : Fs) (budgets : List ℕ)
    → begin_op fs ≡ some fs'
    → Reserved (record { fs = fs; budgets = budgets })
    → Reserved (record { fs = fs'; budgets = max_op_blks ∷ budgets })
unfolding begin_op
begin_op-Reserved fs fs' budgets e v =
    let few = sum-le budgets v.each in
    record {
      counted = ground arith;
      each = (omega arith, v.each);
      fits = ground (arith, few);
      quiet = λ h. ground arith;
    }

write_block_log :
    (s s' : Fs) (b : ℕ) (block : Block)
    → write_block s b block ≡ ok s'
    → (s'.lg.n ≤ s.lg.n + 1)
      × (s'.lg.outstanding ≡ s.lg.outstanding)
      × (s'.lg.committing ≡ s.lg.committing)
unfolding write_block log_write
write_block_log s s' b block e = ground arith

write_block-Reserved :
    (fs fs' : Fs) (before after : List ℕ) (left b : ℕ) (block : Block)
    → write_block fs b block ≡ ok fs'
    → Reserved (record { fs = fs; budgets = before ++ (suc left ∷ after) })
    → Reserved (record { fs = fs'; budgets = before ++ (left ∷ after) })
write_block-Reserved fs fs' before after left b block e v =
    let (small, same, calm) = write_block_log fs fs' b block e in
    record {
      counted = omega (
        arith,
        v.counted,
        length-append before (suc left ∷ after),
        length-append before (left ∷ after),
      );
      each = All-replace before after (suc left) left (omega arith) v.each;
      fits =
          omega
            (arith, v.fits, sum-append before (suc left ∷ after), sum-append before (left ∷ after));
      quiet = λ h. absurd (append-ne-nil before after (suc left) (v.quiet (sym calm ∙ h)));
    }

end_op_enter_log :
    (s s' : Fs) (final : Bool)
    → end_op_enter s ≡ ok (final, s')
    → (s'.lg.n ≡ s.lg.n)
      × (s'.lg.outstanding ≡ s.lg.outstanding - 1)
      × (s'.lg.committing ≡ final)
      × (final ≡ (s.lg.outstanding - 1 == 0))
unfolding end_op_enter
end_op_enter_log s s' final e = ground arith

none_left : (xs : List ℕ) → length xs ≡ 0 → xs ≡ []
none_left [] e = refl
none_left (x ∷ xs) e = absurd (omega arith)

end_op_enter-Reserved :
    (fs fs' : Fs) (before after : List ℕ) (left : ℕ) (final : Bool)
    → end_op_enter fs ≡ ok (final, fs')
    → Reserved (record { fs = fs; budgets = before ++ (left ∷ after) })
    → Reserved (record { fs = fs'; budgets = before ++ after })
end_op_enter-Reserved fs fs' before after left final e v =
    let (same, fewer, state, last) = end_op_enter_log fs fs' final e in
    let counted' : fs'.lg.outstanding ≡ length (before ++ after) =
      omega (arith, v.counted, length-append before (left ∷ after), length-append before after) in
    record {
      counted = counted';
      each = All-remove before after left v.each;
      fits = omega (arith, v.fits, sum-append before (left ∷ after), sum-append before after);
      quiet = λ h.
          none_left (before ++ after)
            (sym counted' ∙ fewer ∙ (==_iff _ 0).0 (sym last ∙ sym state ∙ h));
    }

end_op_commit_log :
    (s : Fs)
    → let s' = end_op_commit s in
      (s'.lg.n ≡ 0) × (s'.lg.outstanding ≡ s.lg.outstanding) × (s'.lg.committing ≡ false)
unfolding end_op_commit commit
end_op_commit_log s = ground arith

-- Every step keeps the log within what is reserved.
pub Step-Reserved : {r r' : Running} → Step r r' → Reserved r → Reserved r'
Step-Reserved {r} {r'} (begins e q) v =
    let w : Reserved (record { fs = r'.fs; budgets = max_op_blks ∷ r.budgets }) =
      begin_op-Reserved r.fs r'.fs r.budgets e v in
    rw (← q) at w
Step-Reserved {r} {r'} (writes before after left b block p e q) v =
    let v' : Reserved (record { fs = r.fs; budgets = before ++ (suc left ∷ after) }) = rw p at v in
    let w = write_block-Reserved r.fs r'.fs before after left b block e v' in rw (← q) at w
Step-Reserved {r} {r'} (ends before after left final p e q) v =
    let v' : Reserved (record { fs = r.fs; budgets = before ++ (left ∷ after) }) = rw p at v in
    let w = end_op_enter-Reserved r.fs r'.fs before after left final e v' in rw (← q) at w
Step-Reserved {r} {r'} (commits calm e q) v =
    let (z, same, open_again) = end_op_commit_log r.fs in
    let none_running = v.quiet calm in
    record {
      counted = ground (arith, v.counted);
      each = rw (q, none_running) tt;
      fits = ground (arith, ap sum q, ap sum none_running);
      quiet = λ h. ground arith;
    }

Reach-Reserved : {r r' : Running} → Reserved r → Reach r r' → Reserved r'
Reach-Reserved v here = v
Reach-Reserved v (next h s) = Step-Reserved s (Reach-Reserved v h)

-- From a log with no operation, whatever the order of the calls: an operation that may still log a
-- block finds a free entry in the array of `log_size` entries, and, if the log on the disk is larger
-- than that, its `log_write` does not panic.
pub log_write_admitted :
    {r r' : Running}
    → r.budgets ≡ []
    → r.fs.lg.outstanding ≡ 0
    → r.fs.lg.n ≤ log_size
    → Reach r r'
    → (before after : List ℕ) (left b : ℕ) (block : Block)
    → r'.budgets ≡ before ++ (suc left ∷ after)
    → log_size < r'.fs.lg.size
    → r'.fs.lg.size ≤ 2 ^ 32
    → (r'.fs.lg.n < log_size) × ((s : Fs) × (write_block r'.fs b block ≡ ok s))
unfolding write_block
log_write_admitted {r} {r'} idle none_begun small h before after left b block p large fits =
    let start : Reserved r = record {
      counted = ground arith;
      each = rw idle tt;
      fits = ground (arith, ap sum idle);
      quiet = λ _. idle;
    } in
    let v = Reach-Reserved start h in
    let total = ap sum p ∙ sum-append before (suc left ∷ after) in
    let many = ap length p ∙ length-append before (suc left ∷ after) in
    let free : r'.fs.lg.n < log_size = omega (arith, v.fits, total) in
    let fs = record (r'.fs) { io = set_buf r'.fs.io b block } in
    let (s, e, _) =
      log_write-Logs fs b (omega arith, fits, omega arith) (omega (arith, v.counted, many)) in
    (free, (s, e))
