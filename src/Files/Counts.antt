-- ===== src/Files/Counts.antt =====
-- The reference count of a file is the number of descriptors that name it.
use oskernel.Prelude.{
  ltb, ◌==◌, if◌then◌else◌, Bool-cases, Option-cases, update, update_ne, ℤ, pos, minus_one, Run, ok,
  ◌>>=◌, ℕ, zero, suc, ◌+◌, ◌-◌, ◌≤◌, ◌<◌, ◌≡◌, refl, ap, inl, inr, false, Option, none, some,
  arith, ℕ_discrete,
}
use oskernel.Files.{
  fd_none, Table, Release, keeps, release_of, file_close, file_dup, Descriptors, arg_fd, State,
  Call, returns, stores_before, sys_close, sys_dup, dup2_over, sys_dup2,
}
use oskernel.Param.{n_ofile}
use oskernel.Files.Slots.{arg_fd-some, full, found, fd_alloc-Slot}

abbrev pub names : Option ℕ → ℕ → ℕ
names none f = 0
names (some g) f = if g == f then 1 else 0

-- How many of the first `k` descriptors name `f`.
unfoldable pub refs : Descriptors → ℕ → ℕ → ℕ
refs ofile f zero = 0
refs ofile f (suc k) = refs ofile f k + names (ofile k) f

refs-update_above :
    (ofile : Descriptors) (v : Option ℕ) (f k i : ℕ)
    → k ≤ i
    → refs (update ofile i v) f k ≡ refs ofile f k
unfolding refs
refs-update_above ofile v f zero i h = refl
refs-update_above ofile v f (suc k) i h = ground (arith, refs-update_above ofile v f k i)

-- Storing to one descriptor takes one name away and gives one.
pub refs-update :
    (ofile : Descriptors) (v : Option ℕ) (f k i : ℕ)
    → i < k
    → refs (update ofile i v) f k + names (ofile i) f ≡ refs ofile f k + names v f
unfolding refs
refs-update ofile v f zero i h = absurd (omega arith)
refs-update ofile v f (suc k) i h = elim (ℕ_discrete i k) [
  | yes e ↦ ground (arith, refs-update_above ofile v f k i (omega arith), ap ofile e)
  | no ne ↦ ground (arith, refs-update ofile v f k i (omega arith), update_ne ofile i v k ne)
]

-- Every reference to a file is a descriptor of the process, or is counted in `others`.
pub record IsCounted (others : ℕ → ℕ) (s : State) : Type 0 where
  pub total : (f : ℕ) → (s.files f).refcnt ≡ refs s.ofile f n_ofile + others f

-- The calls on descriptors.
pub data Request : Type 0 where
  closes dups : ℤ → Request
  dup2s : ℤ → ℤ → Request

pub perform : State → Request → Run (Release × Call)
perform s (closes fd) = sys_close s fd
perform s (dups fd) = do call ← sys_dup s fd; ok (keeps, call)
perform s (dup2s oldfd newfd) = sys_dup2 s oldfd newfd

-- The counts after a call; a store before the array leaves one reference to the file unaccounted for.
abbrev pub Keeps : (ℕ → ℕ) → Call → Type 0
Keeps others (returns v s) = IsCounted others s
Keeps others (stores_before f s) = IsCounted (update others f (others f + 1)) s

pub file_close_counts :
    (t : Table) (f : ℕ)
    → 0 < (t f).refcnt
    → (r : Release) × (t' : Table) × (file_close t f ≡ ok (r, t'))
      × ((g : ℕ) → (t' g).refcnt + names (some f) g ≡ (t g).refcnt)
unfolding file_close
file_close_counts t f used =
    let n = (t f).refcnt - 1 in
    let valid : ltb (t f).refcnt 1 ≡ false = ground arith in
    elim (Bool-cases (n == 0)) [
      | inl last ↦ (
        release_of (t f),
        update t f (record (t f) { refcnt = n; type = fd_none }),
        rw (valid, last),
        λ g. ground arith,
      )
      | inr shared ↦
          (keeps, update t f (record (t f) { refcnt = n }), rw (valid, shared), λ g. ground arith)
    ]

pub file_dup_counts :
    (t : Table) (f : ℕ)
    → 0 < (t f).refcnt
    → (t' : Table) × (file_dup t f ≡ ok t')
      × ((g : ℕ) → (t' g).refcnt ≡ (t g).refcnt + names (some f) g)
unfolding file_dup
file_dup_counts t f used =
    let valid : ltb (t f).refcnt 1 ≡ false = ground arith in
    (update t f (record (t f) { refcnt = (t f).refcnt + 1 }), rw valid, λ g. ground arith)

module _ (others : ℕ → ℕ) (s : State) (c : IsCounted others s) where
  -- A file that a descriptor names is in use.
  pub named-pos : (n f : ℕ) → n < n_ofile → s.ofile n ≡ some f → 0 < (s.files f).refcnt
  named-pos n f h e =
      let u = refs-update s.ofile none f n_ofile n h in
      let one : names (s.ofile n) f ≡ 1 = ground arith in omega (arith, c.total f, u, one)

  close-IsCounted :
      (fd : ℤ) → (r : Release) × (call : Call) × (sys_close s fd ≡ ok (r, call)) × Keeps others call
  unfolding sys_close
  close-IsCounted fd = elim (Option-cases (arg_fd s.ofile fd)) [
    | inl e ↦ (keeps, returns minus_one s, rw (e, sys_close), c)
    | inr ((n, f), e) ↦
        let (lt, here, _) = arg_fd-some s.ofile fd e in
        let (r, files, done, counts) = file_close_counts s.files f (named-pos n f lt here) in
        (
          r,
          returns (pos 0) (record { files = files; ofile = update s.ofile n none }),
          rw (e, sys_close) (rw done),
          record {
            total = λ g. omega (
              arith,
              c.total g,
              counts g,
              refs-update s.ofile none g n_ofile n lt,
              ap (λ o. names o g) here,
            );
          },
        )
  ]

  dup-IsCounted : (fd : ℤ) → (call : Call) × (sys_dup s fd ≡ ok call) × Keeps others call
  unfolding sys_dup
  dup-IsCounted fd = elim (Option-cases (arg_fd s.ofile fd)) [
    | inl e ↦ (returns minus_one s, rw (e, sys_dup), c)
    | inr ((n, f), e) ↦
        let (lt, here, _) = arg_fd-some s.ofile fd e in
        let (files, done, counts) = file_dup_counts s.files f (named-pos n f lt here) in
        elim (fd_alloc-Slot s.ofile f) [
          | full r all ↦ (returns minus_one s, rw (e, sys_dup) (rw (r, sys_dup)), c)
          | found new r lt' free all ↦ (
            returns (pos 0) (record { files = files; ofile = update s.ofile new (some f) }),
            rw (e, sys_dup) (rw (r, sys_dup) (rw done)),
            record {
              total = λ g. omega (
                arith,
                c.total g,
                counts g,
                refs-update s.ofile (some f) g n_ofile new lt',
                ap (λ o. names o g) free,
              );
            },
          )
        ]
  ]

  dup2_over-IsCounted :
      (f m g : ℕ)
      → 0 < (s.files f).refcnt
      → m < n_ofile
      → s.ofile m ≡ some g
      → (r : Release) × (call : Call) × (dup2_over s f m g ≡ ok (r, call)) × Keeps others call
  dup2_over-IsCounted f m g used lt there = elim (Bool-cases (f == g)) [
    | inl same ↦ (keeps, returns (pos m) s, rw same, c)
    | inr other ↦
        let (r, files, closed, less) = file_close_counts s.files g (named-pos m g lt there) in
        let left : 0 < (files f).refcnt = ground (arith, less f) in
        let (files', done, more) = file_dup_counts files f left in
        (
          r,
          returns (pos m) (record { files = files'; ofile = update s.ofile m (some f) }),
          rw other (rw closed (rw done)),
          record {
            total = λ h. omega (
              arith,
              c.total h,
              less h,
              more h,
              refs-update s.ofile (some f) h n_ofile m lt,
              ap (λ o. names o h) there,
            );
          },
        )
  ]

  dup2-IsCounted :
      (oldfd newfd : ℤ)
      → (r : Release) × (call : Call) × (sys_dup2 s oldfd newfd ≡ ok (r, call)) × Keeps others call
  unfolding sys_dup2
  dup2-IsCounted oldfd newfd = elim (Option-cases (arg_fd s.ofile oldfd)) [
    | inl e ↦ (keeps, returns minus_one s, rw (e, sys_dup2), c)
    | inr ((n, f), e) ↦
        let (lt, here, _) = arg_fd-some s.ofile oldfd e in
        let used = named-pos n f lt here in
        elim (Option-cases (arg_fd s.ofile newfd)) [
          | inl e' ↦
              let (files, done, counts) = file_dup_counts s.files f used in
              (
                keeps,
                stores_before f (record s { files = files }),
                rw (e, sys_dup2) (rw (e', sys_dup2) (rw done)),
                record { total = λ g. ground (arith, c.total g, counts g) },
              )
          | inr ((m, g), e') ↦
              let (lt', there, _) = arg_fd-some s.ofile newfd e' in
              let (r, call, done, k) = dup2_over-IsCounted f m g used lt' there in
              (r, call, rw (e, sys_dup2) (rw (e', sys_dup2) done), k)
        ]
  ]

-- In each call on descriptors, whatever its arguments, the checks of the counts in `file_close` and
-- `file_dup` pass, and the reference counts stay exact; only a `dup2` that stores before the array
-- leaves a file counted once too often. A call that closes the last reference to a file hands it to
-- `pipe_close` or `iput`: what these do, and where they panic, is not part of the statement.
pub perform_lem :
    (others : ℕ → ℕ) (s : State) (q : Request)
    → IsCounted others s
    → (r : Release) × (call : Call) × (perform s q ≡ ok (r, call)) × Keeps others call
unfolding perform
perform_lem others s (closes fd) c = close-IsCounted others s c fd
perform_lem others s (dups fd) c =
    let (call, e, k) = dup-IsCounted others s c fd in (keeps, call, rw e, k)
perform_lem others s (dup2s oldfd newfd) c = dup2-IsCounted others s c oldfd newfd
