-- ===== src/Files/Dup.antt =====
-- What `sys_dup` and `sys_dup2` return, and where they store.
use oskernel.Prelude.{
  ltb, ◌==◌, Bool-cases, update, ℤ, pos, ok, ℕ, zero, suc, ◌+◌, ◌≤◌, ◌<◌, ◌≡◌, refl, ◌≢◌, inl, inr,
  true, false, Option, none, some, arith, ℕ_discrete,
}
use oskernel.Param.{n_file}
use oskernel.Files.{
  Table, alloc_from, file_alloc, keeps, file_dup, Descriptors, is_open, arg_fd, fd_alloc, State,
  returns, stores_before, sys_dup, sys_dup2,
}
use oskernel.Files.Slots.{full, found, fd_alloc-Slot}

-- `sys_dup` returns 0 and not the new descriptor: with descriptor 0 open, it gives the file the lowest
-- free descriptor, which is never 0, and returns 0.
pub sys_dup_returns_zero :
    (s : State) (fd : ℤ) (n f new : ℕ) (ofile : Descriptors)
    → arg_fd s.ofile fd ≡ some (n, f)
    → 0 < (s.files f).refcnt
    → is_open (s.ofile 0) ≡ true
    → fd_alloc s.ofile f ≡ some (new, ofile)
    → (0 < new)
      × ((files : Table) × (sys_dup s fd
            ≡ ok (returns (pos 0) (record { files = files; ofile = ofile })))
          × (ofile ≡ update s.ofile new (some f)))
unfolding sys_dup file_dup
sys_dup_returns_zero s fd n f new ofile e used taken a =
    let valid : ltb (s.files f).refcnt 1 ≡ false = ground arith in
    elim (fd_alloc-Slot s.ofile f) [
      | full r all ↦ absurd (ground (arith, a, r))
      | found k r lt free all ↦
          let same : k ≡ new = ground (arith, a, r) in
          (
            ground (arith, same, free),
            (
              update s.files f (record (s.files f) { refcnt = (s.files f).refcnt + 1 }),
              rw (e, sys_dup) (rw (a, sys_dup) (rw valid)),
              ground (arith, a, r, same),
            ),
          )
    ]

-- `sys_dup2` to a descriptor that is not open, or not a descriptor, gives the file to no descriptor:
-- it counts one more reference to it and stores it before the array of descriptors.
pub sys_dup2_closed :
    (s : State) (oldfd newfd : ℤ) (n f : ℕ)
    → arg_fd s.ofile oldfd ≡ some (n, f)
    → arg_fd s.ofile newfd ≡ none
    → 0 < (s.files f).refcnt
    → (files : Table) × (sys_dup2 s oldfd newfd
        ≡ ok (keeps, stores_before f (record { files = files; ofile = s.ofile })))
      × ((files f).refcnt ≡ (s.files f).refcnt + 1)
unfolding sys_dup2 file_dup
sys_dup2_closed s oldfd newfd n f e e' used =
    let valid : ltb (s.files f).refcnt 1 ≡ false = ground arith in
    (
      update s.files f (record (s.files f) { refcnt = (s.files f).refcnt + 1 }),
      rw (e, sys_dup2) (rw (e', sys_dup2) (rw valid)),
      ground arith,
    )

-- What the search for an unused file finds.
pub data Fresh (t : Table) (i end : ℕ) (r : Option (ℕ × Table)) : Type 0 where
  table_full : r ≡ none → ((k : ℕ) → i ≤ k → k < end → (t k).refcnt ≢ 0) → Fresh t i end r
  fresh :
      (f : ℕ)
      → r ≡ some (f, update t f (record (t f) { refcnt = 1 }))
      → f < end
      → (t f).refcnt ≡ 0
      → ((k : ℕ) → i ≤ k → k < f → (t k).refcnt ≢ 0)
      → Fresh t i end r

alloc_from-Fresh : (t : Table) (k i end : ℕ) → i + k ≡ end → Fresh t i end (alloc_from t k i)
unfolding alloc_from
alloc_from-Fresh t zero i end e = table_full refl (λ k lo hi. absurd (omega arith))
alloc_from-Fresh t (suc k) i end e = elim (Bool-cases ((t i).refcnt == 0)) [
  | inl free ↦ rw free (fresh i refl (omega arith) (ground arith) (λ j lo hi. absurd (omega arith)))
  | inr used ↦
      let here : (t i).refcnt ≢ 0 = λ z. ground arith in
      let widen : (j : ℕ) → (i + 1 ≤ j → (t j).refcnt ≢ 0) → i ≤ j → (t j).refcnt ≢ 0 =
        λ j h lo. elim (ℕ_discrete i j) [ yes q ↦ rw (← q) here | no q ↦ h (omega arith) ] in
      rw used (elim (alloc_from-Fresh t k (i + 1) end (omega arith)) [
        | table_full r all ↦ table_full r (λ j lo hi. widen j (λ l. all j l hi) lo)
        | fresh f r lt free all ↦ fresh f r lt free (λ j lo hi. widen j (λ l. all j l hi) lo)
      ])
]

-- `file_alloc` takes the first file of the table that nobody refers to and gives it one reference; it
-- fails only when every file is in use.
pub file_alloc-Fresh : (t : Table) → Fresh t 0 n_file (file_alloc t)
unfolding file_alloc
file_alloc-Fresh t = alloc_from-Fresh t n_file 0 n_file (omega arith)
