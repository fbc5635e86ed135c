-- ===== src/Files/Slots.antt =====
-- What `arg_fd` and `fd_alloc` find among the descriptors.
use oskernel.Prelude.{
  Bool-cases, update, ℤ, pos, negsuc, ℕ, zero, suc, ◌+◌, ◌≤◌, ◌<◌, ◌≡◌, refl, inl, inr, true,
  Option, none, some, arith, ℕ_discrete,
}
use oskernel.Param.{n_ofile}
use oskernel.Files.{Descriptors, is_open, arg_fd, fd_from, fd_alloc}

pub arg_fd-some :
    (ofile : Descriptors) (fd : ℤ) {n f : ℕ}
    → arg_fd ofile fd ≡ some (n, f)
    → (n < n_ofile) × (ofile n ≡ some f) × (fd ≡ pos n)
unfolding arg_fd
arg_fd-some ofile (pos k) e = ground arith
arg_fd-some ofile (negsuc k) e = cc

-- What the search for a free descriptor finds.
pub data Slot (ofile : Descriptors) (f i end : ℕ) (r : Option (ℕ × Descriptors)) : Type 0 where
  full : r ≡ none → ((k : ℕ) → i ≤ k → k < end → is_open (ofile k) ≡ true) → Slot ofile f i end r
  found :
      (fd : ℕ)
      → r ≡ some (fd, update ofile fd (some f))
      → fd < end
      → ofile fd ≡ none
      → ((k : ℕ) → i ≤ k → k < fd → is_open (ofile k) ≡ true)
      → Slot ofile f i end r

fd_from-Slot :
    (ofile : Descriptors) (f k i end : ℕ) → i + k ≡ end → Slot ofile f i end (fd_from ofile f k i)
unfolding fd_from
fd_from-Slot ofile f zero i end e = full refl (λ k lo hi. absurd (omega arith))
fd_from-Slot ofile f (suc k) i end e = elim (Bool-cases (is_open (ofile i))) [
  | inr free ↦ rw free (found i refl (omega arith) (ground arith) (λ j lo hi. absurd (omega arith)))
  | inl taken ↦
      let widen : (j : ℕ)
          → (i + 1 ≤ j → is_open (ofile j) ≡ true)
          → i ≤ j
          → is_open (ofile j) ≡ true =
        λ j h lo. elim (ℕ_discrete i j) [ yes q ↦ rw (← q) taken | no q ↦ h (omega arith) ] in
      rw taken (elim (fd_from-Slot ofile f k (i + 1) end (omega arith)) [
        | full r all ↦ full r (λ j lo hi. widen j (λ l. all j l hi) lo)
        | found fd r lt free all ↦ found fd r lt free (λ j lo hi. widen j (λ l. all j l hi) lo)
      ])
]

-- `fd_alloc` takes the lowest free descriptor, and fails only when all are taken.
pub fd_alloc-Slot : (ofile : Descriptors) (f : ℕ) → Slot ofile f 0 n_ofile (fd_alloc ofile f)
unfolding fd_alloc
fd_alloc-Slot ofile f = fd_from-Slot ofile f n_ofile 0 n_ofile (omega arith)
