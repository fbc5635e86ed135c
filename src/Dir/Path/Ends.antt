-- ===== src/Dir/Path/Ends.antt =====
-- `lookup` ends.
use oskernel.Dir.Path.{
  named, Looked, Next, stops, goes_on, lookup_round, lookup_loop, start_of, lookup,
}
use oskernel.Prelude.{
  length, Run, ok, panic, ◌>>=◌, ℕ, zero, suc, ◌+◌, ◌<◌, ◌≢◌, Bool, Option, none, some, List, arith,
}
use oskernel.Dir.Path.Elements.{ends, goes, skip_elem-Skips}
use oskernel.Inode.Table.{Table}

bind-ends :
    {A : Type 0} (m : Run A) (next : A → Run (Option Looked))
    → ((a : A) → next a ≢ ok none)
    → (m >>= next) ≢ ok none
bind-ends (ok a) next h = h a
bind-ends (panic message) next h = λ e. ground arith

abbrev after : (ℕ → Table → Run (Option Looked)) → Next → Run (Option Looked)
after loop (stops looked) = ok (some looked)
after loop (goes_on i t) = loop i t

after-ends :
    (loop : ℕ → Table → Run (Option Looked)) (next : Next)
    → ((i : ℕ) (t : Table) → loop i t ≢ ok none)
    → after loop next ≢ ok none
after-ends loop (stops looked) h = λ e. ground arith
after-ends loop (goes_on i t) h = h i t

loop-ends :
    (fuel : ℕ) (parent : Bool) (t : Table) (i : ℕ) (path : List ℕ) (name : ℕ → ℕ)
    → length path < fuel
    → lookup_loop fuel parent t i path name ≢ ok none
unfolding lookup_loop
loop-ends zero parent t i path name lt = absurd (omega arith)
loop-ends (suc fuel) parent t i path name lt = elim (skip_elem-Skips path name) [
  | ends _ r ↦ rw (r, lookup_loop) (λ e. ground arith)
  | goes elem rest _ shorter r ↦
      let loop : ℕ → Table → Run (Option Looked) =
        λ i' t'. lookup_loop fuel parent t' i' rest (named elem name) in
      rw (r, lookup_loop)
        (bind-ends (lookup_round parent t i rest (named elem name)) (after loop) (λ next.
          after-ends loop next (λ i' t'.
            loop-ends fuel parent t' i' rest (named elem name) (omega (arith, lt, shorter)))))
]

-- The walk of `namei` and `parenti` along a path ends within as many rounds as the path has characters,
-- and one more: with a directory entry, with none, or in a panic.
pub lookup_ends :
    (parent : Bool) (t : Table) (cwd : ℕ) (path : List ℕ) (name : ℕ → ℕ)
    → lookup parent t cwd path name ≢ ok none
unfolding lookup
lookup_ends parent t cwd path name =
    bind-ends (start_of t cwd path) (λ (i, t'). lookup_loop (length path + 1) parent t' i path name)
      (λ (i, t'). loop-ends (length path + 1) parent t' i path name (omega arith))
