-- ===== src/Calls/PipeFds.antt =====
-- The descriptors of `sys_pipe`.
use oskernel.Prelude.{update, Run, ok, ℕ, ◌<◌, ◌≡◌, ◌≢◌, Bool, true, Option, none, some, List}
use oskernel.Calls.Pipes.{PipeCall, opens, fails, wild}
use oskernel.Calls.PipeFiles.{HasEnds}
use oskernel.Param.{n_file}
use oskernel.Files.{Release, Descriptors, State}

-- What the attempt to get a descriptor leaves.
data Tried (ofile : Descriptors) (f : ℕ) (r : Option ℕ × Descriptors) : Type 0 where
  no_fd : r ≡ (none, ofile) → Tried ofile f r
  got : (fd : ℕ) → ofile fd ≡ none → r ≡ (some fd, update ofile fd (some f)) → Tried ofile f r

-- The descriptors `a` and `b`, which were free, name `r` and `w` now, and the others stay.
pub record HasFds (ofile ofile' : Descriptors) (a b r w : ℕ) : Type 0 where
  pub differ : a ≢ b
  pub free_a : ofile a ≡ none
  pub free_b : ofile b ≡ none
  pub named_a : ofile' a ≡ some r
  pub named_b : ofile' b ≡ some w
  pub others : (j : ℕ) → a ≢ j → b ≢ j → ofile' j ≡ ofile j

-- What a call of `sys_pipe` does.
pub data Pipes (page : Option ℕ) (copied : Bool) (s : State) (r : Run PipeCall) : Type 0 where
  uses_wild : r ≡ ok wild → ((k : ℕ) → k < n_file → (s.files k).refcnt ≢ 0) → Pipes page copied s r
  restores :
      (released : List Release) (s' : State)
      → r ≡ ok (fails released s')
      → ((j : ℕ) → s'.ofile j ≡ s.ofile j)
      → ((g : ℕ) → (s'.files g).refcnt ≡ (s.files g).refcnt)
      → Pipes page copied s r
  gives :
      (a b read write pi : ℕ) (s' : State)
      → r ≡ ok (opens a b s')
      → page ≡ some pi
      → copied ≡ true
      → HasFds s.ofile s'.ofile a b read write
      → HasEnds s.files s'.files read write pi
      → Pipes page copied s r
