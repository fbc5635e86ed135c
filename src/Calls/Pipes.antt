-- ===== src/Calls/Pipes.antt =====
-- `pipe_alloc` of kernel/fs/pipe.c and `sys_pipe` of kernel/syscall/sysfile.c. What a closed file
-- gives back is listed.
use oskernel.Prelude.{
  update, Run, ok, ◌>>=◌, ℕ, Bool, true, false, not, Option, none, some, List, [], ◌∷◌,
}
use oskernel.Files.{fd_pipe, Table, file_alloc, Release, file_close, Descriptors, fd_alloc, State}

-- The end of the pipe in file `f`.
abbrev pub pipe_end : Table → ℕ → Bool → ℕ → Table
pipe_end files f writable pi = update files f (record (files f) {
  type = fd_pipe;
  readable = not writable;
  writable = writable;
  pi = some pi;
})

-- What `pipe_alloc` comes to; where there is no file at all, it closes whatever `*wfile` was before.
pub data PipeResult : Type 0 where
  made : ℕ → ℕ → Table → PipeResult
  refused : List Release → Table → PipeResult
  closes_wild : PipeResult

-- `page` is what `pm_alloc` returns.
unfoldable pub pipe_alloc : Option ℕ → Table → Run PipeResult
pipe_alloc page files = elim (file_alloc files) [
  | none ↦ ok closes_wild
  | some (r, files1) ↦ elim (file_alloc files1) [
    | none ↦ do (released, files2) ← file_close files1 r; ok (refused (released ∷ []) files2)
    | some (w, files2) ↦ elim page [
      | none ↦ do
        (released, files3) ← file_close files2 r
        (released', files4) ← file_close files3 w
        ok (refused (released ∷ released' ∷ []) files4)
      | some pi ↦ ok (made r w (pipe_end (pipe_end files2 r false pi) w true pi))
    ]
  ]
]

-- `fd_alloc`, with the descriptors as they are where it fails.
unfoldable pub try_fd : Descriptors → ℕ → Option ℕ × Descriptors
try_fd ofile f = elim (fd_alloc ofile f) [
  | none ↦ (none, ofile)
  | some (fd, ofile') ↦ (some fd, ofile')
]

-- `if (fd >= 0) p->ofile[fd] = NULL;`
abbrev pub clear_fd : Option ℕ → Descriptors → Descriptors
clear_fd none ofile = ofile
clear_fd (some fd) ofile = update ofile fd none

pub data PipeCall : Type 0 where
  opens : ℕ → ℕ → State → PipeCall
  fails : List Release → State → PipeCall
  wild : PipeCall

abbrev both : Option ℕ → Option ℕ → Bool → Option (ℕ × ℕ)
both (some a) (some b) true = some (a, b)
both _ _ _ = none

-- The label `bad` of `sys_pipe`.
unfoldable pub give_up : ℕ → ℕ → Table → Descriptors → Run PipeCall
give_up r w files ofile = do
  (released, files1) ← file_close files r
  (released', files2) ← file_close files1 w
  ok (fails (released ∷ released' ∷ []) (record { files = files2; ofile = ofile }))

-- `sys_pipe` once it has tried to get two descriptors; `copied` says whether both `copy_out` succeed.
unfoldable pub pipe_ends :
    Bool → State → ℕ → ℕ → Table → Option ℕ → Option ℕ × Descriptors → Run PipeCall
pipe_ends copied s r w files fd0 (fd1, ofile) = elim (both fd0 fd1 copied) [
  | some (a, b) ↦ ok (opens a b (record { files = files; ofile = ofile }))
  | none ↦ give_up r w files (clear_fd fd1 (clear_fd fd0 ofile))
]

unfoldable pub pipe_fds : Bool → State → ℕ → ℕ → Table → Run PipeCall
pipe_fds copied s r w files =
    let (fd0, ofile) = try_fd s.ofile r in pipe_ends copied s r w files fd0 (try_fd ofile w)

unfoldable pub sys_pipe : Option ℕ → Bool → State → Run PipeCall
sys_pipe page copied s = do
  pipe ← pipe_alloc page s.files
  elim pipe [
    | closes_wild ↦ ok wild
    | refused released files ↦ ok (fails released (record s { files = files }))
    | made r w files ↦ pipe_fds copied s r w files
  ]
