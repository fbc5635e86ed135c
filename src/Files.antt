-- ===== src/Files.antt =====
-- kernel/fs/file.c: the table of open files with their reference counts, and the descriptors of a
-- process in kernel/syscall/sysfile.c. Each function runs under the table's lock.
pub mod Slots
pub mod Counts
pub mod Dup
pub mod Write
mod Tests
use oskernel.Prelude.{
  ltb, leb, ◌==◌, if◌then◌else◌, update, ℤ, pos, negsuc, minus_one, Run, ok, ◌>>=◌, ◌>>◌, panic_if,
  ℕ, zero, suc, ◌+◌, ◌-◌, Bool, true, false, Option, none, some,
}
use oskernel.Param.{n_file, n_ofile}

pub data FileType : Type 0 where
  fd_none fd_inode fd_device fd_pipe : FileType

-- `struct file`; `inode` and `pi` are numbers of i-nodes and pipes, `none` is NULL.
pub record File : Type 0 where
  pub type : FileType
  pub readable : Bool
  pub writable : Bool
  pub refcnt : ℕ
  pub inode : Option ℕ
  pub pi : Option ℕ
  pub off : ℕ
  pub major : ℕ

abbrev pub Table : Type 0
Table = ℕ → File

-- The search of `file_alloc` in `k` files from `f` on.
pub alloc_from : Table → ℕ → ℕ → Option (ℕ × Table)
alloc_from t zero f = none
alloc_from t (suc k) f =
    let rest = alloc_from t k (f + 1) in
    if (t f).refcnt == 0 then some (f, update t f (record (t f) { refcnt = 1 })) else rest

pub file_alloc : Table → Option (ℕ × Table)
file_alloc t = alloc_from t n_file 0

-- The call that the last `file_close` of a file makes: `pipe_close(f->pi, f->writable)` or
-- `iput(f->inode)`, which a file of no type gets too. It is handed to the caller, since there are
-- neither pipes nor i-nodes here: `sys_open` makes the call of `iput`.
pub data Release : Type 0 where
  keeps : Release
  closes_pipe : Option ℕ → Bool → Release
  puts_inode : Option ℕ → Release

abbrev pub release_of : File → Release
release_of f = elim (f.type) [
  | fd_none ↦ puts_inode f.inode
  | fd_inode ↦ puts_inode f.inode
  | fd_device ↦ puts_inode f.inode
  | fd_pipe ↦ closes_pipe f.pi f.writable
]

pub file_close : Table → ℕ → Run (Release × Table)
file_close t f = do
  let file = t f
  panic_if (ltb file.refcnt 1) "close an invalid file"
  let n = file.refcnt - 1
  if n == 0
      then ok (release_of file, update t f (record file { refcnt = n; type = fd_none }))
      else ok (keeps, update t f (record file { refcnt = n }))

pub file_dup : Table → ℕ → Run Table
file_dup t f = do
  panic_if (ltb (t f).refcnt 1) "duplicate an invalid file"
  ok (update t f (record (t f) { refcnt = (t f).refcnt + 1 }))

-- `ofile` of the running process.
abbrev pub Descriptors : Type 0
Descriptors = ℕ → Option ℕ

abbrev pub is_open : Option ℕ → Bool
is_open none = false
is_open (some f) = true

-- The descriptor in an argument, with its file; `none` is the error -1.
pub arg_fd : Descriptors → ℤ → Option (ℕ × ℕ)
arg_fd ofile (negsuc k) = none
arg_fd ofile (pos fd) =
    if leb n_ofile fd then none else elim (ofile fd) [ none ↦ none | some f ↦ some (fd, f) ]

-- The search of `fd_alloc` in `k` descriptors from `fd` on.
pub fd_from : Descriptors → ℕ → ℕ → ℕ → Option (ℕ × Descriptors)
fd_from ofile f zero fd = none
fd_from ofile f (suc k) fd =
    let rest = fd_from ofile f k (fd + 1) in
    if is_open (ofile fd) then rest else some (fd, update ofile fd (some f))

pub fd_alloc : Descriptors → ℕ → Option (ℕ × Descriptors)
fd_alloc ofile f = fd_from ofile f n_ofile 0

pub record State : Type 0 where
  pub files : Table
  pub ofile : Descriptors

-- What a system call does: it returns a value, or it stores to `ofile[-1]`, before the array.
pub data Call : Type 0 where
  returns : ℤ → State → Call
  stores_before : ℕ → State → Call

pub sys_close : State → ℤ → Run (Release × Call)
sys_close s fd = elim (arg_fd s.ofile fd) [
  | none ↦ ok (keeps, returns minus_one s)
  | some (fd, f) ↦ do
    (released, files) ← file_close s.files f
    ok (released, returns (pos 0) (record { files = files; ofile = update s.ofile fd none }))
]

pub sys_dup : State → ℤ → Run Call
sys_dup s fd = elim (arg_fd s.ofile fd) [
  | none ↦ ok (returns minus_one s)
  | some (_, f) ↦ elim (fd_alloc s.ofile f) [
    | none ↦ ok (returns minus_one s)
    | some (_, ofile) ↦ do
      files ← file_dup s.files f
      ok (returns (pos 0) (record { files = files; ofile = ofile }))
  ]
]

abbrev pub dup2_over : State → ℕ → ℕ → ℕ → Run (Release × Call)
dup2_over s f newfd g = if f == g then ok (keeps, returns (pos newfd) s) else do
  (released, files) ← file_close s.files g
  files' ← file_dup files f
  ok (
    released,
    returns (pos newfd) (record { files = files'; ofile = update s.ofile newfd (some f) }),
  )

pub sys_dup2 : State → ℤ → ℤ → Run (Release × Call)
sys_dup2 s oldfd newfd = elim (arg_fd s.ofile oldfd) [
  | none ↦ ok (keeps, returns minus_one s)
  | some (_, f) ↦ elim (arg_fd s.ofile newfd) [
    | none ↦ do files ← file_dup s.files f; ok (keeps, stores_before f (record s { files = files }))
    | some (new, g) ↦ dup2_over s f new g
  ]
]
