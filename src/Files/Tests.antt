-- ===== src/Files/Tests.antt =====
-- The theorems on files at concrete inputs.
use oskernel.Prelude.{
  ◌==◌, if◌then◌else◌, update, ℤ, pos, minus_one, ok, ℕ, ◌+◌, ◌%◌, ◌^◌, ◌<◌, ◌≡◌, refl, true, none,
  some, [], arith,
}
use oskernel.Files.{
  fd_none, fd_device, Table, file_alloc, Release, keeps, arg_fd, fd_from, fd_alloc, State, Call,
  returns, stores_before, sys_dup, sys_dup2,
}
use oskernel.Files.Slots.{Slot, fd_alloc-Slot}
use oskernel.Files.Counts.{refs, IsCounted, dup2s, perform, Keeps, perform_lem}
use oskernel.Files.Dup.{sys_dup_returns_zero, sys_dup2_closed, Fresh, file_alloc-Fresh}
use oskernel.Files.Write.{is_length, Writer, write_once, file_write_inode}
use oskernel.Files.Write.Rounds.{file_write_total, file_write_small, file_write_large}

-- File 4, the console, behind descriptors 0 and 1.
abbrev console : Table
console f = record {
  type = if f == 4 then fd_device else fd_none;
  readable = true;
  writable = true;
  refcnt = if f == 4 then 2 else 0;
  inode = none;
  pi = none;
  off = 0;
  major = 1;
}

abbrev shell : State
shell = record {
  files = console;
  ofile = λ fd. if fd == 0 then some 4 else if fd == 1 then some 4 else none;
}

shell-IsCounted : IsCounted (λ _. 0) shell
unfolding refs
shell-IsCounted = record { total = λ f. ground arith }

perform_lem_example :
    (r : Release) × (call : Call) × (perform shell (dup2s (pos 0) (pos 1)) ≡ ok (r, call))
    × Keeps (λ _. 0) call
perform_lem_example = perform_lem (λ _. 0) shell (dup2s (pos 0) (pos 1)) shell-IsCounted

fd_alloc-Slot_example : Slot shell.ofile 4 0 16 (fd_alloc shell.ofile 4)
fd_alloc-Slot_example = fd_alloc-Slot shell.ofile 4

file_alloc-Fresh_example : Fresh console 0 100 (file_alloc console)
file_alloc-Fresh_example = file_alloc-Fresh console

sys_dup_returns_zero_example :
    (◌<◌ 0 2)
    × ((files : Table) × (sys_dup shell (pos 1)
          ≡ ok (returns (pos 0) (record { files = files; ofile = update shell.ofile 2 (some 4) })))
        × (update shell.ofile 2 (some 4) ≡ update shell.ofile 2 (some 4)))
unfolding arg_fd fd_alloc fd_from
sys_dup_returns_zero_example =
    sys_dup_returns_zero shell (pos 1) 1 4 2 (update shell.ofile 2 (some 4)) refl (omega arith) refl
      refl

sys_dup2_closed_example :
    (files : Table) × (sys_dup2 shell (pos 1) (pos 7)
      ≡ ok (keeps, stores_before 4 (record { files = files; ofile = shell.ofile })))
    × ((files 4).refcnt ≡ 3)
unfolding arg_fd
sys_dup2_closed_example = sys_dup2_closed shell (pos 1) (pos 7) 1 4 refl refl (omega arith)

-- A `writei` that writes all it is given, and counts the bytes.
abbrev write_all : ℕ → ℕ → ℕ → ℕ → ℤ × ℕ
write_all src off n total = (pos n, total + n)

abbrev start : Writer ℕ
start = record { off = 5; rest = 0; events = [] }

file_write_total_example :
    (r : ℤ × Writer ℕ) × (file_write_inode write_all true 0 9000 start ≡ some r)
file_write_total_example = file_write_total write_all true 0 9000 start

file_write_small_example :
    let (ret, w') = write_once write_all 0 100 start in
    file_write_inode write_all true 0 100 start
    ≡ some (if is_length ret 100 then pos 100 else minus_one, w')
file_write_small_example = file_write_small write_all 0 100 start (omega arith) (omega arith)

file_write_large_example :
    let (ret, w') = write_once write_all 0 3073 start in
    (file_write_inode write_all true 0 3073 start ≡ some (minus_one, w'))
    × (w'.off ≡ (5 + 3073) % 2 ^ 32)
file_write_large_example = file_write_large write_all 0 3073 start (omega arith) refl
