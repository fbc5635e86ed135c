-- ===== src/Paging/Grow.antt =====
-- `proc_grow` of kernel/sched/proc.c and `sys_sbrk` of kernel/syscall/sysproc.c, for the running
-- process.
use oskernel.Prelude.{
  ltb, ◌==◌, if◌then◌else◌, ℤ, pos, negsuc, minus_one, Run, ok, ◌>>=◌, ℕ, zero, suc, ◌+◌, ◌-◌, ◌%◌,
  ◌^◌, Bool, true, false,
}
use oskernel.Paging.{Ram}
use oskernel.Paging.Users.{uvm_dealloc, uvm_alloc}

-- Whether it succeeds, and the new `p->size`; `PTE_W` is 4.
pub proc_grow : ℕ → ℕ → ℕ → Ram → Run (Bool × ℕ × Ram)
proc_grow table old_size size m = do
  (new_size, m') ←
      if ltb old_size size
      then uvm_alloc table old_size size 4 m
      else uvm_dealloc table old_size size m
  ok (if new_size == 0 then (false, old_size, m') else (true, new_size, m'))

-- The new size that `sys_sbrk` asks for, a `uint64_t`.
pub asked_size : ℕ → ℤ → ℕ
asked_size old_size (pos n) = (old_size + n) % 2 ^ 64
asked_size old_size (negsuc n) = (old_size + 2 ^ 64 - suc n) % 2 ^ 64

-- The value returned, `p->size` and memory.
pub sys_sbrk : ℕ → ℕ → ℤ → Ram → Run (ℤ × ℕ × Ram)
sys_sbrk table old_size (pos zero) m = ok (pos old_size, old_size, m)
sys_sbrk table old_size increment m = do
  (grown, size, m') ← proc_grow table old_size (asked_size old_size increment) m
  ok (if grown then pos old_size else minus_one, size, m')
