-- ===== src/Paging/Users.antt =====
-- User memory: growing and shrinking it, copying it, and copying to and from it. A loop of copies takes
-- the number of rounds: every round moves a byte at least.
use oskernel.Prelude.{
  ltb, leb, ◌==◌, if◌then◌else◌, Run, ok, ◌>>=◌, ◌>>◌, panic_if, ℕ, zero, suc, ◌+◌, ◌-◌, ◌*◌, ◌/◌,
  Bool, true, false, not, ◌||◌,
}
use oskernel.Strings.{memmove}
use oskernel.Paging.{
  page_size, max_vaddr, Ram, pm_alloc, pm_zalloc, pm_free, pte2pa, flags, bit, walk, unmap_pages,
  map_pages, uvm_walk_addr,
}

abbrev pub page_round_down : ℕ → ℕ
page_round_down a = a / page_size * page_size

abbrev pub page_round_up : ℕ → ℕ
page_round_up a = (a + page_size - 1) / page_size * page_size

-- The part of `n` bytes from `a` on that lies in the first page.
abbrev pub chunk : ℕ → ℕ → ℕ
chunk a n = let len = page_size - (a - page_round_down a) in if ltb n len then n else len

-- The result is the new size. Sizes are less than 2^64 - PAGE_SIZE.
pub uvm_dealloc : ℕ → ℕ → ℕ → Ram → Run (ℕ × Ram)
uvm_dealloc table old_sz new_sz m = if leb old_sz new_sz then ok (old_sz, m) else do
  let old = page_round_up old_sz
  let new = page_round_up new_sz
  m' ← unmap_pages table new (old - new) true m
  ok (new, m')

-- The loop of `uvm_alloc` over `k` pages from `a` on, which began at `old_sz`; 0 is the failure.
pub alloc_loop : ℕ → ℕ → ℕ → ℕ → ℕ → ℕ → Ram → Run (ℕ × Ram)
alloc_loop table old_sz new_sz perm zero a m = ok (new_sz, m)
alloc_loop table old_sz new_sz perm (suc k) a m =
    let (mem, m') = pm_zalloc m in
    elim (mem == 0) [
      | true ↦ do (_, m'') ← uvm_dealloc table a old_sz m'; ok (0, m'')
      | false ↦ do
        (mapped, m1) ← map_pages table a mem page_size perm m'
        elim mapped [
          | true ↦ alloc_loop table old_sz new_sz perm k (a + page_size) m1
          | false ↦ do (_, m2) ← uvm_dealloc table a old_sz (pm_free m1 mem); ok (0, m2)
        ]
    ]

-- `xperm` is 0 or `PTE_W`, so that the permissions `PTE_R | PTE_U | xperm` are a sum.
pub uvm_alloc : ℕ → ℕ → ℕ → ℕ → Ram → Run (ℕ × Ram)
uvm_alloc table old_sz new_sz xperm m =
    if leb new_sz old_sz
    then ok (old_sz, m)
    else (let old = page_round_up old_sz in
        alloc_loop table old new_sz (18 + xperm) ((new_sz + page_size - 1 - old) / page_size) old m)

-- Copying from a user's address `src`, and to a user's address `dst`; false is the result -1.
pub copy_in : ℕ → ℕ → ℕ → ℕ → ℕ → Ram → Run (Bool × Ram)
copy_in table zero dst src n m = ok (n == 0, m)
copy_in table (suc rounds) dst src n m = elim (n == 0) [
  | true ↦ ok (true, m)
  | false ↦ do
    let va = page_round_down src
    pa ← uvm_walk_addr table va m
    let len = chunk src n
    elim (pa == 0) [
      | true ↦ ok (false, m)
      | false ↦
          copy_in table rounds (dst + len) (src + len) (n - len)
            (record m { byte = memmove m.byte dst (pa + (src - va)) len })
    ]
]

pub copy_out : ℕ → ℕ → ℕ → ℕ → ℕ → Ram → Bool × Ram
copy_out table zero dst src n m = (n == 0, m)
copy_out table (suc rounds) dst src n m = elim (n == 0) [
  | true ↦ (true, m)
  | false ↦
      let va = page_round_down dst in
      let pte = (walk table va false m).0 in
      let entry = m.word pte in
      let len = chunk dst n in
      elim (leb max_vaddr va
        || pte == 0
        || not (bit entry 0)
        || not (bit entry 4)
        || not (bit entry 2)) [
          | true ↦ (false, m)
          | false ↦
              copy_out table rounds (dst + len) (src + len) (n - len)
                (record m { byte = memmove m.byte (pte2pa entry + (dst - va)) src len })
        ]
]

-- The loop of `copy_user_page_table` over `k` pages from `va` on; false is the result -1.
pub copy_pages : ℕ → ℕ → ℕ → ℕ → Ram → Run (Bool × Ram)
copy_pages dst src zero va m = ok (true, m)
copy_pages dst src (suc k) va m = do
  let pte = (walk src va false m).0
  panic_if (pte == 0) "walk invalid PTE"
  let entry = m.word pte
  panic_if (not (bit entry 0)) "page not present"
  let (mem, m') = pm_alloc m
  let moved : Ram = record m' { byte = memmove m'.byte mem (pte2pa entry) page_size }
  elim (mem == 0) [
    | true ↦ do m'' ← unmap_pages dst 0 va true m'; ok (false, m'')
    | false ↦ do
      (mapped, m1) ← map_pages dst va mem page_size (flags entry) moved
      elim mapped [
        | true ↦ copy_pages dst src k (va + page_size) m1
        | false ↦ do m2 ← unmap_pages dst 0 va true (pm_free m1 mem); ok (false, m2)
      ]
  ]

-- USER_STACK_BASE, four pages below the end of the addresses.
abbrev pub user_stack_base : ℕ
user_stack_base = max_vaddr - 4 * page_size

pub copy_user_page_table : ℕ → ℕ → ℕ → Ram → Run (Bool × Ram)
copy_user_page_table dst src size m = do
  (copied, m') ← copy_pages dst src ((size + page_size - 1) / page_size) 0 m
  elim copied [
    | false ↦ ok (false, m')
    | true ↦ do
      dst_stack ← uvm_walk_addr dst user_stack_base m'
      src_stack ← uvm_walk_addr src user_stack_base m'
      ok (true, record m' { byte = memmove m'.byte dst_stack src_stack page_size })
  ]
