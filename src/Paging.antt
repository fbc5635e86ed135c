-- ===== src/Paging.antt =====
-- kernel/mm/mm.c: free pages and page tables. Ram has 64-bit words, at their addresses, for page
-- tables and for the links of the free list, and bytes for the data of pages; no page serves as both.
-- Bit operations on entries are arithmetic: the low ten bits of an entry are its flags. A loop over
-- pages recurs on the number of pages left.
pub mod Free
pub mod Walk
pub mod Entries
pub mod Users
pub mod Text
pub mod Grow
mod Tests
use oskernel.Prelude.{
  ltb, leb, ◌==◌, if◌then◌else◌, update, Run, ok, ◌>>=◌, ◌>>◌, panic_if, ℕ, zero, suc, ◌+◌, ◌-◌,
  ◌*◌, ◌/◌, ◌%◌, ◌^◌, Bool, true, false, not, ◌&&◌,
}

abbrev pub page_size : ℕ
page_size = 4096

abbrev pub max_vaddr : ℕ
max_vaddr = 2 ^ 38

-- The end of physical memory.
abbrev pub max_paddr : ℕ
max_paddr = 2281701376

pub record Ram : Type 0 where
  pub word : ℕ → ℕ
  pub byte : ℕ → ℕ
  pub head : ℕ

-- The loop of `pm_init`, over `k` pages from `ptr` on.
pub pm_init_from : ℕ → ℕ → Ram → Ram
pm_init_from zero ptr m = m
pm_init_from (suc k) ptr m =
    pm_init_from k (ptr + page_size) (record m { word = update m.word ptr m.head; head = ptr })

-- A page, or 0 for NULL.
pub pm_alloc : Ram → ℕ × Ram
pm_alloc m = if m.head == 0 then (0, m) else (m.head, record m { head = m.word m.head })

abbrev pub in_page : ℕ → ℕ → Bool
in_page ptr a = leb ptr a && ltb a (ptr + page_size)

abbrev pub cleared : ℕ → (ℕ → ℕ) → ℕ → ℕ
cleared ptr f a = if in_page ptr a then 0 else f a

pub pm_zalloc : Ram → ℕ × Ram
pm_zalloc m =
    let (ptr, m') = pm_alloc m in
    (
      ptr,
      if ptr == 0 then m' else record m' { word = cleared ptr m'.word; byte = cleared ptr m'.byte },
    )

unfoldable pub pm_free : Ram → ℕ → Ram
pm_free m ptr = record m { word = update m.word ptr m.head; head = ptr }

-- PX, PTE2PA, PA2PTE, PTE_FLAGS; `PTE_V`, `PTE_R`, `PTE_W` and `PTE_U` are bits 0, 1, 2 and 4.
abbrev pub px : ℕ → ℕ → ℕ
px va level = va / 2 ^ (12 + 9 * level) % 512

abbrev pub pte2pa : ℕ → ℕ
pte2pa pte = pte / 1024 * 4096 % 2 ^ 64

abbrev pub pa2pte : ℕ → ℕ
pa2pte pa = pa / 4096 * 1024

abbrev pub flags : ℕ → ℕ
flags pte = pte % 1024

abbrev pub bit : ℕ → ℕ → Bool
bit pte k = pte / 2 ^ k % 2 == 1

-- `PTE_V | perm`
abbrev pub with_valid : ℕ → ℕ
with_valid perm = if bit perm 0 then perm else perm + 1

-- The loop of `walk` from `level` down, and its last line: the address of the entry, or 0.
pub walk_from : ℕ → ℕ → Bool → ℕ → Ram → ℕ × Ram
walk_from zero va alloc table m = (table + 8 * px va 0, m)
walk_from (suc level) va alloc table m =
    let pte = table + 8 * px va (suc level) in
    let (page, m') = pm_zalloc m in
    elim (bit (m.word pte) 0) [
      | true ↦ walk_from level va alloc (pte2pa (m.word pte)) m
      | false ↦ elim (alloc && not (page == 0)) [
        | true ↦
            walk_from level va alloc page
              (record m' { word = update m'.word pte (pa2pte page + 1) })
        | false ↦ (0, if alloc then m' else m)
      ]
    ]

pub walk : ℕ → ℕ → Bool → Ram → ℕ × Ram
walk table va alloc m = if leb max_vaddr va then (0, m) else walk_from 2 va alloc table m

-- The loop of `unmap_pages`, over `k` pages from `va` on.
pub unmap_from : ℕ → Bool → ℕ → ℕ → Ram → Run Ram
unmap_from table free zero va m = ok m
unmap_from table free (suc k) va m = do
  let pte = (walk table va false m).0
  let m' = if free then pm_free m (pte2pa (m.word pte)) else m
  panic_if (pte == 0) "walk invalid PTE"
  panic_if (not (bit (m.word pte) 0)) "unmapped page"
  panic_if (flags (m.word pte) == 1) "not a leaf"
  unmap_from table free k (va + page_size) (record m' { word = update m'.word pte 0 })

pub unmap_pages : ℕ → ℕ → ℕ → Bool → Ram → Run Ram
unmap_pages table va size free m = do
  panic_if (not (va % page_size == 0)) "address is not aligned"
  panic_if (not (size % page_size == 0)) "memory size is not aligned"
  unmap_from table free (size / page_size) va m

-- The loop of `map_pages` that began at `va`; false is the result -1.
pub map_from : ℕ → ℕ → ℕ → ℕ → ℕ → ℕ → Ram → Run (Bool × Ram)
map_from table va perm zero cur pa m = ok (true, m)
map_from table va perm (suc k) cur pa m =
    let (pte, m') = walk table cur true m in
    elim (pte == 0) [
      | true ↦ do m'' ← unmap_pages table va (cur - va) false m'; ok (false, m'')
      | false ↦ do
        panic_if (bit (m'.word pte) 0) "remapping"
        map_from table va perm k (cur + page_size) (pa + page_size)
            (record m' { word = update m'.word pte (pa2pte pa + with_valid perm) })
    ]

pub map_pages : ℕ → ℕ → ℕ → ℕ → ℕ → Ram → Run (Bool × Ram)
map_pages table va pa size perm m = do
  panic_if (not (va % page_size == 0)) "address is not aligned"
  panic_if (not (size % page_size == 0)) "memory size is not aligned"
  panic_if (size == 0) "memory size is zero"
  map_from table va perm (size / page_size) va pa m

-- The page at a user's address, or 0.
pub uvm_walk_addr : ℕ → ℕ → Ram → Run ℕ
uvm_walk_addr table va m = do
  let pte = (walk table va false m).0
  let entry = m.word pte
  panic_if (leb max_vaddr va) "invalid virtual address"
  ok (if not (pte == 0) && bit entry 0 && bit entry 4 then pte2pa entry else 0)
