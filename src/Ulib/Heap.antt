-- ===== src/Ulib/Heap.antt =====
-- `malloc` and `free` of user/ulib.c. A block is its header and the bytes behind it; the list is that
-- of `next` from `head`. `sbrk` is the system call: it moves the end of the memory, or fails.
pub mod Disjoint
pub mod Promise
use oskernel.Prelude.{
  leb, ◌==◌, if◌then◌else◌, ℕ, ◌+◌, ◌-◌, ◌%◌, ◌^◌, Bool, true, false, ◌&&◌, Option, none, some,
  List, [], ◌∷◌, ◌++◌,
}

-- `sizeof(struct block)`
abbrev pub header : ℕ
header = 24

-- `struct block` at `addr`; `is_free` is its field `free`.
pub record Block : Type 0 where
  pub addr : ℕ
  pub size : ℕ
  pub is_free : Bool

-- `brk` is the end of the memory, where `sbrk` gives the next block.
pub record Heap : Type 0 where
  pub blocks : List Block
  pub brk : ℕ

-- The loop of `malloc`: the address behind the header of the first block that serves, and the blocks
-- with that one taken.
pub take_first : List Block → ℕ → Option (ℕ × List Block)
take_first [] size = none
take_first (b ∷ bs) size =
    let rest = take_first bs size in
    if b.is_free && leb size b.size
    then some (b.addr + header, record b { is_free = false } ∷ bs)
    else elim rest [ none ↦ none | some (p, bs') ↦ some (p, b ∷ bs') ]

-- `grows` says whether the `sbrk` succeeds; no address is NULL. `tot_size` wraps, and `sbrk` takes it
-- as a signed number, so that the end of the memory moves by it in 64-bit arithmetic.
pub malloc : Bool → ℕ → Heap → Option ℕ × Heap
malloc grows size h = elim (take_first h.blocks size) [
  | some (p, bs) ↦ if size == 0 then (none, h) else (some p, record h { blocks = bs })
  | none ↦
      let b : Block = record { addr = h.brk; size = size; is_free = false } in
      let tot_size = (header + size) % 2 ^ 64 in
      let h' : Heap = record { blocks = h.blocks ++ (b ∷ []); brk = (h.brk + tot_size) % 2 ^ 64 } in
      if size == 0 then (none, h) else if grows then (some (h.brk + header), h') else (none, h)
]

-- `blk->free = true` for the block at `addr`.
pub release : List Block → ℕ → List Block
release [] addr = []
release (b ∷ bs) addr =
    let rest = release bs addr in
    if b.addr == addr then record b { is_free = true } ∷ bs else b ∷ rest

-- The loop of `free`, which joins a free block with the next one that is free, and goes on behind both.
pub merge : List Block → List Block
merge [] = []
merge (b ∷ []) = b ∷ []
merge (b ∷ c ∷ bs) =
    let joined = merge bs in
    let rest = merge (c ∷ bs) in
    if b.is_free && c.is_free then record b { size = b.size + header } ∷ joined else b ∷ rest

-- `free` of a pointer that is not NULL.
pub free : ℕ → Heap → Heap
free p h = record h { blocks = merge (release h.blocks (p - header)) }
