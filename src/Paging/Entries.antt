-- ===== src/Paging/Entries.antt =====
-- The arithmetic of entries and addresses.
use oskernel.Prelude.{Bool-cases, ℕ, ◌+◌, ◌/◌, ◌%◌, ◌^◌, ◌<◌, ◌≡◌, inl, inr, true, arith}
use oskernel.Paging.{max_vaddr, px, pte2pa, pa2pte, flags, bit, with_valid}

-- The entry that `map_pages` makes for a page of the physical memory leads back to the page and has
-- the flags, with the valid bit.
pub entry_lem :
    (pa perm : ℕ)
    → pa % 4096 ≡ 0
    → pa < 2 ^ 56
    → perm < 1024
    → let pte = pa2pte pa + with_valid perm in
      (pte2pa pte ≡ pa)
      × (flags pte ≡ with_valid perm)
      × (bit pte 0 ≡ true)
      × (bit pte 4 ≡ bit perm 4)
entry_lem pa perm aligned small le = elim (Bool-cases (bit perm 0)) [
  | inl odd ↦ rw odd (ground arith, ground arith, ground arith, ground arith)
  | inr even ↦ rw even (ground arith, ground arith, ground arith, ground arith)
]

-- Two addresses that pass through the same entries on all three levels lie in one page.
pub same_page :
    (va vb : ℕ)
    → va < max_vaddr
    → vb < max_vaddr
    → px va 2 ≡ px vb 2
    → px va 1 ≡ px vb 1
    → px va 0 ≡ px vb 0
    → va / 4096 ≡ vb / 4096
same_page va vb la lb e2 e1 e0 = omega (arith, e2, e1, e0)
