-- ===== src/Paging/Walk.antt =====
-- `walk`: a lookup, and a lookup that allocates.
use oskernel.Prelude.{
  leb, ◌==◌, if◌then◌else◌, Bool-cases, update, update_self, update_ne, ok, ℕ, zero, suc, ◌+◌, ◌*◌,
  ◌/◌, ◌%◌, ◌^◌, ◌<◌, ◌≡◌, refl, sym, ap, ◌∙◌, ◌≢◌, inl, inr, Bool, true, false, arith,
}
use oskernel.Paging.{
  page_size, max_vaddr, Ram, px, pte2pa, pa2pte, bit, with_valid, walk_from, walk, map_from,
  map_pages, uvm_walk_addr,
}
use oskernel.Paging.Entries.{entry_lem}

-- A lookup changes nothing.
walk_from-unchanged : (level va table : ℕ) (m : Ram) → (walk_from level va false table m).1 ≡ m
unfolding walk_from
walk_from-unchanged zero va table m = refl
walk_from-unchanged (suc level) va table m =
    elim (Bool-cases (bit (m.word (table + 8 * px va (suc level))) 0)) [
      | inl valid ↦
          rw (valid, walk_from)
            (walk_from-unchanged level va (pte2pa (m.word (table + 8 * px va (suc level)))) m)
      | inr invalid ↦ rw (invalid, walk_from) refl
    ]

walk_from-present :
    (level va table : ℕ) (m : Ram)
    → (walk_from level va false table m).0 ≢ 0
    → walk_from level va true table m ≡ walk_from level va false table m
unfolding walk_from
walk_from-present zero va table m = λ h. refl
walk_from-present (suc level) va table m =
    elim (Bool-cases (bit (m.word (table + 8 * px va (suc level))) 0)) [
      | inl valid ↦
          rw (valid, walk_from)
            (walk_from-present level va (pte2pa (m.word (table + 8 * px va (suc level)))) m)
      | inr invalid ↦ rw (invalid, walk_from) (λ h. absurd (h refl))
    ]

-- `walk` without allocation changes nothing; where it finds an entry, `walk` with allocation finds the
-- same one and changes nothing either.
pub walk_lem :
    (table va : ℕ) (m : Ram)
    → let (pte, m') = walk table va false m in
      (m' ≡ m) × (pte ≢ 0 → walk table va true m ≡ (pte, m))
unfolding walk
walk_lem table va m = elim (Bool-cases (leb max_vaddr va)) [
  | inl outside ↦ rw outside (refl, λ h. absurd (h refl))
  | inr inside ↦
      let same = walk_from-unchanged 2 va table m in
      rw inside (
        same,
        λ h.
            walk_from-present 2 va table m h ∙ ap (λ x. ((walk_from 2 va false table m).0, x)) same,
      )
]

-- The three entries through which an address passes.
abbrev pub entry2 : ℕ → ℕ → ℕ
entry2 table va = table + 8 * px va 2

abbrev pub entry1 : Ram → ℕ → ℕ → ℕ
entry1 m table va = pte2pa (m.word (entry2 table va)) + 8 * px va 1

abbrev pub entry0 : Ram → ℕ → ℕ → ℕ
entry0 m table va = pte2pa (m.word (entry1 m table va)) + 8 * px va 0

-- The tables of both upper levels are there for an address, and its last entry is no entry of theirs.
pub record HasTables (m : Ram) (table va : ℕ) : Type 0 where
  pub in_range : va < max_vaddr
  pub valid2 : bit (m.word (entry2 table va)) 0 ≡ true
  pub valid1 : bit (m.word (entry1 m table va)) 0 ≡ true
  pub apart2 : entry0 m table va ≢ entry2 table va
  pub apart1 : entry0 m table va ≢ entry1 m table va
  pub not_null : entry0 m table va ≢ 0

pub walk-HasTables :
    (m : Ram) (table va : ℕ) (alloc : Bool)
    → HasTables m table va
    → walk table va alloc m ≡ (entry0 m table va, m)
unfolding walk walk_from
walk-HasTables m table va alloc t =
    let inside : leb max_vaddr va ≡ false = ground (arith, t.in_range) in
    rw inside (rw (t.valid2, walk_from) (rw (t.valid1, walk_from) refl))

-- After a store to the last entry of an address the address passes through the same entries.
pub store-HasTables :
    (m : Ram) (table va v : ℕ)
    → HasTables m table va
    → let m' = record m { word = update m.word (entry0 m table va) v } in
      HasTables m' table va × (entry0 m' table va ≡ entry0 m table va)
store-HasTables m table va v t =
    let m' : Ram = record m { word = update m.word (entry0 m table va) v } in
    let kept2 : m'.word (entry2 table va) ≡ m.word (entry2 table va) =
      update_ne m.word (entry0 m table va) v (entry2 table va) t.apart2 in
    let same1 : entry1 m' table va ≡ entry1 m table va = ap (λ x. pte2pa x + 8 * px va 1) kept2 in
    let kept1 : m'.word (entry1 m' table va) ≡ m.word (entry1 m table va) =
      ap m'.word same1 ∙ update_ne m.word (entry0 m table va) v (entry1 m table va) t.apart1 in
    let same0 : entry0 m' table va ≡ entry0 m table va = ap (λ x. pte2pa x + 8 * px va 0) kept1 in
    (
      record {
        in_range = t.in_range;
        valid2 = ap (λ x. bit x 0) kept2 ∙ t.valid2;
        valid1 = ap (λ x. bit x 0) kept1 ∙ t.valid1;
        apart2 = λ e. t.apart2 (sym same0 ∙ e);
        apart1 = λ e. t.apart1 (sym same0 ∙ e ∙ same1);
        not_null = λ e. t.not_null (sym same0 ∙ e);
      },
      same0,
    )

-- Every address of a page passes through the same entries.
px-page :
    (va off : ℕ)
    → va % page_size ≡ 0
    → off < page_size
    → (px (va + off) 2 ≡ px va 2) × (px (va + off) 1 ≡ px va 1) × (px (va + off) 0 ≡ px va 0)
px-page va off aligned lt =
    let pages : (va + off) / 4096 ≡ va / 4096 = omega arith in
    let regions : (va + off) / 2097152 ≡ va / 2097152 = omega arith in
    let giants : (va + off) / 1073741824 ≡ va / 1073741824 = omega arith in
    (ap (λ k. k % 512) giants, ap (λ k. k % 512) regions, ap (λ k. k % 512) pages)

page-HasTables :
    (m : Ram) (table va off : ℕ)
    → HasTables m table va
    → va % page_size ≡ 0
    → off < page_size
    → HasTables m table (va + off) × (entry0 m table (va + off) ≡ entry0 m table va)
page-HasTables m table va off t aligned lt =
    let (p2, p1, p0) = px-page va off aligned lt in
    let same2 : entry2 table (va + off) ≡ entry2 table va = ap (λ k. table + 8 * k) p2 in
    let same1 : entry1 m table (va + off) ≡ entry1 m table va =
      ap (λ k. pte2pa (m.word k) + 8 * px (va + off) 1) same2
      ∙ ap (λ k. pte2pa (m.word (entry2 table va)) + 8 * k) p1 in
    let same0 : entry0 m table (va + off) ≡ entry0 m table va =
      ap (λ k. pte2pa (m.word k) + 8 * px (va + off) 0) same1
      ∙ ap (λ k. pte2pa (m.word (entry1 m table va)) + 8 * k) p0 in
    let inside : va + off < max_vaddr = omega (arith, t.in_range) in
    (
      record {
        in_range = inside;
        valid2 = ap (λ k. bit (m.word k) 0) same2 ∙ t.valid2;
        valid1 = ap (λ k. bit (m.word k) 0) same1 ∙ t.valid1;
        apart2 = λ e. t.apart2 (sym same0 ∙ e ∙ same2);
        apart1 = λ e. t.apart1 (sym same0 ∙ e ∙ same1);
        not_null = λ e. t.not_null (sym same0 ∙ e);
      },
      same0,
    )

-- Mapping one page at `va`, where the tables are there and the last entry is not valid: `map_pages`
-- succeeds, and afterwards every user's address `va + off` in the page leads to the physical page, if
-- `PTE_U` is among the permissions, and to nothing if it is not.
pub map-walk :
    (m : Ram) (table va off pa perm : ℕ)
    → HasTables m table va
    → va % page_size ≡ 0
    → off < page_size
    → bit (m.word (entry0 m table va)) 0 ≡ false
    → pa % page_size ≡ 0
    → pa < 2 ^ 56
    → perm < 1024
    → (m' : Ram) × (map_pages table va pa page_size perm m ≡ ok (true, m'))
      × (uvm_walk_addr table (va + off) m' ≡ ok (if bit perm 4 then pa else 0))
unfolding map_pages map_from uvm_walk_addr
map-walk m table va off pa perm t aligned within unset pa_aligned small le =
    let v = pa2pte pa + with_valid perm in
    let e0 = entry0 m table va in
    let m' : Ram = record m { word = update m.word e0 v } in
    let (t1, same1) = store-HasTables m table va v t in
    let (t', same2) = page-HasTables m' table va off t1 aligned within in
    let same0 : entry0 m' table (va + off) ≡ e0 = same2 ∙ same1 in
    let (home, _, valid, user) = entry_lem pa perm pa_aligned small le in
    let stored : m'.word (entry0 m' table (va + off)) ≡ v =
      ap m'.word same0 ∙ update_self m.word e0 v in
    let aligned' : (va % page_size == 0) ≡ true = ground (arith, aligned) in
    let ne : (e0 == 0) ≡ false = ground (arith, t.not_null) in
    let ne' : (entry0 m' table (va + off) == 0) ≡ false = ground (arith, t'.not_null) in
    let inside : leb max_vaddr (va + off) ≡ false = ground (arith, t'.in_range) in
    (
      m',
      rw (aligned', map_pages)
          (rw (walk-HasTables m table va true t, map_from)
            (rw ne (rw (walk-HasTables m table va true t, unset) refl))),
      rw (walk-HasTables m' table (va + off) false t', uvm_walk_addr)
          (rw (inside) (rw (ne', stored) (rw (valid, user, home) refl))),
    )
