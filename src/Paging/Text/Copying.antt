-- ===== src/Paging/Text/Copying.antt =====
-- `copy_str_in` on a string that ends in its first page, and on one that does not.
use oskernel.Prelude.{
  ltb, leb, ◌==◌, Bool-cases, update, update_self, update_ne, ok, ℕ, zero, suc, ◌+◌, ◌-◌, ◌*◌, ◌≤◌,
  ◌<◌, ◌≡◌, refl, sym, ap, ◌∙◌, subst, ◌≢◌, inl, inr, Bool, true, false, ◌&&◌, some, arith, dec_le,
  ℕ_discrete,
}
use oskernel.Paging.{max_vaddr, max_paddr, Ram, px, pte2pa, bit, walk_from, walk, uvm_walk_addr}
use oskernel.Paging.Text.{ended, whole, copy_part, page_in, returned, goes_on, copy_str_in}
use oskernel.Paging.Users.{page_round_down, chunk}

-- The `k` bytes from `dst` on can be stored to.
abbrev pub Open : (ℕ → Bool) → ℕ → ℕ → Type 0
Open plain dst k = (a : ℕ) → dst ≤ a → a < dst + k → (ltb a max_paddr && plain a) ≡ true

-- The inner loop on `len` bytes that do not end a string, with `dst` behind them.
copy_part_whole :
    (plain : ℕ → Bool) (len dst s : ℕ) (m : Ram)
    → ((j : ℕ) → j < len → m.byte (s + j) ≢ 0)
    → s + len ≤ dst
    → Open plain dst len
    → (f : ℕ → ℕ) × (copy_part plain len dst s m ≡ whole (dst + len) (record m { byte = f }))
      × ((a : ℕ) → a < dst → f a ≡ m.byte a)
      × ((a : ℕ) → dst ≤ a → a < dst + len → f a ≢ 0)
unfolding copy_part
copy_part_whole plain zero dst s m full apart op =
    let e : dst ≡ dst + 0 = omega arith in
    (m.byte, ap (λ d. whole d m) e, (λ a lt. refl), λ a lo hi. absurd (omega arith))
copy_part_whole plain (suc len) dst s m full apart op =
    let g = update m.byte dst (m.byte s) in
    let m1 : Ram = record m { byte = g } in
    let kept : (a : ℕ) → a < dst → g a ≡ m.byte a =
      λ a lt. update_ne m.byte dst (m.byte s) a (omega arith) in
    let first : s + 0 ≡ s = omega arith in
    let live : (m1.byte s == 0) ≡ false =
      ground (arith, kept s (omega arith) ∙ ap m.byte (sym first), full 0 (omega arith)) in
    let next : (j : ℕ) → j < len → m1.byte (s + 1 + j) ≢ 0 = λ j lt.
      let e : s + 1 + j ≡ s + suc j = omega arith in
      ground (arith, kept (s + 1 + j) (omega arith) ∙ ap m.byte e, full (suc j) (omega arith)) in
    let end : dst + 1 + len ≡ dst + suc len = omega arith in
    let (f, run, same, new) =
      copy_part_whole plain len (dst + 1) (s + 1) m1 next (omega arith)
        (λ x lo hi. op x (omega arith) (omega arith)) in
    (
      f,
      rw (op dst (omega arith) (omega arith), live, copy_part)
          (run ∙ ap (λ d. whole d (record m { byte = f })) end),
      (λ a lt. same a (omega arith) ∙ kept a lt),
      λ a lo hi. elim (ℕ_discrete dst a) [
        | yes e ↦
            let stored : f dst ≡ m.byte (s + 0) =
              same dst (omega arith) ∙ update_self m.byte dst (m.byte s) ∙ ap m.byte (sym first) in
            rw (← e, stored) (full 0 (omega arith))
        | no later ↦ new a (omega arith) (omega arith)
      ],
    )

-- The inner loop on a string that ends after `n` characters.
copy_part_ends :
    (plain : ℕ → Bool) (len n dst s : ℕ) (m : Ram)
    → n < len
    → ((j : ℕ) → j < n → m.byte (s + j) ≢ 0)
    → m.byte (s + n) ≡ 0
    → s + len ≤ dst
    → Open plain dst (n + 1)
    → (f : ℕ → ℕ) × (copy_part plain len dst s m ≡ ended (dst + n) (record m { byte = f }))
      × ((a : ℕ) → a < dst → f a ≡ m.byte a)
      × ((j : ℕ) → j < n + 1 → f (dst + j) ≡ m.byte (s + j))
unfolding copy_part
copy_part_ends plain zero n dst s m lt full null apart op = absurd (omega arith)
copy_part_ends plain (suc len) zero dst s m lt full null apart op =
    let g = update m.byte dst (m.byte s) in
    let first : s + 0 ≡ s = omega arith in
    let end : dst ≡ dst + 0 = omega arith in
    let kept : (a : ℕ) → a < dst → g a ≡ m.byte a =
      λ a lt. update_ne m.byte dst (m.byte s) a (omega arith) in
    let m1 : Ram = record m { byte = g } in
    let live : (m1.byte s == 0) ≡ true =
      ground (arith, kept s (omega arith) ∙ ap m.byte (sym first), null) in
    (
      g,
      rw (op dst (omega arith) (omega arith), live, copy_part) (ap (λ d. ended d m1) end),
      kept,
      λ j small.
          let e : 0 ≡ j = omega arith in
          subst (λ k. g (dst + k) ≡ m.byte (s + k)) e
            (ap g (sym end) ∙ (update_self m.byte dst (m.byte s) ∙ ap m.byte (sym first))),
    )
copy_part_ends plain (suc len) (suc n) dst s m lt full null apart op =
    let g = update m.byte dst (m.byte s) in
    let m1 : Ram = record m { byte = g } in
    let first : s + 0 ≡ s = omega arith in
    let kept : (a : ℕ) → a < dst → g a ≡ m.byte a =
      λ a lt. update_ne m.byte dst (m.byte s) a (omega arith) in
    let live : (m1.byte s == 0) ≡ false =
      ground (arith, kept s (omega arith) ∙ ap m.byte (sym first), full 0 (omega arith)) in
    let shift : (j : ℕ) → s + 1 + j < dst → g (s + 1 + j) ≡ m.byte (s + suc j) =
      λ j lt. let e : s + 1 + j ≡ s + suc j = omega arith in kept (s + 1 + j) lt ∙ ap m.byte e in
    let (f, run, same, copied) =
      copy_part_ends plain len n (dst + 1) (s + 1) m1 (omega arith)
        (λ j small. ground (arith, shift j (omega arith), full (suc j) (omega arith)))
        (shift n (omega arith) ∙ null) (omega arith)
        (λ x lo hi. op x (omega arith) (omega arith)) in
    let end : dst + 1 + n ≡ dst + suc n = omega arith in
    (
      f,
      rw (op dst (omega arith) (omega arith), live, copy_part)
          (run ∙ ap (λ d. ended d (record m { byte = f })) end),
      λ a lt. same a (omega arith) ∙ kept a lt,
      λ j small. elim (ℕ_discrete 0 j) [
        | yes e ↦
            let here : dst + 0 ≡ dst = omega arith in
            subst (λ k. f (dst + k) ≡ m.byte (s + k)) e
              (ap f here
                ∙ same dst (omega arith)
                ∙ update_self m.byte dst (m.byte s)
                ∙ ap m.byte (sym first))
        | no later ↦
            let k = j - 1 in
            let e : suc k ≡ j = omega arith in
            let there : dst + suc k ≡ dst + 1 + k = omega arith in
            subst (λ i. f (dst + i) ≡ m.byte (s + i)) e
              (ap f there ∙ (copied k (omega arith) ∙ shift k (omega arith)))
      ],
    )

-- The walk of a page table reads no bytes.
walk_from-bytes :
    (level table va : ℕ) (m : Ram) (f : ℕ → ℕ)
    → (walk_from level va false table (record m { byte = f })).0
      ≡ (walk_from level va false table m).0
unfolding walk_from
walk_from-bytes zero table va m f = refl
walk_from-bytes (suc level) table va m f =
    elim (Bool-cases (bit (m.word (table + 8 * px va (suc level))) 0)) [
      | inl valid ↦
          rw (valid, walk_from)
            (walk_from-bytes level (pte2pa (m.word (table + 8 * px va (suc level)))) va m f)
      | inr invalid ↦ rw (invalid, walk_from) refl
    ]

walk-bytes :
    (table va : ℕ) (m : Ram) (f : ℕ → ℕ)
    → (walk table va false (record m { byte = f })).0 ≡ (walk table va false m).0
unfolding walk
walk-bytes table va m f = elim (Bool-cases (leb max_vaddr va)) [
  | inl high ↦ rw (high, walk) refl
  | inr low ↦ rw (low, walk) (walk_from-bytes 2 table va m f)
]

uvm_walk_addr-bytes :
    (table va : ℕ) (m : Ram) (f : ℕ → ℕ)
    → uvm_walk_addr table va (record m { byte = f }) ≡ uvm_walk_addr table va m
unfolding uvm_walk_addr
uvm_walk_addr-bytes table va m f = rw (walk-bytes table va m f) refl

-- A round of the loop, at a page that is mapped.
module _ (plain : ℕ → Bool) (rounds table dst src max_len pa : ℕ) (m : Ram) where
  page_in_mapped :
      uvm_walk_addr table (page_round_down src) m ≡ ok pa
      → pa ≢ 0
      → page_in plain table dst src max_len m
        ≡ ok (some (copy_part plain (chunk src max_len) dst (pa + (src - page_round_down src)) m))
  unfolding page_in
  page_in_mapped found mapped =
      let b : (pa == 0) ≡ false = ground arith in rw (found, page_in) (rw b refl)

  round_ends :
      (dst' : ℕ) (m' : Ram)
      → 0 < max_len
      → page_in plain table dst src max_len m ≡ ok (some (ended dst' m'))
      → copy_str_in plain (suc rounds) table dst src max_len m ≡ ok (returned true m')
  unfolding copy_str_in
  round_ends dst' m' left run =
      let a : (max_len == 0) ≡ false = ground arith in rw (a, copy_str_in) (rw run refl)

  round_goes_on :
      (dst' : ℕ) (m' : Ram)
      → 0 < max_len
      → page_in plain table dst src max_len m ≡ ok (some (whole dst' m'))
      → copy_str_in plain (suc rounds) table dst src max_len m
        ≡ copy_str_in plain rounds table dst' src max_len m'
  unfolding copy_str_in
  round_goes_on dst' m' left run =
      let a : (max_len == 0) ≡ false = ground arith in
      let e : max_len - 0 ≡ max_len = omega arith in
      rw (a, copy_str_in) (rw run (ap (λ k. copy_str_in plain rounds table dst' src k m') e))

-- A string of `n` characters that ends in the user's page at `src` is copied, with its NUL, and nothing
-- below `dst` changes, when the kernel's buffer at `dst` lies behind that page and can be stored to.
pub copy_str_in_short :
    (plain : ℕ → Bool) (rounds table dst src max_len n pa : ℕ) (m : Ram)
    → uvm_walk_addr table (page_round_down src) m ≡ ok pa
    → pa ≢ 0
    → n < chunk src max_len
    → ((j : ℕ) → j < n → m.byte (pa + (src - page_round_down src) + j) ≢ 0)
    → m.byte (pa + (src - page_round_down src) + n) ≡ 0
    → pa + (src - page_round_down src) + chunk src max_len ≤ dst
    → Open plain dst (n + 1)
    → (f : ℕ → ℕ) × (copy_str_in plain (suc rounds) table dst src max_len m
        ≡ ok (returned true (record m { byte = f })))
      × ((a : ℕ) → a < dst → f a ≡ m.byte a)
      × ((j : ℕ) → j < n + 1 → f (dst + j) ≡ m.byte (pa + (src - page_round_down src) + j))
copy_str_in_short plain rounds table dst src max_len n pa m found mapped lt full null apart op =
    let s = pa + (src - page_round_down src) in
    let (f, run, same, copied) =
      copy_part_ends plain (chunk src max_len) n dst s m lt full null apart op in
    let left : 0 < max_len = ground arith in
    (
      f,
      round_ends plain rounds table dst src max_len pa m (dst + n) (record m { byte = f }) left
          (page_in_mapped plain rounds table dst src max_len pa m found mapped
            ∙ ap (λ r. ok (some r)) run),
      same,
      copied,
    )

-- When the user's page at `src` is there, `max_len` is not 0, neither the rest of the page nor its
-- first `max_len` bytes, whichever are fewer, hold a NUL, and the kernel's buffer at `dst` lies behind
-- these bytes: `copy_str_in` does not return within any number of rounds for which physical memory
-- goes on behind `dst` and has no page table there. Each round writes that many bytes behind those of
-- the one before, none of them a NUL, whatever the size of the buffer.
pub copy_str_in_overruns :
    (plain : ℕ → Bool) (rounds table dst src max_len pa : ℕ) (m : Ram)
    → uvm_walk_addr table (page_round_down src) m ≡ ok pa
    → pa ≢ 0
    → 0 < max_len
    → ((j : ℕ) → j < chunk src max_len → m.byte (pa + (src - page_round_down src) + j) ≢ 0)
    → pa + (src - page_round_down src) + chunk src max_len ≤ dst
    → Open plain dst (rounds * chunk src max_len)
    → (f : ℕ → ℕ) × (copy_str_in plain rounds table dst src max_len m
        ≡ ok (goes_on (dst + rounds * chunk src max_len) (record m { byte = f })))
      × ((a : ℕ) → a < dst → f a ≡ m.byte a)
      × ((a : ℕ) → dst ≤ a → a < dst + rounds * chunk src max_len → f a ≢ 0)
unfolding copy_str_in
copy_str_in_overruns plain zero table dst src max_len pa m found mapped some_left full apart op =
    let e : dst ≡ dst + 0 * chunk src max_len = omega arith in
    (m.byte, ap (λ d. ok (goes_on d m)) e, (λ a lt. refl), λ a lo hi. absurd (omega arith))
copy_str_in_overruns plain (suc rounds) table dst src max_len pa m found mapped some_left full apart
      op =
    let s = pa + (src - page_round_down src) in
    let len = chunk src max_len in
    let (f, run, same, new) =
      copy_part_whole plain len dst s m full apart (λ x lo hi. op x lo (omega arith)) in
    let m1 : Ram = record m { byte = f } in
    let full1 : (j : ℕ) → j < len → m1.byte (s + j) ≢ 0 =
      λ j lt. ground (arith, same (s + j) (omega arith), full j lt) in
    let end : dst + len + rounds * len ≡ dst + suc rounds * len = omega arith in
    let (f', run', same', new') =
      copy_str_in_overruns plain rounds table (dst + len) src max_len pa m1
        (uvm_walk_addr-bytes table (page_round_down src) m f ∙ found) mapped some_left full1
        (omega arith) (λ x lo hi. op x (omega arith) (omega arith)) in
    (
      f',
      round_goes_on plain rounds table dst src max_len pa m (dst + len) m1 some_left (
            page_in_mapped plain rounds table dst src max_len pa m found mapped
            ∙ ap (λ r. ok (some r)) run)
          ∙ run'
          ∙ ap (λ d. ok (goes_on d (record m { byte = f' }))) end,
      (λ a lt. same' a (omega arith) ∙ same a lt),
      λ a lo hi. elim (dec_le (dst + len) a) [
        | yes behind ↦ new' a behind (omega arith)
        | no inside ↦ rw (same' a (omega arith)) (new a lo (omega arith))
      ],
    )
