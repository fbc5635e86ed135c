-- ===== src/Descriptors/Three.antt =====
-- `alloc3_desc`: three descriptors, or none.
use oskernel.Prelude.{
  leb, ◌==◌, if◌then◌else◌, Bool-cases, update, update_self, update_ne, Run, ok, ℕ, zero, suc, ◌+◌,
  ◌≤◌, ◌<◌, ◌≡◌, refl, sym, ap, ◌∙◌, ◌≢◌, inl, inr, Bool, true, false, Option, none, some, List, [],
  ◌∷◌, arith, ℕ_discrete,
}
use oskernel.Descriptors.{
  num, Queue, alloc_desc_from, alloc_desc, free_desc, free_all, alloc3_from, alloc3_desc,
}

-- What `alloc_desc` does.
pub data Takes (q : Queue) (i end : ℕ) (r : Option (ℕ × Queue)) : Type 0 where
  none_free : r ≡ none → ((j : ℕ) → i ≤ j → j < end → q.free j ≡ false) → Takes q i end r
  takes :
      (d : ℕ)
      → r ≡ some (d, record q { free = update q.free d false })
      → d < end
      → q.free d ≡ true
      → Takes q i end r

alloc_desc_from-Takes :
    (q : Queue) (k i end : ℕ) → i + k ≡ end → Takes q i end (alloc_desc_from q k i)
unfolding alloc_desc_from
alloc_desc_from-Takes q zero i end e = none_free refl (λ j lo hi. absurd (omega arith))
alloc_desc_from-Takes q (suc k) i end e = elim (Bool-cases (q.free i)) [
  | inl free ↦ rw free (takes i refl (omega arith) free)
  | inr used ↦ rw used (elim (alloc_desc_from-Takes q k (i + 1) end (omega arith)) [
    | takes d r lt free ↦ takes d r lt free
    | none_free r all ↦ none_free r (λ j lo hi. elim (ℕ_discrete i j) [
      | yes same ↦ rw (← same) used
      | no ne ↦ all j (omega arith) hi
    ])
  ])
]

alloc_desc-Takes : (q : Queue) → Takes q 0 num (alloc_desc q)
unfolding alloc_desc
alloc_desc-Takes q = alloc_desc_from-Takes q num 0 num (omega arith)

-- Freeing a descriptor that is taken.
free_desc_lem :
    (q : Queue) (i : ℕ)
    → i < num
    → q.free i ≡ false
    → (q' : Queue) × (free_desc q i ≡ ok q')
      × ((j : ℕ) → q'.free j ≡ (if i == j then true else q.free j))
unfolding free_desc
free_desc_lem q i lt used =
    let valid : leb num i ≡ false = ground arith in
    (
      record {
        free = update q.free i true;
        desc = update q.desc i (record { addr = 0; len = 0; flags = 0; next = 0 });
      },
      rw (valid, used) refl,
      λ j. refl,
    )

module _ (f : ℕ → Bool) (a : ℕ) where
  still_free : (b : ℕ) → update f a false b ≡ true → (a ≢ b) × (f b ≡ true)
  still_free b h = elim (ℕ_discrete a b) [
    | yes e ↦ ground (arith, h, e)
    | no ne ↦ (ne, sym (update_ne f a false b ne) ∙ h)
  ]

  given_back : (j : ℕ) → f a ≡ true → (if a == j then true else update f a false j) ≡ f j
  given_back j h = elim (ℕ_discrete a j) [
    | yes e ↦ ground (arith, h, e, ap f e)
    | no ne ↦ ground (arith, ne)
  ]

both_back :
    (f : ℕ → Bool) (a b j : ℕ)
    → f a ≡ true
    → update f a false b ≡ true
    → (if b == j then true else (if a == j then true else update (update f a false) b false j))
      ≡ f j
both_back f a b j fa fb = elim (ℕ_discrete b j) [
  | yes e ↦ ground (arith, e, still_free f a b fb, ap f e)
  | no ne ↦ elim (ℕ_discrete a j) [
    | yes e ↦ ground (arith, ne, e, fa, ap f e)
    | no ne' ↦ ground (arith, ne, ne')
  ]
]

-- What `alloc3_desc` does: it takes three different descriptors that were free, and no other changes
-- its state; or fails, and every descriptor is free or not as before.
pub data TakesThree (q : Queue) (r : Run (Option (List ℕ) × Queue)) : Type 0 where
  three :
      (a b c : ℕ) (q' : Queue)
      → r ≡ ok (some (a ∷ b ∷ c ∷ []), q')
      → (q.free a ≡ true) × (q.free b ≡ true) × (q.free c ≡ true)
      → (a ≢ b) × (a ≢ c) × (b ≢ c)
      → (a < num) × (b < num) × (c < num)
      → ((j : ℕ)
          → q'.free j ≡ (
              if a == j
              then false
              else if b == j
              then false
              else if c == j
              then false
              else q.free j))
      → TakesThree q r
  too_few : (q' : Queue) → r ≡ ok (none, q') → ((j : ℕ) → q'.free j ≡ q.free j) → TakesThree q r

-- `alloc3_desc` never panics: it takes three different free descriptors, or, if there are not as many,
-- leaves every descriptor free or taken as it was.
pub alloc3_desc-TakesThree : (q : Queue) → TakesThree q (alloc3_desc q)
unfolding alloc3_desc alloc3_from free_all
alloc3_desc-TakesThree q = elim (alloc_desc-Takes q) [
  | none_free r all ↦ rw (r, alloc3_from) (too_few q refl (λ j. refl))
  | takes a ra la fa ↦
      let q1 : Queue = record q { free = update q.free a false } in
      elim (alloc_desc-Takes q1) [
        | none_free r all ↦
            let (q', e, same) = free_desc_lem q1 a la (update_self q.free a false) in
            rw (ra, alloc3_from)
              (rw (r, alloc3_from)
                (rw (e, free_all) (too_few q' refl (λ j. same j ∙ given_back q.free a j fa))))
        | takes b rb lb fb ↦
            let q2 : Queue = record q1 { free = update q1.free b false } in
            let ab : a ≢ b = λ e. (still_free q.free a b fb).0 e in
            elim (alloc_desc-Takes q2) [
              | none_free r all ↦
                  let (q3, e3, same3) =
                    free_desc_lem q2 a la (
                      update_ne q1.free b false a (λ e. ab (sym e)) ∙ update_self q.free a false) in
                  let (q4, e4, same4) =
                    free_desc_lem q3 b lb
                      (same3 b ∙ ground (arith, ab, update_self q1.free b false)) in
                  rw (ra, alloc3_from)
                    (rw (rb, alloc3_from)
                      (rw (r, alloc3_from)
                        (rw (e3, free_all)
                          (rw (e4, free_all)
                            (too_few q4 refl (λ j.
                              same4 j
                              ∙ ap (λ x. if b == j then true else x) (same3 j)
                              ∙ both_back q.free a b j fa fb))))))
              | takes c rc lc fc ↦
                  let (bc, fc1) = still_free q1.free b c fc in
                  rw (ra, alloc3_from)
                    (rw (rb, alloc3_from)
                      (rw (rc, alloc3_from)
                        (three a b c (record q2 { free = update q2.free c false }) refl
                          (fa, (still_free q.free a b fb).1, (still_free q.free a c fc1).1)
                          (ab, (still_free q.free a c fc1).0, bc) (la, lb, lc)
                          (λ j. ground arith))))
            ]
      ]
]
