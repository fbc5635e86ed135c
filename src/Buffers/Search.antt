-- ===== src/Buffers/Search.antt =====
-- The searches of `bread` through the ring.
use oskernel.Prelude.{
  ◌==◌, if◌then◌else◌, Bool-cases, Option-cases, All, ℕ, ◌+◌, ◌<◌, ◌≡◌, refl, ap, ◌∙◌, ◌≢◌, inl,
  inr, true, false, none, some, List, [], ◌∷◌, ◌++◌, arith, ℕ_discrete,
}
use oskernel.Buffers.{Buffer, holds, cached, unused, remove}

-- How often a buffer stands in the ring.
unfoldable pub count : ℕ → List ℕ → ℕ
count b [] = 0
count b (a ∷ ring) = (if a == b then 1 else 0) + count b ring

pub count_first :
    (a b : ℕ) (ring : List ℕ) → count b (a ∷ ring) ≡ (if a == b then 1 else 0) + count b ring
unfolding count
count_first a b ring = refl

pub count_empty : (b : ℕ) → count b [] ≡ 0
unfolding count
count_empty b = refl

module _ (buf : ℕ → Buffer) (dev bno : ℕ) where
  pub cached-some :
      (ring : List ℕ) (b : ℕ)
      → cached buf dev bno ring ≡ some b
      → (0 < count b ring) × (holds (buf b) dev bno ≡ true)
  unfolding cached count
  cached-some [] b e = ground (arith, e)
  cached-some (a ∷ ring) b e = elim (Bool-cases (holds (buf a) dev bno)) [
    | inl here ↦ let q : a ≡ b = ground (arith, e, here) in rw (← q) (ground arith, here)
    | inr other ↦
        let (m, h) = cached-some ring b (ground (arith, e, other)) in (omega (arith, m), h)
  ]

  pub cached-none :
      (ring : List ℕ) (i : ℕ)
      → cached buf dev bno ring ≡ none
      → 0 < count i ring
      → holds (buf i) dev bno ≡ false
  unfolding cached count
  cached-none [] i e m = absurd (omega (arith, m))
  cached-none (a ∷ ring) i e m = elim (Bool-cases (holds (buf a) dev bno)) [
    | inl here ↦ ground (arith, e, here)
    | inr other ↦ elim (ℕ_discrete a i) [
      | yes q ↦ rw (← q) other
      | no q ↦ cached-none ring i (ground (arith, e, other)) (ground (arith, m, q))
    ]
  ]

-- No buffer of a list is free.
abbrev pub AllHeld : (ℕ → Buffer) → List ℕ → Type 0
AllHeld buf ring = All (λ b. (buf b).refcnt ≢ 0) ring

module _ (buf : ℕ → Buffer) where
  pub unused-none : (ring : List ℕ) → unused buf ring ≡ none → AllHeld buf ring
  unfolding unused
  unused-none [] e = tt
  unused-none (a ∷ ring) e = elim (Option-cases (unused buf ring)) [
    | inl r ↦ (ground (arith, e, r), unused-none ring r)
    | inr (b, r) ↦ ground (arith, e, r)
  ]

  -- The buffer found is free, and all behind it in the ring, used less recently, are not.
  pub unused-some :
      (ring : List ℕ) (b : ℕ)
      → unused buf ring ≡ some b
      → ((buf b).refcnt ≡ 0)
        × (0 < count b ring)
        × (front : List ℕ) × (back : List ℕ) × (ring ≡ front ++ b ∷ back)
        × AllHeld buf back
  unfolding unused count
  unused-some [] b e = ground (arith, e)
  unused-some (a ∷ ring) b e = elim (Option-cases (unused buf ring)) [
    | inl r ↦
        let free : (buf a).refcnt ≡ 0 = ground (arith, e, r) in
        let q : a ≡ b = ground (arith, e, r, free) in
        rw (← q) (free, ground arith, [], ring, refl, unused-none ring r)
    | inr (b', r) ↦
        let q : b' ≡ b = ground (arith, e, r) in
        let (free, m, front, back, split, held) = unused-some ring b (r ∙ ap some q) in
        (free, omega (arith, m), a ∷ front, back, ap (λ l. a ∷ l) split, held)
  ]

-- `remove` takes out one buffer, and leaves all others.
pub count-remove :
    (b i : ℕ) (ring : List ℕ) → count i (remove b ring) ≡ (if b == i then 0 else count i ring)
unfolding count remove
count-remove b i [] = ground arith
count-remove b i (a ∷ ring) = elim (Bool-cases (a == b)) [
  | inl here ↦ rw here (ground (arith, here, count-remove b i ring))
  | inr other ↦ rw other (ground (arith, other, count-remove b i ring))
]
