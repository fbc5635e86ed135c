-- ===== src/Strings/Text.antt =====
-- The functions on strings that end in a zero byte.
use oskernel.Prelude.{
  ltb, leb, ◌==◌, if◌then◌else◌, ==_iff, Bool-cases, update, ℕ, zero, suc, ◌+◌, ◌-◌, ◌≤◌, ◌<◌, ◌≡◌,
  refl, ap, ◌∙◌, ◌≢◌, ◌↔◌, ◌⊎◌, inl, inr, true, false, ◌&&◌, some, arith, dec_le, ℕ_discrete,
}
use native.Mathlib.Nat.{add-zero}
use oskernel.Strings.{Memory, strlen_from, strlen, strncmp, is_zero, pad, strncpy}

-- The string at `s` has `len` characters before its zero byte.
pub record HasLength (m : Memory) (s len : ℕ) : Type 0 where
  pub ended : m (s + len) ≡ 0
  pub before : (k : ℕ) → k < len → m (s + k) ≢ 0

strlen_from_lem :
    (fuel : ℕ) (m : Memory) (s i len : ℕ)
    → HasLength m s len
    → i ≤ len
    → len < i + fuel
    → strlen_from fuel m s i ≡ some len
unfolding strlen_from
strlen_from_lem zero m s i len h le lt = absurd (omega arith)
strlen_from_lem (suc fuel) m s i len h le lt = elim (ℕ_discrete i len) [
  | yes e ↦
      let z : (m (s + i) == 0) ≡ true = (==_iff _ 0).1 (ap (λ k. m (s + k)) e ∙ h.ended) in
      rw (z, strlen_from) (ap some e)
  | no ne ↦ elim (Bool-cases (m (s + i) == 0)) [
    | inl z ↦ absurd (h.before i (omega arith) ((==_iff _ 0).0 z))
    | inr nz ↦
        rw (nz, strlen_from) (strlen_from_lem fuel m s (i + 1) len h (omega arith) (omega arith))
  ]
]

-- `strlen` returns the number of characters before the zero byte, after one round more than that.
pub strlen_lem :
    (m : Memory) (s len fuel : ℕ) → HasLength m s len → len < fuel → strlen fuel m s ≡ some len
unfolding strlen
strlen_lem m s len fuel h lt = strlen_from_lem fuel m s 0 len h (omega arith) (omega arith)

-- The strings agree in the first `n` characters, or up to and with the zero byte that ends both.
abbrev pub Same : Memory → ℕ → ℕ → ℕ → Type 0
Same m s1 s2 zero = Unit {0}
Same m s1 s2 (suc n) = (m s1 ≡ m s2) × ((m s1 ≡ 0) ⊎ Same m (s1 + 1) (s2 + 1) n)

-- `strncmp` returns 0 exactly when the strings agree in that sense.
pub strncmp_lem : (m : Memory) (s1 s2 n : ℕ) → (is_zero (strncmp m s1 s2 n) ≡ true) ↔ Same m s1 s2 n
unfolding strncmp
strncmp_lem m s1 s2 zero = ((λ _. tt), (λ _. refl))
strncmp_lem m s1 s2 (suc n) =
    let ih = strncmp_lem m (s1 + 1) (s2 + 1) n in
    elim (Bool-cases (m s1 == 0)) [
      | inl z ↦ rw z ((λ h. (ground arith, inl (ground arith))), (λ h. ground arith))
      | inr nz ↦ elim (Bool-cases (m s1 == m s2)) [
        | inl same ↦
            rw (nz, same)
              (
                (λ h. ((==_iff _ _).0 same, inr (ih.0 h))),
                (λ h. elim (h.1) [ inl z ↦ absurd (ground arith) | inr rest ↦ ih.1 rest ]),
              )
        | inr other ↦ rw (nz, other) ((λ h. absurd (ground arith)), (λ h. absurd (ground arith)))
      ]
    ]

pad_lem :
    (m : Memory) (dst n a : ℕ) → pad m dst n a ≡ (if leb dst a && ltb a (dst + n) then 0 else m a)
unfolding pad
pad_lem m dst zero a = ground arith
pad_lem m dst (suc n) a = ground (arith, pad_lem (update m dst 0) (dst + 1) n a)

-- `strncpy` into an area apart from its source: the first `n` bytes of the destination become the
-- characters of the source up to its zero byte, filled up with zero bytes (so there is none if the
-- source has `n` characters or more), and no other byte changes.
pub strncpy_lem :
    (m : Memory) (dst src n len a : ℕ)
    → ((k : ℕ) → k < len → m (src + k) ≢ 0)
    → (n ≤ len) ⊎ (m (src + len) ≡ 0)
    → (dst + n ≤ src) ⊎ (src + n ≤ dst)
    → strncpy m dst src n a ≡ (
        if leb dst a && ltb a (dst + n)
        then (if ltb (a - dst) len then m (src + (a - dst)) else 0)
        else m a)
unfolding strncpy
strncpy_lem m dst src zero len a chars end apart = ground arith
strncpy_lem m dst src (suc n) zero a chars end apart =
    ground (arith, pad_lem m dst (suc n) a, ap m (add-zero src))
strncpy_lem m dst src (suc n) (suc len) a chars end apart =
    let m' = update m dst (m src) in
    let first : m src ≢ 0 = λ z. chars 0 (omega arith) (ap m (add-zero src) ∙ z) in
    let keep : (k : ℕ) → k < n → m' (src + 1 + k) ≡ m (src + suc k) = λ k h. ground arith in
    let chars' : (k : ℕ) → k < len → m' (src + 1 + k) ≢ 0 = λ k h z.
      elim (ℕ_discrete dst (src + 1 + k)) [
        | yes e ↦ first (ground arith)
        | no ne ↦ chars (suc k) (omega arith) (ground arith)
      ] in
    let end' : (n ≤ len) ⊎ (m' (src + 1 + len) ≡ 0) = elim (dec_le n len) [
      | yes le ↦ inl le
      | no gt ↦ inr (ground (arith, keep len))
    ] in
    let ih = strncpy_lem m' (dst + 1) (src + 1) n len a chars' end' (omega arith) in
    let nz : (m src == 0) ≡ false = ground arith in
    rw nz (ih ∙ ground (arith, keep (a - (dst + 1))))
