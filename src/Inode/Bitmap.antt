-- ===== src/Inode/Bitmap.antt =====
-- `balloc` and `bfree` on the bitmap.
use oskernel.Prelude.{
  Bool-cases, ℕ, zero, suc, ◌+◌, ◌*◌, ◌/◌, ◌%◌, ◌≤◌, ◌<◌, ◌≡◌, refl, inl, inr, Bool, true, false,
  Option, none, some, arith, dec_lt, ℕ_discrete,
}
use oskernel.Inode.{Volume, scan_byte, scan_bytes}

-- What a scan of one byte finds.
pub data FirstClear (bits : ℕ → Bool) (i end : ℕ) (r : Option ℕ) : Type 0 where
  all_set : r ≡ none → ((k : ℕ) → i ≤ k → k < end → bits k ≡ true) → FirstClear bits i end r
  clear_at :
      (s : ℕ)
      → r ≡ some s
      → s < end
      → bits s ≡ false
      → ((k : ℕ) → i ≤ k → k < s → bits k ≡ true)
      → FirstClear bits i end r

pub scan_byte-FirstClear :
    (bits : ℕ → Bool) (k i end : ℕ) → i + k ≡ end → FirstClear bits i end (scan_byte bits k i)
unfolding scan_byte
scan_byte-FirstClear bits zero i end e = all_set refl (λ k lo hi. absurd (omega arith))
scan_byte-FirstClear bits (suc k) i end e = elim (Bool-cases (bits i)) [
  | inr c ↦ rw c (clear_at i refl (omega arith) c (λ j lo hi. absurd (omega arith)))
  | inl here ↦
      let widen : (j : ℕ) → (i + 1 ≤ j → bits j ≡ true) → i ≤ j → bits j ≡ true =
        λ j h lo. elim (ℕ_discrete i j) [ yes q ↦ rw (← q) here | no q ↦ h (omega arith) ] in
      rw here (elim (scan_byte-FirstClear bits k (i + 1) end (omega arith)) [
        | all_set r all ↦ all_set r (λ j lo hi. widen j (λ l. all j l hi) lo)
        | clear_at s r lt c all ↦ clear_at s r lt c (λ j lo hi. widen j (λ l. all j l hi) lo)
      ])
]

-- Block `k` of the data area is taken.
abbrev pub taken : Volume → ℕ → Bool
taken v k = v.bits (k / 8) (k % 8)

-- What a scan of the bytes finds: the first clear bit, if any.
pub data FirstFree (bits : ℕ → ℕ → Bool) (i end : ℕ) (r : Option (ℕ × ℕ)) : Type 0 where
  none_free :
      r ≡ none
      → ((k : ℕ) → i * 8 ≤ k → k < end * 8 → bits (k / 8) (k % 8) ≡ true)
      → FirstFree bits i end r
  free_at :
      (byte shift : ℕ)
      → r ≡ some (byte, shift)
      → byte < end
      → shift < 8
      → bits byte shift ≡ false
      → ((k : ℕ) → i * 8 ≤ k → k < byte * 8 + shift → bits (k / 8) (k % 8) ≡ true)
      → FirstFree bits i end r

pub scan_bytes-FirstFree :
    (bits : ℕ → ℕ → Bool) (n i end : ℕ) → i + n ≡ end → FirstFree bits i end (scan_bytes bits n i)
unfolding scan_bytes
scan_bytes-FirstFree bits zero i end e = none_free refl (λ k lo hi. absurd (omega arith))
scan_bytes-FirstFree bits (suc n) i end e =
    elim (scan_byte-FirstClear (bits i) 8 0 8 (omega arith)) [
      | clear_at s r lt c all ↦
          rw (r, scan_bytes)
            (free_at i s refl (omega arith) lt c (λ k lo hi.
              let q : k / 8 ≡ i = omega arith in rw q (all (k % 8) (omega arith) (omega arith))))
      | all_set r all ↦
          let widen : (k : ℕ)
              → ((i + 1) * 8 ≤ k → bits (k / 8) (k % 8) ≡ true)
              → i * 8 ≤ k
              → bits (k / 8) (k % 8) ≡ true =
            λ k h lo. elim (dec_lt k ((i + 1) * 8)) [
              | yes lt ↦
                  let q : k / 8 ≡ i = omega arith in rw q (all (k % 8) (omega arith) (omega arith))
              | no ge ↦ h (omega arith)
            ] in
          rw (r, scan_bytes)
            (elim (scan_bytes-FirstFree bits n (i + 1) end (omega arith)) [
              | none_free e' all' ↦ none_free e' (λ k lo hi. widen k (λ l. all' k l hi) lo)
              | free_at b s e' lb ls c all' ↦
                  free_at b s e' lb ls c (λ k lo hi. widen k (λ l. all' k l hi) lo)
            ])
    ]
