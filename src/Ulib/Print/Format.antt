-- ===== src/Ulib/Print/Format.antt =====
-- The rounds of `vdprintf`.
use oskernel.Prelude.{
  ◌==◌, Bool-cases, length, ℕ, zero, suc, ◌+◌, ◌≤◌, ◌<◌, ◌≡◌, refl, ap, ◌⊎◌, inl, inr, Bool, true,
  false, Option, List, [], ◌∷◌, ◌++◌, arith,
}
use oskernel.Ulib.Print.{Conversion, valid, invalid, convert, vdprintf, printf}

convert-rest :
    (text : ℕ → Option (List ℕ)) (w : ℕ) (long : Bool) (fmt out : List ℕ) (taken : ℕ)
    (rest : List ℕ)
    → convert text w long fmt ≡ valid out taken rest
    → length rest < length fmt
unfolding convert
convert-rest text w long [] out taken rest e = absurd (ground (arith, e))
convert-rest text w long (c ∷ fmt) out taken rest e =
    ground (arith, e, convert-rest text w true fmt out taken rest)

Conversion-cases :
    (r : Conversion)
    → (r ≡ invalid) ⊎ ((out : List ℕ) × (taken : ℕ) × (rest : List ℕ) × (r ≡ valid out taken rest))
Conversion-cases invalid = inl refl
Conversion-cases (valid out taken rest) = inr (out, taken, rest, refl)

vdprintf-rounds :
    (text : ℕ → Option (List ℕ)) (args : ℕ → ℕ) (f g k : ℕ) (fmt : List ℕ)
    → length fmt ≤ f
    → length fmt ≤ g
    → vdprintf f text args k fmt ≡ vdprintf g text args k fmt
unfolding vdprintf
vdprintf-rounds text args zero zero k fmt lf lg = refl
vdprintf-rounds text args zero (suc g) k [] lf lg = refl
vdprintf-rounds text args (suc f) zero k [] lf lg = refl
vdprintf-rounds text args (suc f) (suc g) k [] lf lg = refl
vdprintf-rounds text args zero (suc g) k (c ∷ fmt) lf lg = absurd (omega arith)
vdprintf-rounds text args (suc f) zero k (c ∷ fmt) lf lg = absurd (omega arith)
vdprintf-rounds text args (suc f) (suc g) k (c ∷ fmt) lf lg =
    let plain : vdprintf f text args k fmt ≡ vdprintf g text args k fmt =
      vdprintf-rounds text args f g k fmt (omega arith) (omega arith) in
    elim (Bool-cases (c == 37)) [
      | inr other ↦ rw (other, vdprintf) (ap (λ l. c ∷ l) plain)
      | inl percent ↦ elim (Conversion-cases (convert text (args k) false fmt)) [
        | inl e ↦ rw (percent, vdprintf) (rw e (ap (λ l. 37 ∷ l) plain))
        | inr (out, taken, rest, e) ↦
            let shorter = convert-rest text (args k) false fmt out taken rest e in
            rw (percent, vdprintf)
              (rw e (
                ap (λ l. out ++ l)
                  (vdprintf-rounds text args f g (k + taken) rest (omega (arith, shorter))
                    (omega (arith, shorter)))))
      ]
    ]

-- The loops of `vdprintf` end: with at least as many rounds as the format has characters, the output
-- is that of `printf`.
pub vdprintf_ends :
    (text : ℕ → Option (List ℕ)) (args : ℕ → ℕ) (fuel : ℕ) (fmt : List ℕ)
    → length fmt ≤ fuel
    → vdprintf fuel text args 0 fmt ≡ printf text args fmt
unfolding printf
vdprintf_ends text args fuel fmt le =
    vdprintf-rounds text args fuel (length fmt) 0 fmt le (omega arith)
