-- ===== src/Ulib/Print/Room.antt =====
-- The buffer of the digits is large enough.
use oskernel.Prelude.{
  ◌==◌, Bool-cases, length, ℕ, zero, suc, ◌+◌, ◌*◌, ◌/◌, ◌%◌, ◌^◌, ◌≤◌, ◌<◌, ◌≡◌, refl, sym, ◌∙◌,
  ◌⊎◌, inl, inr, true, List, [], ◌∷◌, arith,
}
use oskernel.Ulib.Print.{digit, digits_before, buf_size}

pow : ℕ → ℕ → ℕ
pow b zero = 1
pow b (suc n) = b * pow b n

-- What the division by the base must do.
Divides : ℕ → Type 0
Divides b = (x y : ℕ) → x < b * y → x / b < y

last_round :
    (b room x : ℕ) (tail : List ℕ)
    → x / b < 1
    → digits_before (suc room) x b tail ≡ digit (x % b) ∷ tail
unfolding digits_before
last_round b room x tail lt =
    let e : (x / b == 0) ≡ true = ground arith in rw (e, digits_before) refl

-- Once there is a round for every digit, more rounds change nothing.
digits-room :
    (b : ℕ)
    → Divides b
    → (room big x : ℕ) (tail : List ℕ) → x < pow b (suc room)
    → room ≤ big
    → digits_before (suc big) x b tail ≡ digits_before (suc room) x b tail
unfolding digits_before pow Divides
digits-room b div zero big x tail lt le =
    let small = div x 1 lt in last_round b big x tail small ∙ sym (last_round b zero x tail small)
digits-room b div (suc room) zero x tail lt le = absurd (omega arith)
digits-room b div (suc room) (suc big) x tail lt le = elim (Bool-cases (x / b == 0)) [
  | inl last ↦ rw (last, digits_before) refl
  | inr more ↦
      rw (more, digits_before)
        (digits-room b div room big (x / b) (digit (x % b) ∷ tail) (div x (pow b (suc room)) lt)
          (omega arith))
]

length-digits :
    (b room x : ℕ) (tail : List ℕ) → length (digits_before room x b tail) ≤ room + length tail
unfolding digits_before
length-digits b zero x tail = omega arith
length-digits b (suc room) x tail = elim (Bool-cases (x / b == 0)) [
  | inl last ↦ rw (last, digits_before) (omega arith)
  | inr more ↦
      rw (more, digits_before) (omega (arith, length-digits b room (x / b) (digit (x % b) ∷ tail)))
]

ten : Divides 10
unfolding Divides
ten x y lt = omega arith

sixteen : Divides 16
unfolding Divides
sixteen x y lt = omega arith

more_rounds :
    (b : ℕ)
    → Divides b
    → (x more : ℕ) → x < pow b 20
    → 20 ≤ more
    → digits_before more x b [] ≡ digits_before 20 x b []
more_rounds b div x zero lt le = absurd (omega arith)
more_rounds b div x (suc big) lt le = digits-room b div 19 big x [] lt (omega arith)

fits :
    (b : ℕ)
    → Divides b
    → (x : ℕ) → x < pow b 20
    → (length (digits_before buf_size x b []) ≤ 20)
      × ((more : ℕ) → buf_size ≤ more → digits_before more x b [] ≡ digits_before buf_size x b [])
fits b div x lt =
    let small = digits-room b div 19 31 x [] lt (omega arith) in
    (
      rw small (omega (arith, length-digits b 20 x [])),
      λ more le. more_rounds b div x more lt (omega arith) ∙ sym small,
    )

-- The digits of a 64-bit number to the base 10 or 16 are 20 at most, so `buf` has room for them, and
-- the loop ends because the number is used up: more rounds would give the same.
pub digits_fit :
    (x b : ℕ)
    → x < 2 ^ 64
    → (b ≡ 10) ⊎ (b ≡ 16)
    → (length (digits_before buf_size x b []) ≤ 20)
      × ((more : ℕ) → buf_size ≤ more → digits_before more x b [] ≡ digits_before buf_size x b [])
unfolding pow
digits_fit x b lt (inl e) = rw e (fits 10 ten x (omega arith))
digits_fit x b lt (inr e) = rw e (fits 16 sixteen x (omega arith))
