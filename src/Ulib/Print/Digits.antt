-- ===== src/Ulib/Print/Digits.antt =====
-- Printing a number and reading it back.
use oskernel.Prelude.{
  ltb, leb, ◌==◌, Bool-cases, ℕ, zero, suc, ◌+◌, ◌-◌, ◌*◌, ◌/◌, ◌%◌, ◌^◌, ◌<◌, ◌≡◌, ap, ◌∙◌, inl,
  inr, Bool, true, false, ◌&&◌, some, List, [], ◌∷◌, arith,
}
use oskernel.Ulib.Text.{atoi_from, atoi}
use oskernel.Ulib.Print.{digit, digits_before, buf_size, is_negative, dprint_int}

abbrev pow10 : ℕ → ℕ
pow10 zero = 1
pow10 (suc n) = 10 * pow10 n

atoi-digit :
    (d n : ℕ) (tail : List ℕ)
    → d < 10
    → n * 10 + d < 2 ^ 31
    → atoi_from (digit d ∷ tail) n ≡ atoi_from tail (n * 10 + d)
unfolding atoi_from
atoi-digit d n tail lt fits =
    let small : ltb d 10 ≡ true = ground arith in
    let is_digit : (leb 48 (48 + d) && leb (48 + d) 57) ≡ true = ground arith in
    let value : n * 10 + (48 + d - 48) ≡ n * 10 + d = omega arith in
    let room : ltb (n * 10 + (48 + d - 48)) (2 ^ 31) ≡ true = ground (arith, fits, value) in
    rw small (rw is_digit (rw room (ap (atoi_from tail) value)))

-- The digits of a number, however many rounds are left, read as the number.
atoi-digits_before :
    (room x : ℕ) (tail : List ℕ)
    → x < pow10 room
    → x < 2 ^ 31
    → atoi_from (digits_before room x 10 tail) 0 ≡ atoi_from tail x
unfolding digits_before
atoi-digits_before zero x tail lt small = ap (atoi_from tail) (omega arith)
atoi-digits_before (suc room) x tail lt small = elim (Bool-cases (x / 10 == 0)) [
  | inl last ↦
      rw (last, digits_before)
        (atoi-digit (x % 10) 0 tail (omega arith) (omega arith)
          ∙ ap (atoi_from tail) ground (arith, last))
  | inr more ↦
      rw (more, digits_before)
        (atoi-digits_before room (x / 10) (digit (x % 10) ∷ tail) (omega arith) (omega arith)
          ∙ atoi-digit (x % 10) (x / 10) tail (omega arith) (omega arith)
          ∙ ap (atoi_from tail) (omega arith))
]

-- Reading back what `%d` or `%u` prints of a number below 2 ^ 31 gives the number: no digit is lost,
-- and no step of `atoi` overflows an `int`.
pub atoi-dprint_int : (n : ℕ) (signed : Bool) → n < 2 ^ 31 → atoi (dprint_int n 10 signed) ≡ some n
unfolding atoi dprint_int atoi_from
atoi-dprint_int n signed lt =
    let positive : is_negative signed n ≡ false = ground arith in
    rw positive (atoi-digits_before buf_size n [] (omega arith) lt)
