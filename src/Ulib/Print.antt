-- ===== src/Ulib/Print.antt =====
-- `dprint_int`, `dprint_ptr`, `dprint_str` and `vdprintf` of user/ulib.c. The result is what they
-- write, call after call. A flag is a Boolean; the arguments are a stream of 64-bit words, of which
-- `text` gives the string that a pointer points at.
pub mod Digits
pub mod Format
pub mod Room
use oskernel.Prelude.{
  ltb, leb, ◌==◌, if◌then◌else◌, length, ℕ, zero, suc, ◌+◌, ◌-◌, ◌/◌, ◌%◌, ◌^◌, Bool, true, false,
  ◌&&◌, Option, none, some, List, [], ◌∷◌, ◌++◌,
}

-- `digits[d]`
abbrev pub digit : ℕ → ℕ
digit d = if ltb d 10 then 48 + d else 87 + d

-- The loop that fills `buf` from its end, for `room` rounds at most: what stands in front of `tail`.
unfoldable pub digits_before : ℕ → ℕ → ℕ → List ℕ → List ℕ
digits_before zero x base tail = tail
digits_before (suc room) x base tail =
    let rest = digits_before room (x / base) base (digit (x % base) ∷ tail) in
    if x / base == 0 then digit (x % base) ∷ tail else rest

-- `sizeof(buf)`
abbrev pub buf_size : ℕ
buf_size = 32

-- `(long long)x < 0`
abbrev pub is_negative : Bool → ℕ → Bool
is_negative signed x = signed && leb (2 ^ 63) x

unfoldable pub dprint_int : ℕ → ℕ → Bool → List ℕ
dprint_int x base signed =
    if is_negative signed x
    then 45 ∷ digits_before buf_size ((2 ^ 64 - x) % 2 ^ 64) base []
    else digits_before buf_size x base []

pub dprint_ptr : ℕ → List ℕ
dprint_ptr x = 48 ∷ 120 ∷ digits_before buf_size x 16 []

-- "(null)"
abbrev null_text : List ℕ
null_text = 40 ∷ 110 ∷ 117 ∷ 108 ∷ 108 ∷ 41 ∷ []

pub dprint_str : Option (List ℕ) → List ℕ
dprint_str none = null_text
dprint_str (some s) = s

-- `va_arg` of the types that the flags `PF_LONG` and `PF_LONG_LONG` select: the word, or its low half
-- as an `int` or an `unsigned int`.
abbrev pub va_int : Bool → ℕ → ℕ
va_int long w =
    let low = w % 2 ^ 32 in
    if long then w else if leb (2 ^ 31) low then low + (2 ^ 64 - 2 ^ 32) else low

abbrev pub va_unsigned : Bool → ℕ → ℕ
va_unsigned long w = if long then w else w % 2 ^ 32

-- What a conversion comes to: what it writes, the arguments it takes and the format behind it, or no
-- valid one.
pub data Conversion : Type 0 where
  valid : List ℕ → ℕ → List ℕ → Conversion
  invalid : Conversion

-- The inner loop of `vdprintf` behind a `%`; `w` is the next argument.
pub convert : (ℕ → Option (List ℕ)) → ℕ → Bool → List ℕ → Conversion
convert text w long [] = invalid
convert text w long (c ∷ fmt) =
    let next = convert text w true fmt in
    if c == 100
    then valid (dprint_int (va_int long w) 10 true) 1 fmt
    else if c == 117
    then valid (dprint_int (va_unsigned long w) 10 false) 1 fmt
    else if c == 120
    then valid (dprint_int (va_unsigned long w) 16 false) 1 fmt
    else if c == 112
    then valid (dprint_ptr w) 1 fmt
    else if c == 115
    then valid (dprint_str (text w)) 1 fmt
    else if c == 99
    then valid (w % 256 ∷ []) 1 fmt
    else if c == 37
    then valid (37 ∷ []) 0 fmt
    else if c == 108
    then next
    else invalid

-- The outer loop, for `fuel` rounds at most; `k` is how many arguments are taken.
pub vdprintf : ℕ → (ℕ → Option (List ℕ)) → (ℕ → ℕ) → ℕ → List ℕ → List ℕ
vdprintf zero text args k fmt = []
vdprintf (suc fuel) text args k [] = []
vdprintf (suc fuel) text args k (c ∷ fmt) =
    if c == 37
    then elim (convert text (args k) false fmt) [
      | invalid ↦ 37 ∷ vdprintf fuel text args k fmt
      | valid out taken rest ↦ out ++ vdprintf fuel text args (k + taken) rest
    ]
    else c ∷ vdprintf fuel text args k fmt

-- `printf`, with as many rounds as the format has characters.
pub printf : (ℕ → Option (List ℕ)) → (ℕ → ℕ) → List ℕ → List ℕ
printf text args fmt = vdprintf (length fmt) text args 0 fmt
