-- ===== src/Strings/Tests.antt =====
-- The string functions at concrete inputs.
use oskernel.Prelude.{◌==◌, if◌then◌else◌, ◌+◌, ◌%◌, ◌≡◌, refl, ◌↔◌, inr, true, ◌||◌, some, arith}
use oskernel.Strings.{
  Memory, memset, memmove, strlen, strncmp, is_zero, strncpy, strrchr_from, strrchr,
}
use oskernel.Strings.Blocks.{within, memset_lem, memmove_lem}
use oskernel.Strings.Text.{HasLength, strlen_lem, Same, strncmp_lem, strncpy_lem}

-- "abc" at 100 and "abd" at 200.
abbrev words : Memory
words a =
    if within 100 2 a || within 200 2 a
    then 97 + a % 100
    else if a == 102
    then 99
    else if a == 202
    then 100
    else 0

abc-HasLength : HasLength words 100 3
abc-HasLength = record { ended = refl; before = λ k h. ground arith }

strlen_lem_example : strlen 4 words 100 ≡ some 3
strlen_lem_example = strlen_lem words 100 3 4 abc-HasLength (omega arith)

strncmp_lem_example : (is_zero (strncmp words 100 200 3) ≡ true) ↔ Same words 100 200 3
strncmp_lem_example = strncmp_lem words 100 200 3

strncmp_two : is_zero (strncmp words 100 200 2) ≡ true
unfolding strncmp
strncmp_two = refl

strncpy_lem_example : strncpy words 300 100 6 304 ≡ 0
strncpy_lem_example =
    strncpy_lem words 300 100 6 3 304 (λ k h. abc-HasLength.before k h) (inr refl)
      (inr (omega arith))

memset_lem_example : memset words 100 0x141 3 101 ≡ 0x41
memset_lem_example = memset_lem words 100 0x141 3 101

memmove_lem_example : memmove words 101 100 3 103 ≡ 99
memmove_lem_example = memmove_lem words 101 100 3 103

strrchr_last : strrchr 9 words 100 99 ≡ some (some 102)
unfolding strrchr strrchr_from
strrchr_last = refl
