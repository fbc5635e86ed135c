-- ===== src/Console/Tests.antt =====
-- Keys at a console.
use oskernel.Prelude.{◌==◌, if◌then◌else◌, update, ◌+◌, ◌-◌, ◌^◌, ◌≡◌, refl, false, [], ◌∷◌, arith}
use oskernel.Console.{input_size, Console, pressed, stores_outside, console_intr}
use oskernel.Console.Editing.{IsInput, IsPlain, HasRoom, type_char_lem, delete_lem, delete_outside}

-- A line that begins at index 5 and has two characters; all before it is read.
abbrev line : Console
line = record { buf = λ _. 0; r = 5; w = 5; e = 7 }

line-IsInput : IsInput line
line-IsInput = record { r_in = omega arith; w_in = omega arith; e_in = omega arith }

line-HasRoom : HasRoom line
line-HasRoom = record { one = λ q. omega (arith, q); two = λ q. omega (arith, q) }

-- The letter a.
a-IsPlain : IsPlain 97
a-IsPlain = record {
  not_nul = λ q. omega (arith, q);
  not_eot = λ q. omega (arith, q);
  not_lf = λ q. omega (arith, q);
  not_cr = λ q. omega (arith, q);
  not_dump = λ q. omega (arith, q);
  not_delete = λ q. omega (arith, q);
}

type_char_lem_example :
    console_intr 97 line
    ≡ pressed (record line { buf = update line.buf 7 97; e = 8 }) (97 ∷ []) false
type_char_lem_example = type_char_lem 97 line line-IsInput a-IsPlain line-HasRoom

delete_lem_example :
    (cons' cons'' : Console) × (console_intr 97 line ≡ pressed cons' (97 ∷ []) false)
    × (console_intr 127 cons' ≡ pressed cons'' (256 ∷ []) false)
    × (cons''.r ≡ line.r)
    × (cons''.w ≡ line.w)
    × (cons''.e ≡ (if line.e + 1 == input_size then 2 ^ 32 - 1 else line.e))
delete_lem_example = delete_lem 97 line line-IsInput a-IsPlain line-HasRoom (λ q. omega (arith, q))

-- A line that begins at 127 and goes on at 0.
abbrev around : Console
around = record { buf = λ _. 0; r = 127; w = 127; e = 0 }

delete_outside_example :
    (cons' : Console) × (console_intr 127 around ≡ pressed cons' (256 ∷ []) false)
    × (console_intr 97 cons' ≡ stores_outside (2 ^ 32 - 1))
delete_outside_example =
    delete_outside 97 around refl (λ q. omega (arith, q)) (λ q. omega (arith, q)) a-IsPlain
