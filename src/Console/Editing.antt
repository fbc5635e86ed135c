-- ===== src/Console/Editing.antt =====
-- Typing and deleting.
use oskernel.Prelude.{
  ltb, ◌==◌, if◌then◌else◌, update, ℕ, ◌+◌, ◌-◌, ◌%◌, ◌^◌, ◌<◌, ◌≡◌, refl, ◌≢◌, true, false, [],
  ◌∷◌, arith,
}
use oskernel.Console.{input_size, Console, pressed, stores_outside, type_char, console_intr}

pub record IsInput (cons : Console) : Type 0 where
  pub r_in : cons.r < input_size
  pub w_in : cons.w < input_size
  pub e_in : cons.e < input_size

-- A character that is neither an editing key nor the end of a line.
pub record IsPlain (c : ℕ) : Type 0 where
  pub not_nul : c ≢ 0
  pub not_eot : c ≢ 4
  pub not_lf : c ≢ 10
  pub not_cr : c ≢ 13
  pub not_dump : c ≢ 16
  pub not_delete : c ≢ 127

-- There is room for a character, and one more for the end of the line.
pub record HasRoom (cons : Console) : Type 0 where
  pub one : (cons.e + 1) % input_size ≢ cons.r
  pub two : ((cons.e + 1) % input_size + 1) % input_size ≢ cons.r

-- Typing a plain character where there is room stores and prints it, and wakes nobody.
pub type_char_lem :
    (c : ℕ) (cons : Console)
    → IsInput cons
    → IsPlain c
    → HasRoom cons
    → console_intr c cons
      ≡ pressed
          (record cons { buf = update cons.buf cons.e (c % 256); e = (cons.e + 1) % input_size })
          (c ∷ [])
          false
unfolding console_intr type_char
type_char_lem c cons v p room =
    let k16 : (c == 16) ≡ false = ground (arith, p.not_dump) in
    let k127 : (c == 127) ≡ false = ground (arith, p.not_delete) in
    let k0 : (c == 0) ≡ false = ground (arith, p.not_nul) in
    let k13 : (c == 13) ≡ false = ground (arith, p.not_cr) in
    let k10 : (c == 10) ≡ false = ground (arith, p.not_lf) in
    let k4 : (c == 4) ≡ false = ground (arith, p.not_eot) in
    let one : ((cons.e + 1) % input_size == cons.r) ≡ false = ground (arith, room.one) in
    let two : (((cons.e + 1) % input_size + 1) % input_size == cons.r) ≡ false =
      ground (arith, room.two) in
    let inside : ltb cons.e input_size ≡ true = ground (arith, v.e_in) in
    rw (k16, k127, k0) (rw (one, inside) (rw k13 (rw (k10, k4, two) refl)))

-- Deleting the character typed last brings back the indices, if the next index did not start again at
-- 0 and the line is not empty; where it did, the index that deleting leaves is 2^32 - 1.
pub delete_lem :
    (c : ℕ) (cons : Console)
    → IsInput cons
    → IsPlain c
    → HasRoom cons
    → (cons.e + 1) % input_size ≢ cons.w
    → (cons' cons'' : Console) × (console_intr c cons ≡ pressed cons' (c ∷ []) false)
      × (console_intr 127 cons' ≡ pressed cons'' (256 ∷ []) false)
      × (cons''.r ≡ cons.r)
      × (cons''.w ≡ cons.w)
      × (cons''.e ≡ (if cons.e + 1 == input_size then 2 ^ 32 - 1 else cons.e))
unfolding console_intr
delete_lem c cons v p room unfinished =
    let cons' : Console = record cons {
      buf = update cons.buf cons.e (c % 256);
      e = (cons.e + 1) % input_size;
    } in
    let typed : ((cons.e + 1) % input_size == cons.w) ≡ false = ground (arith, unfinished) in
    (
      cons',
      record cons' { e = (cons'.e + 2 ^ 32 - 1) % 2 ^ 32 },
      type_char_lem c cons v p room,
      rw typed refl,
      refl,
      refl,
      ground (arith, v.e_in),
    )

-- After a deletion at index 0 the next character typed is stored far behind the buffer, unless the
-- ring is full then.
pub delete_outside :
    (c : ℕ) (cons : Console)
    → cons.e ≡ 0
    → cons.w ≢ 0
    → cons.r ≢ 0
    → IsPlain c
    → (cons' : Console) × (console_intr 127 cons ≡ pressed cons' (256 ∷ []) false)
      × (console_intr c cons' ≡ stores_outside (2 ^ 32 - 1))
unfolding console_intr type_char
delete_outside c cons start line behind p =
    let k16 : (c == 16) ≡ false = ground (arith, p.not_dump) in
    let k127 : (c == 127) ≡ false = ground (arith, p.not_delete) in
    let k0 : (c == 0) ≡ false = ground (arith, p.not_nul) in
    let unfinished : (cons.e == cons.w) ≡ false = ground (arith, start, line) in
    let last : (cons.e + 2 ^ 32 - 1) % 2 ^ 32 ≡ 2 ^ 32 - 1 = omega (arith, start) in
    let free : (0 == cons.r) ≡ false = ground (arith, behind) in
    (record cons { e = 2 ^ 32 - 1 }, rw (unfinished, last) refl, rw (k16, k127, k0) (rw free refl))
