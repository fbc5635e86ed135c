-- ===== src/Console.antt =====
-- kernel/dev/console.c: the input ring with line editing. A function holds the console's lock from one
-- wait to the next. What is printed is a list of characters, of which 256 erases one.
pub mod Editing
mod Tests
use oskernel.Prelude.{
  ltb, ◌==◌, if◌then◌else◌, update, ℕ, zero, suc, ◌+◌, ◌-◌, ◌%◌, ◌^◌, Bool, false, ◌||◌, List, [],
  ◌∷◌,
}

abbrev pub input_size : ℕ
input_size = 128

-- `struct console`, without the lock. The indices are `uint32_t`.
pub record Console : Type 0 where
  pub buf : ℕ → ℕ
  pub r : ℕ
  pub w : ℕ
  pub e : ℕ

-- What a key does: the console, what is printed and whether the readers are woken; or a store behind
-- the end of the buffer.
pub data Press : Type 0 where
  pressed : Console → List ℕ → Bool → Press
  stores_outside : ℕ → Press

-- The `default` branch of `console_intr`; a carriage return is a line feed.
pub type_char : ℕ → Console → Press
type_char c cons =
    let c' = if c == 13 then 10 else c in
    let e = (cons.e + 1) % input_size in
    let ends = c' == 10 || (c' == 4 || (e + 1) % input_size == cons.r) in
    if c == 0 || e == cons.r
    then pressed cons [] false
    else if ltb cons.e input_size
    then pressed
        (record cons {
          buf = update cons.buf cons.e (c' % 256);
          e = e;
          w = if ends then e else cons.w;
        })
        (c' ∷ []) ends
    else stores_outside cons.e

-- Control-P lists the processes, 127 deletes a character.
pub console_intr : ℕ → Console → Press
console_intr c cons =
    if c == 16
    then pressed cons [] false
    else if c == 127
    then (if cons.e == cons.w
        then pressed cons [] false
        else pressed (record cons { e = (cons.e + 2 ^ 32 - 1) % 2 ^ 32 }) (256 ∷ []) false)
    else type_char c cons

-- How a read ends: -1, a number of bytes, or in `sleep_on` with `left` bytes to read.
pub data Stop : Type 0 where
  failed : Stop
  returned sleeping : ℕ → Stop

pub record Read : Type 0 where
  pub stop : Stop
  pub bytes : List ℕ
  pub console : Console

-- The loop of `console_read` with `n` of `target` bytes left; `copies n` says whether the copy of the
-- byte succeeds. The store of `cons.r - 1` is that of a `uint32_t`.
pub console_read : Bool → (ℕ → Bool) → ℕ → ℕ → Console → Read
console_read killed copies target zero cons = record {
  stop = returned target;
  bytes = [];
  console = cons;
}
console_read killed copies target (suc n) cons =
    let c = cons.buf cons.r in
    let next : Console = record cons { r = (cons.r + 1) % input_size } in
    let back : Console = record cons { r = ((cons.r + 1) % input_size + 2 ^ 32 - 1) % 2 ^ 32 } in
    let rest = console_read killed copies target n next in
    let got = target - suc n in
    if cons.r == cons.w
    then record { stop = if killed then failed else sleeping (suc n); bytes = []; console = cons }
    else if c == 4
    then record {
      stop = returned got;
      bytes = [];
      console = if ltb (suc n) target then back else next;
    }
    else if copies (suc n)
    then record rest { bytes = c ∷ rest.bytes }
    else record { stop = returned got; bytes = []; console = next }
