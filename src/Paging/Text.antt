-- ===== src/Paging/Text.antt =====
-- Copying strings between user memory and the kernel: `copy_str_in` and `copy_str_out`. Neither loop
-- over the pages moves the user's address or counts `max_len` down, since `len` is 0 behind the inner
-- loop, so they take a number of rounds, and when these do not end them they stand before the next one.
pub mod Copying
use oskernel.Prelude.{
  ltb, ◌==◌, if◌then◌else◌, update, Run, ok, ◌>>=◌, ◌>>◌, ℕ, zero, suc, ◌+◌, ◌-◌, Bool, true, false,
  not, ◌&&◌, ◌||◌, Option, none, some,
}
use oskernel.Paging.{max_paddr, Ram, pte2pa, bit, walk, uvm_walk_addr}
use oskernel.Paging.Users.{page_round_down, chunk}

-- What the inner loop comes to, with `dst` then: the end of the string, all bytes copied, or a store to
-- an address that is not plain: behind physical memory, or in a word, such as an entry of a page table.
-- What follows such a store is not modelled.
pub data Part : Type 0 where
  ended whole strays : ℕ → Ram → Part

-- The inner loop, over `len` bytes from `s` to `dst`; `plain` tells which bytes are not those of words.
pub copy_part : (ℕ → Bool) → ℕ → ℕ → ℕ → Ram → Part
copy_part plain zero dst s m = whole dst m
copy_part plain (suc len) dst s m =
    let m' : Ram = record m { byte = update m.byte dst (m.byte s) } in
    let rest = copy_part plain len (dst + 1) (s + 1) m' in
    if ltb dst max_paddr && plain dst
    then (if m'.byte s == 0 then ended dst m' else rest)
    else strays dst m

-- The page of `copy_str_in` at `src`: what the inner loop comes to, or `none` where there is no page.
pub page_in : (ℕ → Bool) → ℕ → ℕ → ℕ → ℕ → Ram → Run (Option Part)
page_in plain table dst src max_len m = do
  let va = page_round_down src
  pa ← uvm_walk_addr table va m
  ok (if pa == 0 then none else some (copy_part plain (chunk src max_len) dst (pa + (src - va)) m))

-- What a copy comes to: the value false is the result -1, and a copy that goes on or
-- strays has the kernel's address of the next byte.
pub data TextCopy : Type 0 where
  returned : Bool → Ram → TextCopy
  goes_on leaves : ℕ → Ram → TextCopy

pub copy_str_in : (ℕ → Bool) → ℕ → ℕ → ℕ → ℕ → ℕ → Ram → Run TextCopy
copy_str_in plain zero table dst src max_len m = ok (goes_on dst m)
copy_str_in plain (suc rounds) table dst src max_len m = elim (max_len == 0) [
  | true ↦ ok (returned true m)
  | false ↦ do
    r ← page_in plain table dst src max_len m
    elim r [
      | none ↦ ok (returned false m)
      | some r ↦ elim r [
        | ended dst' m' ↦ ok (returned true m')
        | whole dst' m' ↦ copy_str_in plain rounds table dst' src (max_len - 0) m'
        | strays dst' m' ↦ ok (leaves dst' m')
      ]
    ]
]

-- The inner loop moves `src` along.
pub copy_str_out : (ℕ → Bool) → ℕ → ℕ → ℕ → ℕ → ℕ → Ram → TextCopy
copy_str_out plain zero table dst src max_len m = goes_on src m
copy_str_out plain (suc rounds) table dst src max_len m = elim (max_len == 0) [
  | true ↦ returned true m
  | false ↦
      let va = page_round_down dst in
      let pte = (walk table va false m).0 in
      let entry = m.word pte in
      let len = chunk dst max_len in
      let r = copy_part plain len (pte2pa entry + (dst - va)) src m in
      elim (pte == 0 || not (bit entry 0) || not (bit entry 4) || not (bit entry 2)) [
        | true ↦ returned false m
        | false ↦ elim r [
          | ended _ m' ↦ returned true m'
          | whole _ m' ↦ copy_str_out plain rounds table dst (src + len) (max_len - 0) m'
          | strays at m' ↦ leaves at m'
        ]
      ]
]
