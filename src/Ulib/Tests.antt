-- ===== src/Ulib/Tests.antt =====
-- Runs of the library.
use oskernel.Prelude.{
  length, ℕ, ◌-◌, ◌≤◌, ◌≡◌, refl, ◌≢◌, inr, true, false, none, some, List, [], ◌∷◌, arith,
}
use oskernel.Ulib.Heap.{header, Block, Heap, malloc, free}
use oskernel.Ulib.Heap.Promise.{IsHeap, Allocation, malloc-Allocation, free_lem, free_loses}
use oskernel.Ulib.Heap.Disjoint.{Chained, Has}
use oskernel.Ulib.Text.{strtok, strstr, atoi}
use oskernel.Ulib.Text.Find.{Finds, strstr-Finds}
use oskernel.Ulib.Text.Tokens.{Tokens, strtok-Tokens}
use oskernel.Ulib.Print.{digits_before, buf_size, dprint_int, vdprintf, printf}
use oskernel.Ulib.Print.Digits.{atoi-dprint_int}
use oskernel.Ulib.Print.Room.{digits_fit}
use oskernel.Ulib.Print.Format.{vdprintf_ends}

abbrev two_blocks : Heap
two_blocks = record {
  blocks =
      record { addr = 100; size = 40; is_free = true }
      ∷ record { addr = 164; size = 16; is_free = false }
      ∷ [];
  brk = 204;
}

two_blocks-IsHeap : IsHeap two_blocks
unfolding IsHeap Chained
two_blocks-IsHeap = (omega arith, (omega arith, omega arith))

malloc-Allocation_example : Allocation true 24 two_blocks (malloc true 24 two_blocks)
malloc-Allocation_example = malloc-Allocation true 24 two_blocks two_blocks-IsHeap (omega arith)

free_lem_example :
    IsHeap (free 188 two_blocks)
    × ((b : Block)
        → Has b two_blocks.blocks
        → b.is_free ≡ false
        → b.addr ≢ 188 - header
        → Has b (free 188 two_blocks).blocks)
free_lem_example = free_lem 188 two_blocks two_blocks-IsHeap

free_loses_example : (malloc true 70 (free 188 two_blocks)).0 ≡ some 228
free_loses_example = free_loses 100 40 16 70 (omega arith)

-- "a bc"
abbrev text : List ℕ
text = 97 ∷ 32 ∷ 98 ∷ 99 ∷ []

strtok-Tokens_example : Tokens text (32 ∷ []) (strtok (some text) (32 ∷ []) [])
strtok-Tokens_example = strtok-Tokens text (32 ∷ []) []

strstr-Finds_example : Finds text (98 ∷ []) (strstr text (98 ∷ []))
strstr-Finds_example = strstr-Finds text (98 ∷ [])

atoi-dprint_int_example : atoi (dprint_int 120 10 true) ≡ some 120
atoi-dprint_int_example = atoi-dprint_int 120 true (omega arith)

digits_fit_example :
    (length (digits_before buf_size 255 16 []) ≤ 20)
    × ((more : ℕ)
        → buf_size ≤ more
        → digits_before more 255 16 [] ≡ digits_before buf_size 255 16 [])
digits_fit_example = digits_fit 255 16 (omega arith) (inr refl)

-- "%d"
vdprintf_ends_example :
    vdprintf 9 (λ _. none) (λ _. 7) 0 (37 ∷ 100 ∷ []) ≡ printf (λ _. none) (λ _. 7) (37 ∷ 100 ∷ [])
vdprintf_ends_example = vdprintf_ends (λ _. none) (λ _. 7) 9 (37 ∷ 100 ∷ []) (omega arith)
