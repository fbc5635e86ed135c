-- ===== src/Ulib/Heap/Promise.antt =====
-- What `malloc` and `free` promise to a program.
use oskernel.Prelude.{
  ◌==◌, Bool-cases, Option-cases, ℕ, ◌+◌, ◌-◌, ◌%◌, ◌^◌, ◌≤◌, ◌<◌, ◌≡◌, refl, ap, subst, ◌≢◌, ◌⊎◌,
  inl, inr, Bool, true, false, ◌&&◌, Option, none, some, List, [], ◌∷◌, ◌++◌, arith,
}
use oskernel.Ulib.Heap.{header, Block, Heap, take_first, malloc, release, merge, free}
use oskernel.Ulib.Heap.Disjoint.{
  Chained, Chained-append, Chained-release, Chained-merge, Has, Has-bounds, Grants, nothing, takes,
  take_first-Takes,
}

unfoldable pub IsHeap : Heap → Type 0
IsHeap h = Chained h.blocks 0 h.brk

pub data Allocation (grows : Bool) (size : ℕ) (h : Heap) (r : Option ℕ × Heap) : Type 0 where
  refuses : (size ≡ 0) ⊎ (grows ≡ false) → r ≡ (none, h) → Allocation grows size h r
  gives :
      (p : ℕ) (h' : Heap)
      → r ≡ (some p, h')
      → IsHeap h'
      → Grants h.blocks h'.blocks p size
      → Allocation grows size h r

Has-append : (b x : Block) (bs : List Block) → Has b bs → Has b (bs ++ (x ∷ []))
unfolding Has
Has-append b x [] h = absurd h
Has-append b x (y ∷ bs) (inl e) = inl e
Has-append b x (y ∷ bs) (inr h) = inr (Has-append b x bs h)

Has-last : (x : Block) (bs : List Block) → Has x (bs ++ (x ∷ []))
unfolding Has
Has-last x [] = inl refl
Has-last x (y ∷ bs) = inr (Has-last x bs)

-- When a new block would still end below 2 ^ 63: `malloc` returns NULL, and changes nothing, only for a
-- size of 0 or where `sbrk` fails. Otherwise it returns the memory of a block that is large enough and
-- is now in use; the blocks in use before stay, the new memory does not overlap theirs, and the heap's
-- blocks still lie apart.
pub malloc-Allocation :
    (grows : Bool) (size : ℕ) (h : Heap)
    → IsHeap h
    → h.brk + (header + size) < 2 ^ 63
    → Allocation grows size h (malloc grows size h)
unfolding malloc IsHeap
malloc-Allocation grows size h c fits = elim (Bool-cases (size == 0)) [
  | inl zero_size ↦
      refuses (inl ground (arith, zero_size)) (elim (Option-cases (take_first h.blocks size)) [
        | inl e ↦ rw (e, malloc) (rw zero_size refl)
        | inr (r, e) ↦ rw (e, malloc) (rw zero_size refl)
      ])
  | inr some_size ↦ elim (take_first-Takes h.blocks size 0 h.brk c) [
    | takes p bs' e c' g ↦
        rw (e, malloc) (rw some_size (gives p (record h { blocks = bs' }) refl c' g))
    | nothing e ↦ elim (Bool-cases grows) [
      | inl yes_grows ↦
          let b : Block = record { addr = h.brk; size = size; is_free = false } in
          let end = (h.brk + (header + size) % 2 ^ 64) % 2 ^ 64 in
          let exact : h.brk + (header + size) ≡ end = omega (arith, fits) in
          rw (e, malloc)
            (rw (some_size) (
              rw yes_grows (
                gives (h.brk + header) (record { blocks = h.blocks ++ (b ∷ []); brk = end }) refl
                  (subst (λ k. Chained (h.blocks ++ (b ∷ [])) 0 k) exact
                    (Chained-append h.blocks 0 h.brk size b refl c))
                  (record {
                    block = b;
                    at = refl;
                    large = omega arith;
                    taken = refl;
                    has = Has-last b h.blocks;
                    keeps = λ x hx used. Has-append x b h.blocks hx;
                    apart = λ x hx used. inl (Has-bounds x h.blocks 0 h.brk hx c).1;
                  }))))
      | inr no_grows ↦ rw (e, malloc) (rw some_size (rw no_grows (refuses (inr refl) refl)))
    ]
  ]
]

merge-Has : (b : Block) (bs : List Block) → Has b bs → b.is_free ≡ false → Has b (merge bs)
unfolding Has merge
merge-Has b [] h used = h
merge-Has b (x ∷ []) h used = h
merge-Has b (x ∷ y ∷ bs) h used = elim (Bool-cases (x.is_free && y.is_free)) [
  | inl both ↦
      rw (both, merge)
        (elim h [
          | inl e ↦ absurd (ground (arith, used, both, ap (λ (z : Block). z.is_free) e))
          | inr (inl e) ↦ absurd (ground (arith, used, both, ap (λ (z : Block). z.is_free) e))
          | inr (inr h') ↦ inr (merge-Has b bs h' used)
        ])
  | inr other ↦
      rw (other, merge) (elim h [ inl e ↦ inl e | inr h' ↦ inr (merge-Has b (y ∷ bs) h' used) ])
]

release-Has :
    (b : Block) (bs : List Block) (addr : ℕ) → Has b bs → b.addr ≢ addr → Has b (release bs addr)
unfolding Has release
release-Has b [] addr h ne = h
release-Has b (x ∷ bs) addr h ne = elim (Bool-cases (x.addr == addr)) [
  | inl here ↦
      rw (here, release)
        (elim h [
          | inl e ↦ absurd (ground (arith, ne, here, ap (λ (z : Block). z.addr) e))
          | inr h' ↦ inr h'
        ])
  | inr other ↦
      rw (other, release) (elim h [ inl e ↦ inl e | inr h' ↦ inr (release-Has b bs addr h' ne) ])
]

-- `free` keeps the blocks apart, and every block in use but the one freed.
pub free_lem :
    (p : ℕ) (h : Heap)
    → IsHeap h
    → IsHeap (free p h)
      × ((b : Block)
          → Has b h.blocks
          → b.is_free ≡ false
          → b.addr ≢ p - header
          → Has b (free p h).blocks)
unfolding free IsHeap
free_lem p h c = (
  Chained-merge (release h.blocks (p - header)) 0 h.brk
      (Chained-release h.blocks 0 h.brk (p - header) c),
  λ b hb used ne.
      merge-Has b (release h.blocks (p - header)) (release-Has b h.blocks (p - header) hb ne) used,
)

-- A size within 24 of 2 ^ 64 wraps: the caller gets the memory of a block that is recorded with that
-- size, and the heap has grown by less than its header, so the next block lies inside it.
pub malloc_wraps :
    (size : ℕ) (h : Heap)
    → take_first h.blocks size ≡ none
    → size < 2 ^ 64
    → 2 ^ 64 ≤ header + size
    → h.brk < 2 ^ 63
    → (h' : Heap) × (malloc true size h ≡ (some (h.brk + header), h')) × (h'.brk < h.brk + header)
unfolding malloc
malloc_wraps size h none_fits small wraps low =
    let b : Block = record { addr = h.brk; size = size; is_free = false } in
    let end = (h.brk + (header + size) % 2 ^ 64) % 2 ^ 64 in
    let positive : (size == 0) ≡ false = ground (arith, wraps) in
    (
      record { blocks = h.blocks ++ (b ∷ []); brk = end },
      rw (none_fits, malloc) (rw positive refl),
      omega (arith, small, wraps, low),
    )

-- When two blocks, one behind the other, are freed, the block that is left has lost the memory of the
-- second: a request that only both could serve makes the heap grow.
pub free_loses :
    (a m n size : ℕ)
    → m + header < size
    → let x : Block = record { addr = a; size = m; is_free = true } in
      let y : Block = record { addr = a + header + m; size = n; is_free = false } in
      let brk = a + header + m + header + n in
      let h = free (y.addr + header) (record { blocks = x ∷ y ∷ []; brk = brk }) in
      (malloc true size h).0 ≡ some (brk + header)
unfolding free malloc merge release take_first
free_loses a m n size lt = ground arith
