-- ===== src/Ulib/Heap/Disjoint.antt =====
-- The blocks of the heap are apart, and `malloc` gives memory that nobody uses.
-- The blocks lie one behind the other from `lo` up to `hi`.
use oskernel.Prelude.{
  leb, ◌==◌, Bool-cases, ℕ, ◌+◌, ◌≤◌, ◌≡◌, refl, ap, ◌⊎◌, inl, inr, false, ◌&&◌, Option, none, some,
  List, [], ◌∷◌, ◌++◌, arith,
}
use oskernel.Ulib.Heap.{header, Block, take_first, release, merge}

unfoldable pub Chained : List Block → ℕ → ℕ → Type 0
Chained [] lo hi = lo ≤ hi
Chained (b ∷ bs) lo hi = (lo ≤ b.addr) × Chained bs (b.addr + header + b.size) hi

Chained-low : (bs : List Block) (lo lo' hi : ℕ) → lo' ≤ lo → Chained bs lo hi → Chained bs lo' hi
unfolding Chained
Chained-low [] lo lo' hi le c = omega arith
Chained-low (b ∷ bs) lo lo' hi le c = (omega arith, c.1)

Chained-bounds : (bs : List Block) (lo hi : ℕ) → Chained bs lo hi → lo ≤ hi
unfolding Chained
Chained-bounds [] lo hi c = c
Chained-bounds (b ∷ bs) lo hi c =
    let le = Chained-bounds bs (b.addr + header + b.size) hi c.1 in omega (arith, le)

pub Chained-append :
    (bs : List Block) (lo hi size : ℕ) (b : Block)
    → b.addr ≡ hi
    → Chained bs lo hi
    → Chained (bs ++ (b ∷ [])) lo (hi + (header + b.size))
unfolding Chained
Chained-append [] lo hi size b e c = (omega arith, omega arith)
Chained-append (x ∷ bs) lo hi size b e c =
    (c.0, Chained-append bs (x.addr + header + x.size) hi size b e c.1)

pub Chained-release :
    (bs : List Block) (lo hi addr : ℕ) → Chained bs lo hi → Chained (release bs addr) lo hi
unfolding Chained release
Chained-release [] lo hi addr c = c
Chained-release (b ∷ bs) lo hi addr c = elim (Bool-cases (b.addr == addr)) [
  | inl here ↦ rw (here, release) c
  | inr other ↦ rw (other, release) (c.0, Chained-release bs (b.addr + header + b.size) hi addr c.1)
]

pub Chained-merge : (bs : List Block) (lo hi : ℕ) → Chained bs lo hi → Chained (merge bs) lo hi
unfolding Chained merge
Chained-merge [] lo hi c = c
Chained-merge (b ∷ []) lo hi c = c
Chained-merge (b ∷ x ∷ bs) lo hi c = elim (Bool-cases (b.is_free && x.is_free)) [
  | inl both ↦
      rw (both, merge)
        (
          c.0,
          Chained-low (merge bs) (x.addr + header + x.size) (b.addr + header + (b.size + header)) hi
              (omega (arith, c.1.0)) (Chained-merge bs (x.addr + header + x.size) hi c.1.1),
        )
  | inr other ↦ rw (other, merge) (c.0, Chained-merge (x ∷ bs) (b.addr + header + b.size) hi c.1)
]

-- A block of the list.
unfoldable pub Has : Block → List Block → Type 0
Has b [] = ⊥
Has b (x ∷ bs) = (b ≡ x) ⊎ Has b bs

abbrev pub Apart : Block → Block → Type 0
Apart b c = (b.addr + header + b.size ≤ c.addr) ⊎ (c.addr + header + c.size ≤ b.addr)

pub Has-bounds :
    (b : Block) (bs : List Block) (lo hi : ℕ)
    → Has b bs
    → Chained bs lo hi
    → (lo ≤ b.addr) × (b.addr + header + b.size ≤ hi)
unfolding Has Chained
Has-bounds b [] lo hi h c = absurd h
Has-bounds b (x ∷ bs) lo hi (inl e) c =
    let le = Chained-bounds bs (x.addr + header + x.size) hi c.1 in rw e (c.0, le)
Has-bounds b (x ∷ bs) lo hi (inr h) c =
    let (low, high) = Has-bounds b bs (x.addr + header + x.size) hi h c.1 in
    (omega (arith, c.0, low), high)

-- What `malloc` promises: the block `c` at `p` has the size asked for and is in use, and those
-- in use before stay as they are, apart from it.
pub record Grants (bs bs' : List Block) (p size : ℕ) : Type 0 where
  pub block : Block
  pub at : block.addr + header ≡ p
  pub large : size ≤ block.size
  pub taken : block.is_free ≡ false
  pub has : Has block bs'
  pub keeps : (b : Block) → Has b bs → b.is_free ≡ false → Has b bs'
  pub apart : (b : Block) → Has b bs → b.is_free ≡ false → Apart b block

pub data Takes (bs : List Block) (size lo hi : ℕ) (r : Option (ℕ × List Block)) : Type 0 where
  nothing : r ≡ none → Takes bs size lo hi r
  takes :
      (p : ℕ) (bs' : List Block)
      → r ≡ some (p, bs')
      → Chained bs' lo hi
      → Grants bs bs' p size
      → Takes bs size lo hi r

-- Behind a block `x`.
Grants-behind :
    (x : Block) (bs bs' : List Block) (p size hi : ℕ)
    → Chained bs' (x.addr + header + x.size) hi
    → Grants bs bs' p size
    → Grants (x ∷ bs) (x ∷ bs') p size
unfolding Has
Grants-behind x bs bs' p size hi c g = record {
  block = g.block;
  at = g.at;
  large = g.large;
  taken = g.taken;
  has = inr g.has;
  keeps = λ b h used. elim h [ inl e ↦ inl e | inr h' ↦ inr (g.keeps b h' used) ];
  apart = λ b h used. elim h [
    | inl e ↦ rw e (inl (Has-bounds g.block bs' (x.addr + header + x.size) hi g.has c).0)
    | inr h' ↦ g.apart b h' used
  ];
}

pub take_first-Takes :
    (bs : List Block) (size lo hi : ℕ) → Chained bs lo hi → Takes bs size lo hi (take_first bs size)
unfolding Chained take_first Has
take_first-Takes [] size lo hi c = nothing refl
take_first-Takes (x ∷ bs) size lo hi c = elim (Bool-cases (x.is_free && leb size x.size)) [
  | inl here ↦
      let x' : Block = record x { is_free = false } in
      rw (here, take_first)
        (takes (x.addr + header) (x' ∷ bs) refl c (record {
          block = x';
          at = refl;
          large = ground (arith, here);
          taken = refl;
          has = inl refl;
          keeps = λ b h used. elim h [
            | inl e ↦ absurd (ground (arith, used, here, ap (λ (y : Block). y.is_free) e))
            | inr h' ↦ inr h'
          ];
          apart = λ b h used. elim h [
            | inl e ↦ absurd (ground (arith, used, here, ap (λ (y : Block). y.is_free) e))
            | inr h' ↦ inr (Has-bounds b bs (x.addr + header + x.size) hi h' c.1).0
          ];
        }))
  | inr other ↦
      rw (other, take_first)
        (elim (take_first-Takes bs size (x.addr + header + x.size) hi c.1) [
          | nothing e ↦ rw e (nothing refl)
          | takes p bs' e c' g ↦
              rw e (takes p (x ∷ bs') refl (c.0, c') (Grants-behind x bs bs' p size hi c' g))
        ])
]
