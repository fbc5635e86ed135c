-- ===== src/Inode/Blocks.antt =====
-- `balloc` takes the first free block, and `bfree` gives it back.
use oskernel.Prelude.{
  ◌==◌, if◌then◌else◌, ℕ, ◌+◌, ◌-◌, ◌*◌, ◌/◌, ◌%◌, ◌<◌, ◌≡◌, refl, sym, ap, ◌∙◌, ◌≢◌, Bool, true,
  false, arith, ℕ_discrete,
}
use oskernel.Param.{block_size}
use oskernel.Inode.{Volume, set_bit, bzero, balloc, bfree}
use oskernel.Inode.Bitmap.{taken, none_free, free_at, scan_bytes-FirstFree}

pub set_bit-taken :
    (bits : ℕ → ℕ → Bool) (byte shift k j : ℕ) (b : Bool)
    → shift < 8
    → k ≡ byte * 8 + shift
    → set_bit bits byte shift b (j / 8) (j % 8) ≡ (if k == j then b else bits (j / 8) (j % 8))
set_bit-taken bits byte shift k j b h e = elim (ℕ_discrete k j) [
  | yes q ↦
      let d : byte ≡ j / 8 = omega arith in
      let r : shift ≡ j % 8 = omega arith in rw (d, r) (ground arith)
  | no q ↦ elim (ℕ_discrete byte (j / 8)) [
    | no n ↦ ground arith
    | yes d ↦ let r : shift ≢ j % 8 = λ z. omega arith in rw d (ground arith)
  ]
]

-- The number of blocks that the bitmap covers.
abbrev pub n_blocks : ℕ
n_blocks = block_size * 8

-- Block `b` and its two views in `v'` are those in `v`.
abbrev pub SameBlock : Volume → Volume → ℕ → Type 0
SameBlock v v' b = (v'.word b ≡ v.word b) × (v'.byte b ≡ v.byte b)

-- `balloc` fails, with result 0, only when all blocks are taken; otherwise it takes the first free
-- one, zeroes it, and changes nothing else.
pub data Allocates (v : Volume) (r : ℕ × Volume) : Type 0 where
  exhausted : r ≡ (0, v) → ((k : ℕ) → k < n_blocks → taken v k ≡ true) → Allocates v r
  allocated :
      (k : ℕ)
      → k < n_blocks
      → taken v k ≡ false
      → ((j : ℕ) → j < k → taken v j ≡ true)
      → r.0 ≡ k + v.data_start
      → ((j : ℕ) → taken r.1 j ≡ (if k == j then true else taken v j))
      → r.1.data_start ≡ v.data_start
      → (r.1.word r.0 ≡ (λ _. 0)) × (r.1.byte r.0 ≡ (λ _. 0))
      → ((b : ℕ) → b ≢ r.0 → SameBlock v r.1 b)
      → Allocates v r

-- `balloc` takes the first free block, zeroes it and changes no other, or, when all blocks are taken,
-- returns 0 and changes nothing.
pub balloc-Allocates : (v : Volume) → Allocates v (balloc v)
unfolding balloc bzero
balloc-Allocates v = elim (scan_bytes-FirstFree v.bits block_size 0 block_size (omega arith)) [
  | none_free e all ↦ rw (e, balloc) (exhausted refl (λ k lt. all k (omega arith) (omega arith)))
  | free_at byte shift e lb ls c all ↦
      let k = byte * 8 + shift in
      let q : k / 8 ≡ byte = omega arith in
      let r : k % 8 ≡ shift = omega arith in
      rw (e, balloc)
        (allocated k (omega arith) (ap (λ x. v.bits x (k % 8)) q ∙ ap (v.bits byte) r ∙ c)
          (λ j lt. all j (omega arith) lt) refl
          (λ j. set_bit-taken v.bits byte shift k j true ls refl) refl (ground arith, ground arith)
          (λ b ne. (ground arith, ground arith)))
]

-- `bfree` makes its block free, leaves all others as they are, and touches no contents.
pub bfree-taken :
    (v : Volume) (k j : ℕ)
    → taken (bfree v (k + v.data_start)) j ≡ (if k == j then false else taken v j)
unfolding bfree
bfree-taken v k j =
    let e : k + v.data_start - v.data_start ≡ k = omega arith in
    rw e (set_bit-taken v.bits (k / 8) (k % 8) k j false (omega arith) (omega arith))

-- What `balloc` takes was free, and freeing it gives back the bitmap as it was; another `balloc` right
-- after gets another block.
pub bfree-balloc :
    (v : Volume)
    → (balloc v).0 ≢ 0
    → let (b, v') = balloc v in ((j : ℕ) → taken (bfree v' b) j ≡ taken v j) × ((balloc v').0 ≢ b)
bfree-balloc v some_block = elim (balloc-Allocates v) [
  | exhausted e all ↦ absurd (some_block (ap (λ (r : ℕ × Volume). r.0) e))
  | allocated k lt free before e bits start wiped rest ↦
      let e' : (balloc v).0 ≡ k + (balloc v).1.data_start = ground (arith, e, start) in
      (
        (λ j.
            rw e' (
              bfree-taken (balloc v).1 k j ∙ ground (arith, bits j, ap (taken v) {x = k} {y = j}))),
        λ same. elim (balloc-Allocates (balloc v).1) [
          | exhausted f all ↦ some_block (sym same ∙ ap (λ (r : ℕ × Volume). r.0) f)
          | allocated m lt' free' before' f bits' start' wiped' rest' ↦
              let q : m ≡ k = omega (arith, same, e, f, start) in ground (arith, bits m, free', q)
        ],
      )
]
