-- ===== src/Inode/Read/Content.antt =====
-- A file as one array of bytes, and what `readi` returns of it.
use native.Mathlib.Nat.{add-zero}
use mathlib.Core.Path.{ap₂}
use oskernel.Prelude.{
  ltb, ◌==◌, if◌then◌else◌, Bool-cases, ok, ℕ, zero, suc, ◌+◌, ◌-◌, ◌/◌, ◌%◌, ◌^◌, ◌≤◌, ◌<◌, ◌≡◌,
  refl, ap, ◌∙◌, ◌≢◌, inl, inr, Bool, true, false, some, ◌∷◌, ◌++◌, arith, ℕ_discrete,
}
use oskernel.Inode.Read.{slice, chunk, read_loop, readi}
use oskernel.Inode.{Volume, Inode, bmap}
use oskernel.Param.{block_size}

pub slice-ext :
    (f g : ℕ → ℕ) (len i j : ℕ)
    → ((k : ℕ) → k < len → f (i + k) ≡ g (j + k))
    → slice f i len ≡ slice g j len
unfolding slice
slice-ext f g zero i j h = refl
slice-ext f g (suc len) i j h =
    let head : f i ≡ g j =
      ground (arith, h 0 (omega arith), ap f (add-zero i), ap g (add-zero j)) in
    let tail =
      slice-ext f g len (i + 1) (j + 1)
        (λ k lt. ap f (omega arith) ∙ h (suc k) (omega arith) ∙ ap g (omega arith)) in
    ap₂ ◌∷◌ head tail

pub slice-append : (f : ℕ → ℕ) (a b i : ℕ) → slice f i a ++ slice f (i + a) b ≡ slice f i (a + b)
unfolding slice
slice-append f zero b i = ap₂ (slice f) (add-zero i) (omega arith)
slice-append f (suc a) b i =
    let e : suc a + b ≡ suc (a + b) = omega arith in
    let shift : i + suc a ≡ i + 1 + a = omega arith in
    rw (e, shift) (ap (λ l. f i ∷ l) (slice-append f a b (i + 1)))

-- The bytes of a file, each found in its block: those that the block map `addr` gives.
abbrev pub content : Volume → (ℕ → ℕ) → ℕ → ℕ
content v addr i = v.byte (addr (i / block_size)) (i % block_size)

pub chunk-bounds :
    (off n : ℕ)
    → n ≢ 0
    → (off % block_size + chunk off n ≤ block_size) × (chunk off n ≤ n) × (0 < chunk off n)
chunk-bounds off n more = elim (Bool-cases (ltb n (block_size - off % block_size))) [
  | inl small ↦ rw small (ground arith, ground arith, ground arith)
  | inr large ↦ rw large (ground arith, ground arith, ground arith)
]

content-at :
    (v : Volume) (addr : ℕ → ℕ) (off k : ℕ)
    → off % block_size + k < block_size
    → v.byte (addr (off / block_size)) (off % block_size + k) ≡ content v addr (off + k)
content-at v addr off k h =
    let q : off / block_size ≡ (off + k) / block_size = omega arith in
    let r : off % block_size + k ≡ (off + k) % block_size = omega arith in rw (q, r) refl

-- `readi` of a file whose blocks up to `off + n` are mapped.
loop-reads :
    (copies : ℕ → Bool) (v : Volume) (inode : Inode) (addr : ℕ → ℕ) (fuel off n : ℕ)
    → ((i : ℕ) → i < off + n → bmap v inode (i / block_size) ≡ ok (addr (i / block_size), v, inode))
    → ((i : ℕ) → addr i ≢ 0)
    → ((i : ℕ) → copies i ≡ true)
    → n ≤ fuel
    → read_loop copies fuel off n v inode
      ≡ ok (record { left = 0; bytes = slice (content v addr) off n; volume = v; inode = inode })
unfolding read_loop slice
loop-reads copies v inode addr zero off n mapped set fine h =
    let e : n ≡ 0 = omega arith in rw (read_loop, e) refl
loop-reads copies v inode addr (suc fuel) off n mapped set fine h = elim (ℕ_discrete n 0) [
  | yes e ↦ rw (e, read_loop) (rw e refl)
  | no more ↦
      let a = addr (off / block_size) in
      let len = chunk off n in
      let (start, len_le, some_bytes) = chunk-bounds off n more in
      let rest : read_loop copies fuel (off + len) (n - len) v inode
          ≡ ok (record {
            left = 0;
            bytes = slice (content v addr) (off + len) (n - len);
            volume = v;
            inode = inode;
          }) =
        loop-reads copies v inode addr fuel (off + len) (n - len) (λ i lt. mapped i (omega arith))
          set fine (omega arith) in
      let here : slice (v.byte a) (off % block_size) len ≡ slice (content v addr) off len =
        slice-ext (v.byte a) (content v addr) len (off % block_size) off
          (λ k lt. content-at v addr off k (omega arith)) in
      let split : slice (content v addr) off len ++ slice (content v addr) (off + len) (n - len)
          ≡ slice (content v addr) off n =
        slice-append (content v addr) len (n - len) off
        ∙ ap (slice (content v addr) off) (omega arith) in
      let ne : (n == 0) ≡ false = ground arith in
      let set' : (addr (off / block_size) == 0) ≡ false = ground (arith, set (off / block_size)) in
      rw (ne, read_loop)
        (ground (
          arith,
          mapped off (omega arith),
          set',
          fine off,
          rest,
          ap (λ l. l ++ slice (content v addr) (off + len) (n - len)) here ∙ split,
        ))
]

-- Reading `n` bytes at an offset within a file, all of whose blocks are mapped, when no copy to the
-- caller fails: `readi` returns the bytes of the file from `off` on, `n` or those up to the end of the
-- file, says how many they are, and changes neither the volume nor the i-node; it never panics.
pub readi_lem :
    (copies : ℕ → Bool) (v : Volume) (inode : Inode) (addr : ℕ → ℕ) (off n : ℕ)
    → off ≤ inode.size
    → off + n < 2 ^ 64
    → ((i : ℕ)
        → i < inode.size
        → bmap v inode (i / block_size) ≡ ok (addr (i / block_size), v, inode))
    → ((i : ℕ) → addr i ≢ 0)
    → ((i : ℕ) → copies i ≡ true)
    → let count = if ltb inode.size (off + n) then inode.size - off else n in
      let bytes = slice (content v addr) off count in
      readi copies off n v inode
      ≡ ok (some (count, record { left = 0; bytes = bytes; volume = v; inode = inode }))
unfolding readi
readi_lem copies v inode addr off n inside small mapped set fine =
    let wrap : (off + n) % 2 ^ 64 ≡ off + n = omega arith in
    let within : ltb inode.size off ≡ false = ground arith in
    elim (Bool-cases (ltb inode.size (off + n))) [
      | inl past ↦ ground (
        arith,
        wrap,
        past,
        within,
        loop-reads copies v inode addr (inode.size - off) off (inode.size - off)
            (λ i lt. mapped i (omega arith)) set fine (omega arith),
      )
      | inr before ↦
          let le : off + n ≤ inode.size = ground arith in
          ground (
            arith,
            wrap,
            before,
            within,
            loop-reads copies v inode addr n off n (λ i lt. mapped i (omega arith)) set fine
                (omega arith),
          )
    ]
