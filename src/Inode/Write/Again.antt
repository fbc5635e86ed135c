-- ===== src/Inode/Write/Again.antt =====
-- Reading back what `writei` has written.
-- Blocks that are never 0, as `readi` asks for: those of the file, and 1 where it has none.
use oskernel.Prelude.{
  ltb, ◌==◌, if◌then◌else◌, Bool-cases, ok, ℕ, ◌+◌, ◌-◌, ◌/◌, ◌^◌, ◌≤◌, ◌<◌, ◌≡◌, refl, ap, ◌∙◌,
  ◌≢◌, inl, inr, Bool, true, false, not, ◌&&◌, some, List, arith,
}
use oskernel.Param.{block_size}
use oskernel.Inode.{Volume, Inode, bmap}
use oskernel.Inode.Write.{writei}
use oskernel.Inode.Write.Content.{block_of, bmap-block_of, IsLaidOut, writei_lem}
use oskernel.Inode.Read.{slice, Transfer, readi}
use oskernel.Inode.Read.Content.{slice-ext, content, readi_lem}

abbrev nonzero : (ℕ → ℕ) → ℕ → ℕ
nonzero f k = if f k == 0 then 1 else f k

nonzero-content :
    (v : Volume) (f : ℕ → ℕ) (i : ℕ)
    → f (i / block_size) ≢ 0
    → content v (nonzero f) i ≡ content v f i
nonzero-content v f i h =
    let e : (f (i / block_size) == 0) ≡ false = ground (arith, h) in rw (e, content, nonzero) refl

grown :
    (inode : Inode) (n : ℕ)
    → (if ltb inode.size n then record inode { size = n } else inode)
      ≡ record inode { size = if ltb inode.size n then n else inode.size }
grown inode n = elim (Bool-cases (ltb inode.size n)) [
  | inl past ↦ rw past refl
  | inr within ↦ rw within refl
]

pub written :
    (off n k : ℕ) (src : ℕ → ℕ) (other : ℕ)
    → k < n
    → (if not (ltb (off + k) off) && ltb (off + k) (off + n) then src (off + k - off) else other)
      ≡ src (0 + k)
written off n k src other lt = ground (arith, ap src {x = off + k - off} {y = 0 + k} (omega arith))

-- `readi` of bytes that a file has.
pub readi_laid :
    (copies : ℕ → Bool) (off n count : ℕ) (v : Volume) (inode : Inode)
    → IsLaidOut v inode count
    → off + n ≤ inode.size
    → inode.size ≤ count
    → count < 2 ^ 64
    → ((i : ℕ) → copies i ≡ true)
    → readi copies off n v inode
      ≡ ok (
          some (
            n,
            record {
              left = 0;
              bytes = slice (content v (block_of v inode)) off n;
              volume = v;
              inode = inode;
            },
          ))
readi_laid copies off n count v inode laid inside sized small fine =
    let addr = nonzero (block_of v inode) in
    let whole : ltb inode.size (off + n) ≡ false = ground arith in
    let mapped : (i : ℕ)
        → i < inode.size
        → bmap v inode (i / block_size) ≡ ok (addr (i / block_size), v, inode) =
      λ i lt.
        (bmap-block_of v inode (i / block_size) (laid.mapped i (omega arith))
          ∙ ap (λ a. ok (a, v, inode)) ground (arith, laid.mapped i)) in
    let transfer : List ℕ → Transfer =
      λ l. record { left = 0; bytes = l; volume = v; inode = inode } in
    let counted : (if ltb inode.size (off + n) then inode.size - off else n) ≡ n = rw whole refl in
    let bytes : slice (content v addr) off n ≡ slice (content v (block_of v inode)) off n =
      slice-ext (content v addr) (content v (block_of v inode)) n off off (λ k lt.
        nonzero-content v (block_of v inode) (off + k) (laid.mapped (off + k) (omega arith))) in
    let read =
      readi_lem copies v inode addr off n (omega arith) (omega arith) mapped (λ k. ground arith)
        fine in
    read
    ∙ ap (λ c. ok (some (c, transfer (slice (content v addr) off c)))) counted
    ∙ ap (λ l. ok (some (n, transfer l))) bytes

-- Reading `n` bytes back from where `writei` put them, over blocks that the file has and when no copy
-- from or to the caller fails: `readi` returns the `n` bytes of the source, in order.
pub readi-writei :
    (src : ℕ → ℕ) (reach : ℕ → ℕ → ℕ) (copies : ℕ → Bool) (off n count : ℕ) (v : Volume)
    (inode : Inode)
    → IsLaidOut v inode count
    → off ≤ inode.size
    → inode.size ≤ count
    → off + n ≤ count
    → count < 2 ^ 64
    → ((i len : ℕ) → reach i len ≡ len)
    → ((i : ℕ) → copies i ≡ true)
    → (v' : Volume) × (inode' : Inode) × (writei src reach off n v inode
        ≡ ok (some (n, v', inode')))
      × (readi copies off n v' inode'
          ≡ ok (some (n, record { left = 0; bytes = slice src 0 n; volume = v'; inode = inode' })))
readi-writei src reach copies off n count v inode laid inside sized fits small all fine =
    let (b, run, same) = writei_lem src reach off n count v inode laid inside fits all in
    let v' : Volume = record v { byte = b } in
    let size = if ltb inode.size (off + n) then off + n else inode.size in
    let inode' : Inode = record inode { size = size } in
    let laid' : IsLaidOut v' inode' count = record { mapped = laid.mapped; apart = laid.apart } in
    let transfer : List ℕ → Transfer =
      λ l. record { left = 0; bytes = l; volume = v'; inode = inode' } in
    let bytes : slice (content v' (block_of v inode)) off n ≡ slice src 0 n =
      slice-ext (content v' (block_of v inode)) src n off 0 (λ k lt.
        same (off + k) (omega arith)
        ∙ written off n k src (content v (block_of v inode) (off + k)) lt) in
    (
      v',
      inode',
      run ∙ ap (λ (x : Inode). ok (some (n, v', x))) (grown inode (off + n)),
      readi_laid copies off n count v' inode' laid' (ground arith) (ground arith) small fine
          ∙ ap (λ l. ok (some (n, transfer l))) bytes,
    )
