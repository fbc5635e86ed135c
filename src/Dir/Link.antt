-- ===== src/Dir/Link.antt =====
-- `dir_link`: where a new entry goes.
use mathlib.Core.Path.{ap₂}
use oskernel.Prelude.{
  ltb, ◌==◌, if◌then◌else◌, Bool-cases, update_self, length, ok, ℕ, zero, suc, ◌+◌, ◌-◌, ◌*◌, ◌/◌,
  ◌%◌, ◌≤◌, ◌<◌, ◌≡◌, refl, sym, ap, ◌∙◌, fun_ext, ◌≢◌, inl, inr, true, false, not, ◌&&◌, List, [],
  ◌∷◌, arith, ℕ_discrete,
}
use oskernel.Dir.{
  dir_size, entry_size, DirEntry, nth, decode, encode, with_file, read_entry, matches, slot_from,
  string_of, copied_name, write_entry, dir_link,
}
use oskernel.Dir.Entries.{IsDir, entry_at, read_entry_lem, missing, first, dir_lookup-Looks}
use oskernel.Inode.Table.{Entry, Table, iupdate}
use oskernel.Inode.Read.{slice}
use oskernel.Inode.{Volume, Inode}
use oskernel.Inode.Write.Content.{block_of, writei_lem}
use oskernel.Inode.Read.Content.{slice-ext, content}
use oskernel.Inode.Write.Again.{written}

slot_from-suc :
    (fuel : ℕ) (t : Table) (d off : ℕ) (de : DirEntry)
    → off < (t.entry d).node.map.size
    → read_entry t d off ≡ ok (de, t)
    → (t.entry d).ino ≢ 0
    → slot_from (suc fuel) t d off ≡ slot_from fuel t d (off + entry_size)
unfolding slot_from
slot_from-suc fuel t d off de within read live =
    let more : ltb off (t.entry d).node.map.size ≡ true = ground arith in
    let on : ((t.entry d).ino == 0) ≡ false = ground arith in
    let step : slot_from (suc fuel) t d off ≡ elim ((t.entry d).ino == 0) [
      | true ↦ ok (off, t)
      | false ↦ slot_from fuel t d (off + entry_size)
    ] =
      rw (more, slot_from) (rw read refl) in
    step ∙ rw on refl

-- The loop passes every entry, whatever its number is.
slot_from_lem :
    (fuel : ℕ) (t : Table) (d count k n : ℕ)
    → IsDir t d count
    → (t.entry d).ino ≢ 0
    → (t.entry d).node.map.size ≡ n * entry_size
    → k ≤ n
    → n < k + fuel
    → slot_from fuel t d (k * entry_size) ≡ ok (n * entry_size, t)
unfolding slot_from
slot_from_lem zero t d count k n dir live e le lt = absurd (omega arith)
slot_from_lem (suc fuel) t d count k n dir live e le lt = elim (ℕ_discrete k n) [
  | yes last ↦
      let past : ltb (k * entry_size) (t.entry d).node.map.size ≡ false = ground arith in
      rw (past, slot_from) (ap (λ o. ok (o, t)) (omega arith))
  | no more ↦
      slot_from-suc fuel t d (k * entry_size) (entry_at t d k) (omega arith)
        (read_entry_lem t d count k dir (omega arith)) live
      ∙ ap (slot_from fuel t d) (omega arith)
      ∙ slot_from_lem fuel t d count (k + 1) n dir live e (omega arith) (omega arith)
]

nth-slice : (f : ℕ → ℕ) (i len k : ℕ) → nth (slice f i len) k ≡ (if ltb k len then f (i + k) else 0)
unfolding slice
nth-slice f i zero k = ground arith
nth-slice f i (suc len) zero = ground (arith, ap f {x = i} {y = i + 0} (omega arith))
nth-slice f i (suc len) (suc k) =
    nth-slice f (i + 1) len k ∙ ground (arith, ap f {x = i + 1 + k} {y = i + suc k} (omega arith))

named-ends :
    (de : DirEntry) (i : ℕ)
    → (dir_size ≤ i → de.name i ≡ 0)
    → (if ltb (i + 2) entry_size then encode de (0 + (i + 2)) else 0) ≡ de.name i
unfolding encode
named-ends de i ends =
    let e : encode de (0 + (i + 2)) ≡ de.name i =
      ap (encode de) {x = 0 + (i + 2)} {y = suc (suc i)} (omega arith) in
    elim (Bool-cases (ltb (i + 2) entry_size)) [
      | inl within ↦ rw within e
      | inr past ↦ rw past (sym (ends ground (arith, past)))
    ]

-- An entry with a 16-bit number and a name that ends in NULs.
decode-encode :
    (de : DirEntry)
    → de.ino < 65536
    → ((i : ℕ) → dir_size ≤ i → de.name i ≡ 0)
    → decode (slice (encode de) 0 entry_size) ≡ de
unfolding decode encode
decode-encode de small ends =
    let make : ℕ → (ℕ → ℕ) → DirEntry = λ n f. record { ino = n; name = f } in
    let number : nth (slice (encode de) 0 entry_size) 0
          + nth (slice (encode de) 0 entry_size) 1 * 256
        ≡ de.ino =
      ap₂ (λ a b. a + b * 256) (nth-slice (encode de) 0 entry_size 0)
        (nth-slice (encode de) 0 entry_size 1)
      ∙ omega arith in
    let name : (λ i. nth (slice (encode de) 0 entry_size) (i + 2)) ≡ de.name =
      fun_ext (λ i. nth-slice (encode de) 0 entry_size (i + 2) ∙ named-ends de i (ends i)) in
    ap₂ make number name

nth-past : (xs : List ℕ) (i : ℕ) → length xs ≤ i → nth xs i ≡ 0
nth-past [] i le = refl
nth-past (x ∷ xs) zero le = absurd (omega arith)
nth-past (x ∷ xs) (suc i) le = nth-past xs i (omega arith)

length-string_of : (n : ℕ) (f : ℕ → ℕ) (i : ℕ) → length (string_of n f i) ≤ n
unfolding string_of
length-string_of zero f i = omega arith
length-string_of (suc n) f i = elim (Bool-cases (f i == 0)) [
  | inl ends ↦ rw (ends, string_of) (omega arith)
  | inr more ↦ rw (more, string_of) (omega (arith, length-string_of n f (i + 1)))
]

copied_name-ends : (name : ℕ → ℕ) (i : ℕ) → dir_size ≤ i → copied_name name i ≡ 0
unfolding copied_name
copied_name-ends name i le =
    nth-past (string_of dir_size name 0) i (omega (arith, length-string_of dir_size name 0))

before :
    (off n i : ℕ) (src f : ℕ → ℕ)
    → i < off
    → (if not (ltb i off) && ltb i (off + n) then src (i - off) else f i) ≡ f i
before off n i src f lt = let e : ltb i off ≡ true = ground arith in rw e refl

write_entry_lem :
    (t : Table) (d count n : ℕ) (de : DirEntry)
    → IsDir t d count
    → (t.entry d).node.map.size ≡ n * entry_size
    → n * entry_size + entry_size ≤ count
    → de.ino < 65536
    → ((i : ℕ) → dir_size ≤ i → de.name i ≡ 0)
    → (t' : Table) × (write_entry t d (n * entry_size) de ≡ ok (true, t'))
      × ((t'.entry d).node.map.size ≡ (n + 1) * entry_size)
      × (entry_at t' d n ≡ de)
      × ((j : ℕ) → j < n → entry_at t' d j ≡ entry_at t d j)
unfolding write_entry entry_at iupdate
write_entry_lem t d count n de dir e fits small ends =
    let map = (t.entry d).node.map in
    let off = n * entry_size in
    let (b, run, same) =
      writei_lem (encode de) (λ _ len. len) off entry_size count t.volume map dir.laid (omega arith)
        fits (λ i len. refl) in
    let v' : Volume = record (t.volume) { byte = b } in
    let map' : Inode = record map { size = off + entry_size } in
    let longer : ltb map.size (off + entry_size) ≡ true = ground arith in
    let t' = iupdate (with_file t d v' map') d in
    let written_d : Entry = record (t.entry d) {
      node = record ((t.entry d).node) { map = map' };
    } in
    let at_d : t'.entry d ≡ written_d = update_self t.entry d written_d in
    (
      t',
      rw run (rw longer refl),
      ap (λ (x : Entry). x.node.map.size) at_d ∙ omega arith,
      ap (λ (x : Entry). decode (slice (content v' (block_of v' x.node.map)) off entry_size)) at_d
          ∙ ap decode (
              slice-ext (content v' (block_of v' map')) (encode de) entry_size off 0 (λ k lt.
                same (off + k) (omega arith)
                ∙ written off entry_size k (encode de)
                    (content t.volume (block_of t.volume map) (off + k)) lt))
          ∙ decode-encode de small ends,
      λ j lt.
          (ap
              (λ (x : Entry).
                decode (slice (content v' (block_of v' x.node.map)) (j * entry_size) entry_size))
              at_d
            ∙ ap decode (
                slice-ext (content v' (block_of v' map')) (content t.volume (block_of t.volume map))
                  entry_size (j * entry_size) (j * entry_size)
                  (λ k lt'.
                    same (j * entry_size + k) (omega arith)
                    ∙ before off entry_size (j * entry_size + k) (encode de)
                        (content t.volume (block_of t.volume map)) (omega arith)))),
    )

-- Linking a name that no entry of a directory has, when the directory has a block for one more entry:
-- `dir_link` succeeds and the new entry, with the number and the name, stands behind the last one,
-- also when an entry before it is free; the entries before it stay.
pub dir_link_appends :
    (t : Table) (d count n : ℕ) (name : ℕ → ℕ) (ino : ℕ)
    → IsDir t d count
    → (t.entry d).ino ≢ 0
    → (t.entry d).node.map.size ≡ n * entry_size
    → n * entry_size + entry_size ≤ count
    → ino < 65536
    → ((j : ℕ) → j < n → matches (entry_at t d j) name ≡ false)
    → (t' : Table) × (dir_link t d name ino ≡ ok (true, t'))
      × ((t'.entry d).node.map.size ≡ (n + 1) * entry_size)
      × (entry_at t' d n ≡ record { ino = ino; name = copied_name name })
      × ((j : ℕ) → j < n → entry_at t' d j ≡ entry_at t d j)
unfolding dir_link
dir_link_appends t d count n name ino dir live e fits small new =
    let de : DirEntry = record { ino = ino; name = copied_name name } in
    let rounds = (t.entry d).node.map.size / entry_size + 1 in
    let enough : n < 0 + rounds = omega arith in
    let slot : slot_from rounds t d 0 ≡ ok (n * entry_size, t) =
      slot_from_lem rounds t d count 0 n dir live e (omega arith) enough in
    let wrap : ino % 65536 ≡ ino = omega arith in
    let (t', write, size, added, others) =
      write_entry_lem t d count n de dir e fits small (copied_name-ends name) in
    (
      t',
      elim (dir_lookup-Looks t d count n name dir e) [
        | missing r _ ↦ rw (r, dir_link) (rw slot (rw wrap write))
        | first j lt here _ _ ↦ absurd (ground (arith, here, new j lt))
      ],
      size,
      added,
      others,
    )
