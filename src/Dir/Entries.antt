-- ===== src/Dir/Entries.antt =====
-- A directory as an array of entries, and what `dir_lookup` finds. The directory in table entry `d`
-- has its blocks, and room for `count` bytes; its size is whole entries.
use oskernel.Prelude.{
  ltb, ◌==◌, Bool-cases, update_self, update_ne, Run, ok, ◌>>=◌, ℕ, zero, suc, ◌+◌, ◌*◌, ◌/◌, ◌%◌,
  ◌^◌, ◌≤◌, ◌<◌, ◌≡◌, refl, ap, fun_ext, inl, inr, true, false, Option, none, some, arith,
  ℕ_discrete,
}
use oskernel.Dir.{
  entry_size, ft_dir, DirEntry, decode, with_file, read_entry, matches, lookup_from, dir_lookup,
}
use oskernel.Inode.Table.{Entry, Table, iget}
use oskernel.Inode.Read.{slice}
use oskernel.Inode.Read.Content.{content}
use oskernel.Inode.Write.Content.{block_of, IsLaidOut}
use oskernel.Inode.Write.Again.{readi_laid}

pub record IsDir (t : Table) (d count : ℕ) : Type 0 where
  pub type : (t.entry d).node.type ≡ ft_dir
  pub laid : IsLaidOut t.volume (t.entry d).node.map count
  pub sized : (t.entry d).node.map.size ≤ count
  pub whole : (t.entry d).node.map.size % entry_size ≡ 0
  pub small : count < 2 ^ 64

-- Entry `k` of the directory.
unfoldable pub entry_at : Table → ℕ → ℕ → DirEntry
entry_at t d k =
    let map = (t.entry d).node.map in
    decode (slice (content t.volume (block_of t.volume map)) (k * entry_size) entry_size)

with_file_same : (t : Table) (d : ℕ) → with_file t d t.volume (t.entry d).node.map ≡ t
with_file_same t d =
    ap (λ (e : ℕ → Entry). record t { entry = e })
      (fun_ext (λ i. elim (ℕ_discrete d i) [
        | yes e ↦ rw (← e) (update_self t.entry d (t.entry d))
        | no ne ↦ update_ne t.entry d (t.entry d) i ne
      ]))

pub read_entry_lem :
    (t : Table) (d count k : ℕ)
    → IsDir t d count
    → k * entry_size + entry_size ≤ (t.entry d).node.map.size
    → read_entry t d (k * entry_size) ≡ ok (entry_at t d k, t)
unfolding read_entry entry_at
read_entry_lem t d count k dir inside =
    let map = (t.entry d).node.map in
    let read =
      readi_laid (λ _. true) (k * entry_size) entry_size count t.volume map dir.laid inside
        dir.sized dir.small (λ i. refl) in
    rw read (ap (λ (x : Table). ok (entry_at t d k, x)) (with_file_same t d))

-- What the search for a name comes to, from entry `k` on, of which there are `n`.
pub data Searched (t : Table) (d : ℕ) (name : ℕ → ℕ) (k n : ℕ) (r : Run (Option (ℕ × ℕ) × Table))
    : Type 0 where
  absent :
      r ≡ ok (none, t)
      → ((j : ℕ) → k ≤ j → j < n → matches (entry_at t d j) name ≡ false)
      → Searched t d name k n r
  present :
      (j : ℕ)
      → k ≤ j
      → j < n
      → matches (entry_at t d j) name ≡ true
      → ((i : ℕ) → k ≤ i → i < j → matches (entry_at t d i) name ≡ false)
      → r ≡ ok (some (j * entry_size, (entry_at t d j).ino), t)
      → Searched t d name k n r

lookup_from-suc :
    (fuel : ℕ) (t : Table) (d : ℕ) (name : ℕ → ℕ) (off : ℕ) (de : DirEntry)
    → off < (t.entry d).node.map.size
    → read_entry t d off ≡ ok (de, t)
    → lookup_from (suc fuel) t d name off ≡ elim (matches de name) [
      | true ↦ ok (some (off, de.ino), t)
      | false ↦ lookup_from fuel t d name (off + entry_size)
    ]
unfolding lookup_from
lookup_from-suc fuel t d name off de within read =
    let more : ltb off (t.entry d).node.map.size ≡ true = ground arith in
    rw (more, lookup_from) (rw read refl)

lookup_from-Searched :
    (fuel : ℕ) (t : Table) (d count : ℕ) (name : ℕ → ℕ) (k n : ℕ)
    → IsDir t d count
    → (t.entry d).node.map.size ≡ n * entry_size
    → k ≤ n
    → n < k + fuel
    → Searched t d name k n (lookup_from fuel t d name (k * entry_size))
unfolding lookup_from
lookup_from-Searched zero t d count name k n dir e le lt = absurd (omega arith)
lookup_from-Searched (suc fuel) t d count name k n dir e le lt = elim (ℕ_discrete k n) [
  | yes last ↦
      let past : ltb (k * entry_size) (t.entry d).node.map.size ≡ false = ground arith in
      rw (past, lookup_from) (absent refl (λ j lo hi. absurd (omega arith)))
  | no more ↦
      let read = read_entry_lem t d count k dir (omega arith) in
      let step : k * entry_size + entry_size ≡ (k + 1) * entry_size = omega arith in
      rw (lookup_from-suc fuel t d name (k * entry_size) (entry_at t d k) (omega arith) read)
        (elim (Bool-cases (matches (entry_at t d k) name)) [
          | inl here ↦
              rw here
                (present k (omega arith) (omega arith) here (λ i lo hi. absurd (omega arith)) refl)
          | inr other ↦
              let widen : (j : ℕ)
                  → (k + 1 ≤ j → matches (entry_at t d j) name ≡ false)
                  → k ≤ j
                  → matches (entry_at t d j) name ≡ false =
                λ j h lo. elim (ℕ_discrete k j) [
                  | yes q ↦ rw (← q) other
                  | no q ↦ h (omega arith)
                ] in
              rw other (
                rw step
                  (elim (lookup_from-Searched fuel t d count name (k + 1) n dir e (omega arith)
                    (omega arith)) [
                      | absent r all ↦ absent r (λ j lo hi. widen j (λ l. all j l hi) lo)
                      | present j lo hi here all r ↦
                          present j (omega arith) hi here (λ i l h. widen i (λ l'. all i l' h) l) r
                    ]))
        ])
]

-- `dir_lookup` in a directory whose blocks are all there.
pub data Looks (t : Table) (d : ℕ) (name : ℕ → ℕ) (n : ℕ) (r : Run (Option (ℕ × ℕ) × Table))
    : Type 0 where
  missing :
      r ≡ ok (none, t)
      → ((j : ℕ) → j < n → matches (entry_at t d j) name ≡ false)
      → Looks t d name n r
  first :
      (j : ℕ)
      → j < n
      → matches (entry_at t d j) name ≡ true
      → ((i : ℕ) → i < j → matches (entry_at t d i) name ≡ false)
      → r ≡ (do
        (i, t') ← iget t (t.entry d).dev (entry_at t d j).ino
        ok (some (j * entry_size, i), t'))
      → Looks t d name n r

-- `dir_lookup` in a directory of `n` entries whose blocks are all there: it returns NULL and changes
-- nothing exactly when no entry in use has the name; otherwise it gets the i-node of the first entry
-- that has it, and its offset. It does not panic while it searches.
pub dir_lookup-Looks :
    (t : Table) (d count n : ℕ) (name : ℕ → ℕ)
    → IsDir t d count
    → (t.entry d).node.map.size ≡ n * entry_size
    → Looks t d name n (dir_lookup t d name)
unfolding dir_lookup
dir_lookup-Looks t d count n name dir e =
    let type : ((t.entry d).node.type == ft_dir) ≡ true = ground (arith, dir.type) in
    let rounds = (t.entry d).node.map.size / entry_size + 1 in
    let enough : n < 0 + rounds = omega arith in
    rw type (elim (lookup_from-Searched rounds t d count name 0 n dir e (omega arith) enough) [
      | absent r all ↦ rw r (missing refl (λ j lt. all j (omega arith) lt))
      | present j lo hi here all r ↦ rw r (first j hi here (λ i lt. all i (omega arith) lt) refl)
    ])
