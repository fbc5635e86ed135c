-- ===== src/Dir.antt =====
-- Directories of kernel/fs/inode.c, over the table of i-nodes. An array of `DIR_SIZE` characters is a
-- function from the index. Sleep locks are left out, as in Inode/Table.
pub mod Entries
pub mod Link
pub mod Path
mod Tests
use oskernel.Prelude.{
  ltb, ◌==◌, if◌then◌else◌, update, Run, ok, panic, ◌>>=◌, ◌>>◌, panic_if, ℕ, zero, suc, ◌+◌, ◌-◌,
  ◌*◌, ◌/◌, ◌%◌, Bool, true, false, not, ◌&&◌, Option, none, some, List, [], ◌∷◌,
}
use oskernel.Strings.{strncmp, is_zero}
use oskernel.Inode.{Volume, Inode}
use oskernel.Inode.Read.{readi}
use oskernel.Inode.Write.{writei}
use oskernel.Inode.Table.{Table, iget, iupdate, iput}

abbrev pub dir_size : ℕ
dir_size = 30

-- `sizeof(struct dir_entry)`
abbrev pub entry_size : ℕ
entry_size = 32

abbrev pub ft_dir : ℕ
ft_dir = 1

abbrev pub ft_file : ℕ
ft_file = 2

pub record DirEntry : Type 0 where
  pub ino : ℕ
  pub name : ℕ → ℕ

abbrev pub nth : List ℕ → ℕ → ℕ
nth [] i = 0
nth (x ∷ xs) zero = x
nth (x ∷ xs) (suc i) = nth xs i

-- A `struct dir_entry` from its bytes, and its bytes; the number is a `uint16_t`.
pub decode : List ℕ → DirEntry
decode bytes = record { ino = nth bytes 0 + nth bytes 1 * 256; name = λ i. nth bytes (i + 2) }

pub encode : DirEntry → ℕ → ℕ
encode de zero = de.ino % 256
encode de (suc zero) = de.ino / 256 % 256
encode de (suc (suc i)) = de.name i

-- What a function on the file of entry `d` leaves of the volume and the block map.
abbrev pub with_file : Table → ℕ → Volume → Inode → Table
with_file t d v map = record t {
  entry = update t.entry d (record (t.entry d) { node = record ((t.entry d).node) { map = map } });
  volume = v;
}

-- `readi(dir, false, &de, off, sizeof(de))` and the test of what it returns; a copy within the kernel
-- does not fail.
pub read_entry : Table → ℕ → ℕ → Run (DirEntry × Table)
read_entry t d off = do
  r ← readi (λ _. true) off entry_size t.volume (t.entry d).node.map
  elim r [
    | none ↦ panic "inode read error"
    | some (n, x) ↦
        if n == entry_size
        then ok (decode x.bytes, with_file t d x.volume x.inode)
        else panic "inode read error"
  ]

-- `strncmp(a, b, DIR_SIZE) == 0`
abbrev beside : (ℕ → ℕ) → (ℕ → ℕ) → ℕ → ℕ
beside a b i = if ltb i dir_size then a i else b (i - dir_size)

pub same_name : (ℕ → ℕ) → (ℕ → ℕ) → Bool
same_name a b = is_zero (strncmp (beside a b) 0 dir_size dir_size)

-- An entry in use that has the name.
pub matches : DirEntry → (ℕ → ℕ) → Bool
matches de name = not (de.ino == 0) && same_name de.name name

-- The loop of `dir_lookup` from `off` on, for `fuel` rounds at most: the offset and the number of the
-- entry.
pub lookup_from : ℕ → Table → ℕ → (ℕ → ℕ) → ℕ → Run (Option (ℕ × ℕ) × Table)
lookup_from zero t d name off = ok (none, t)
lookup_from (suc fuel) t d name off = elim (ltb off (t.entry d).node.map.size) [
  | false ↦ ok (none, t)
  | true ↦ do
    (de, t') ← read_entry t d off
    elim (matches de name) [
      | true ↦ ok (some (off, de.ino), t')
      | false ↦ lookup_from fuel t' d name (off + entry_size)
    ]
]

-- With the offset that `*poff` is set to; `none` is NULL.
pub dir_lookup : Table → ℕ → (ℕ → ℕ) → Run (Option (ℕ × ℕ) × Table)
dir_lookup t d name = do
  let node = (t.entry d).node
  panic_if (not (node.type == ft_dir)) "lookup in non-directory files"
  (found, t') ← lookup_from (node.map.size / entry_size + 1) t d name 0
  elim found [
    | none ↦ ok (none, t')
    | some (off, ino) ↦ do (i, t'') ← iget t' (t'.entry d).dev ino; ok (some (off, i), t'')
  ]

-- The loop of `dir_link`, which tests the number of the directory, not that of the entry: the offset
-- where it ends.
pub slot_from : ℕ → Table → ℕ → ℕ → Run (ℕ × Table)
slot_from zero t d off = ok (off, t)
slot_from (suc fuel) t d off = elim (ltb off (t.entry d).node.map.size) [
  | false ↦ ok (off, t)
  | true ↦ do
    (de, t') ← read_entry t d off
    elim ((t'.entry d).ino == 0) [
      | true ↦ ok (off, t')
      | false ↦ slot_from fuel t' d (off + entry_size)
    ]
]

-- The string in the first `n` characters of an array, from `i` on.
pub string_of : ℕ → (ℕ → ℕ) → ℕ → List ℕ
string_of zero f i = []
string_of (suc n) f i = let rest = string_of n f (i + 1) in if f i == 0 then [] else f i ∷ rest

-- `strncpy(de.name, name, DIR_SIZE)`
pub copied_name : (ℕ → ℕ) → ℕ → ℕ
copied_name name = nth (string_of dir_size name 0)

-- `writei` with its `iupdate`; `false` is the error -1.
pub write_entry : Table → ℕ → ℕ → DirEntry → Run (Bool × Table)
write_entry t d off de = do
  r ← writei (encode de) (λ _ len. len) off entry_size t.volume (t.entry d).node.map
  elim r [
    | none ↦ ok (false, t)
    | some (n, v, map) ↦ ok (n == entry_size, iupdate (with_file t d v map) d)
  ]

-- `false` is the error -1.
pub dir_link : Table → ℕ → (ℕ → ℕ) → ℕ → Run (Bool × Table)
dir_link t d name ino = do
  (found, t1) ← dir_lookup t d name
  elim found [
    | some (_, i) ↦ ok (false, iput t1 i)
    | none ↦ do
      (off, t2) ← slot_from ((t1.entry d).node.map.size / entry_size + 1) t1 d 0
      write_entry t2 d off (record { ino = ino % 65536; name = copied_name name })
  ]
