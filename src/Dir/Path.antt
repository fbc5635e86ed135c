-- ===== src/Dir/Path.antt =====
-- `skip_elem` and `lookup` of kernel/fs/inode.c. A path is the list of its characters before the NUL.
pub mod Elements
pub mod Ends
use oskernel.Prelude.{
  ltb, ◌==◌, if◌then◌else◌, length, Run, ok, ◌>>=◌, ◌>>◌, ℕ, zero, suc, ◌+◌, Bool, true, false,
  ◌&&◌, Option, none, some, List, [], ◌∷◌,
}
use oskernel.Dir.{dir_size, ft_dir, nth, dir_lookup}
use oskernel.Inode.Table.{Table, iget, idup, ilock, iput}

-- `skip_elem` returns what follows the element and the slashes behind it; `name` is
-- the buffer for the element, which gets no NUL if that has `DIR_SIZE` characters or more.
abbrev pub slash : ℕ
slash = 47

pub skip_slashes : List ℕ → List ℕ
skip_slashes [] = []
skip_slashes (c ∷ path) = let rest = skip_slashes path in if c == slash then rest else c ∷ path

pub element : List ℕ → List ℕ × List ℕ
element [] = ([], [])
element (c ∷ path) =
    let (elem, rest) = element path in if c == slash then ([], c ∷ path) else (c ∷ elem, rest)

pub named : List ℕ → (ℕ → ℕ) → ℕ → ℕ
named elem name i =
    if ltb i dir_size && ltb i (length elem)
    then nth elem i
    else if i == length elem && ltb i dir_size
    then 0
    else name i

abbrev pub is_empty : List ℕ → Bool
is_empty [] = true
is_empty (c ∷ s) = false

pub skip_elem : List ℕ → (ℕ → ℕ) → Option (List ℕ × (ℕ → ℕ))
skip_elem path name = elim (skip_slashes path) [
  | [] ↦ none
  | c ∷ s ↦ let (elem, rest) = element (c ∷ s) in some (skip_slashes rest, named elem name)
]

-- What `lookup` comes to, with the buffer for the last element.
pub data Looked : Type 0 where
  arrives : ℕ → (ℕ → ℕ) → Table → Looked
  nothing : (ℕ → ℕ) → Table → Looked

pub data Next : Type 0 where
  stops : Looked → Next
  goes_on : ℕ → Table → Next

-- A round of the loop of `lookup` at entry `i`, once `skip_elem` has left `path` and `name`.
pub lookup_round : Bool → Table → ℕ → List ℕ → (ℕ → ℕ) → Run Next
lookup_round parent t i path name = do
  t1 ← ilock t i
  elim ((t1.entry i).node.type == ft_dir) [
    | false ↦ ok (stops (nothing name (iput t1 i)))
    | true ↦ elim (parent && is_empty path) [
      | true ↦ ok (stops (arrives i name t1))
      | false ↦ do
        (found, t2) ← dir_lookup t1 i name
        elim found [
          | none ↦ ok (stops (nothing name (iput t2 i)))
          | some (_, next) ↦ ok (goes_on next (iput t2 i))
        ]
    ]
  ]

-- The loop, for `fuel` rounds at most; `none` if they do not end it.
pub lookup_loop : ℕ → Bool → Table → ℕ → List ℕ → (ℕ → ℕ) → Run (Option Looked)
lookup_loop zero parent t i path name = ok none
lookup_loop (suc fuel) parent t i path name = elim (skip_elem path name) [
  | none ↦ ok (some (if parent then nothing name (iput t i) else arrives i name t))
  | some (path', name') ↦ do
    next ← lookup_round parent t i path' name'
    elim next [
      | stops looked ↦ ok (some looked)
      | goes_on i' t' ↦ lookup_loop fuel parent t' i' path' name'
    ]
]

-- `ROOT_DEV` and `ROOT_INO`
abbrev pub root_dev : ℕ
root_dev = 1

abbrev pub root_ino : ℕ
root_ino = 1

-- `cwd` is the entry of the current directory.
pub start_of : Table → ℕ → List ℕ → Run (ℕ × Table)
start_of t cwd [] = do t' ← idup t cwd; ok (cwd, t')
start_of t cwd (c ∷ path) =
    if c == slash then iget t root_dev root_ino else (do t' ← idup t cwd; ok (cwd, t'))

pub lookup : Bool → Table → ℕ → List ℕ → (ℕ → ℕ) → Run (Option Looked)
lookup parent t cwd path name = do
  (i, t') ← start_of t cwd path
  lookup_loop (length path + 1) parent t' i path name

-- The buffer `name` of `namei` is not initialised.
pub namei : Table → ℕ → List ℕ → (ℕ → ℕ) → Run (Option Looked)
namei t cwd path name = lookup false t cwd path name

pub parenti : Table → ℕ → List ℕ → (ℕ → ℕ) → Run (Option Looked)
parenti t cwd path name = lookup true t cwd path name
