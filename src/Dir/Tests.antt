-- ===== src/Dir/Tests.antt =====
-- A directory with one entry, and paths.
use oskernel.Prelude.{
  ltb, ◌==◌, if◌then◌else◌, ok, ℕ, ◌+◌, ◌*◌, ◌/◌, ◌<◌, ◌≡◌, refl, sym, ◌∙◌, ◌≢◌, true, false, none,
  some, List, [], ◌∷◌, arith,
}
use oskernel.Param.{block_size}
use oskernel.Dir.{entry_size, ft_dir, decode, same_name, matches, dir_lookup, copied_name, dir_link}
use oskernel.Dir.Entries.{IsDir, entry_at, Looks, dir_lookup-Looks}
use oskernel.Dir.Link.{dir_link_appends}
use oskernel.Dir.Path.{skip_elem, lookup}
use oskernel.Dir.Path.Elements.{pieces, elements, Skips, skip_elem-Skips}
use oskernel.Dir.Path.Ends.{lookup_ends}
use oskernel.Inode.{Volume, Inode}
use oskernel.Inode.Table.{Table}
use oskernel.Inode.Read.{slice, readi}
use oskernel.Inode.Write.Content.{IsLaidOut}
use oskernel.Inode.Write.Again.{readi-writei}
use oskernel.Inode.Write.{writei}
use oskernel.Strings.{strncmp}

abbrev disk : Volume
disk = record {
  data_start = 46;
  bits = λ byte shift. if byte == 0 then ltb shift 3 else false;
  word = λ b i. 0;
  byte = λ b i. if i == 0 then 5 else if i == 2 then 97 else 0;
}

abbrev map : Inode
map = record { size = 32; addrs = λ i. if i == 0 then 47 else 0 }

-- Entry 0 is i-node 1, a directory.
abbrev nodes : Table
nodes = record {
  entry = λ i. record {
    dev = 1;
    ino = if i == 0 then 1 else 0;
    refcnt = if i == 0 then 1 else 0;
    valid = i == 0;
    node = record { type = ft_dir; major = 0; minor = 0; nlink = 1; map = map };
  };
  disk = λ ino. record { type = ft_dir; major = 0; minor = 0; nlink = 1; map = map };
  ibits = λ byte shift. false;
  volume = disk;
}

first_block : (i : ℕ) → i < 64 → i / block_size ≡ 0
first_block i lt = omega arith

laid : IsLaidOut disk map 64
laid = record {
  mapped = λ i lt. rw (first_block i lt) (λ e. ground arith);
  apart = λ i j li lj e. first_block i li ∙ sym (first_block j lj);
}

nodes-IsDir : IsDir nodes 0 64
nodes-IsDir = record {
  type = refl;
  laid = laid;
  sized = omega arith;
  whole = refl;
  small = omega arith;
}

abbrev letter : ℕ → ℕ → ℕ
letter c i = if i == 0 then c else 0

readi-writei_example :
    (v' : Volume) × (inode' : Inode) × (writei (λ i. i + 7) (λ _ len. len) 30 4 disk map
      ≡ ok (some (4, v', inode')))
    × (readi (λ _. true) 30 4 v' inode'
        ≡ ok (
            some (
              4,
              record { left = 0; bytes = slice (λ i. i + 7) 0 4; volume = v'; inode = inode' },
            )))
readi-writei_example =
    readi-writei (λ i. i + 7) (λ _ len. len) (λ _. true) 30 4 64 disk map laid (omega arith)
      (omega arith) (omega arith) (omega arith) (λ i len. refl) (λ i. refl)

dir_lookup-Looks_example : Looks nodes 0 (letter 97) 1 (dir_lookup nodes 0 (letter 97))
dir_lookup-Looks_example = dir_lookup-Looks nodes 0 64 1 (letter 97) nodes-IsDir refl

new_name : (j : ℕ) → j < 1 → matches (entry_at nodes 0 j) (letter 98) ≡ false
unfolding matches entry_at decode slice same_name strncmp
new_name j lt = let e : j ≡ 0 = omega arith in rw e refl

dir_link_appends_example :
    (t' : Table) × (dir_link nodes 0 (letter 98) 9 ≡ ok (true, t'))
    × ((t'.entry 0).node.map.size ≡ (1 + 1) * entry_size)
    × (entry_at t' 0 1 ≡ record { ino = 9; name = copied_name (letter 98) })
    × ((j : ℕ) → j < 1 → entry_at t' 0 j ≡ entry_at nodes 0 j)
dir_link_appends_example =
    dir_link_appends nodes 0 64 1 (letter 98) 9 nodes-IsDir (λ e. omega arith) refl (omega arith)
      (omega arith) new_name

-- "//ab/c"
abbrev path : List ℕ
path = 47 ∷ 47 ∷ 97 ∷ 98 ∷ 47 ∷ 99 ∷ []

path-elements : elements path ≡ (97 ∷ 98 ∷ []) ∷ (99 ∷ []) ∷ []
unfolding pieces
path-elements = refl

skip_elem-Skips_example : Skips path (λ _. 0) (skip_elem path (λ _. 0))
skip_elem-Skips_example = skip_elem-Skips path (λ _. 0)

lookup_ends_example : lookup false nodes 0 path (λ _. 0) ≢ ok none
lookup_ends_example = lookup_ends false nodes 0 path (λ _. 0)
