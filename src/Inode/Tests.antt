-- ===== src/Inode/Tests.antt =====
-- Runs on a small volume.
use oskernel.Prelude.{
  ltb, ◌==◌, if◌then◌else◌, ok, panic, ℕ, ◌+◌, ◌*◌, ◌/◌, ◌≤◌, ◌≡◌, refl, sym, ◌∙◌, ◌≢◌, ◌↔◌, true,
  false, some, [], ◌∷◌, arith, ℕ_discrete,
}
use oskernel.Param.{block_size}
use oskernel.Inode.{
  n_direct, n_indirect, apb, Volume, Inode, scan_byte, scan_bytes, balloc, bfree, bmap_slot, bmap,
}
use oskernel.Inode.Table.{DInode, Table, iget, iput}
use oskernel.Inode.Table.Unique.{IsTable, Gets, iget-Gets}
use oskernel.Inode.Table.Life.{iput_unlinked}
use oskernel.Inode.Bitmap.{taken}
use oskernel.Inode.Blocks.{Allocates, balloc-Allocates, bfree-balloc}
use oskernel.Inode.Map.{bmap-again, bmap_limit}
use oskernel.Inode.Read.{slice, read_loop, readi}
use oskernel.Inode.Read.Content.{content, readi_lem}

-- The first three data blocks are taken.
abbrev disk : Volume
disk = record {
  data_start = 46;
  bits = λ byte shift. if byte == 0 then ltb shift 3 else false;
  word = λ b i. 0;
  byte = λ b i. b + i;
}

-- A file of five bytes, in block 47.
abbrev file : Inode
file = record { size = 5; addrs = λ i. if i == 0 then 47 else 0 }

new_block : (balloc disk).0 ≡ 49
unfolding balloc scan_bytes scan_byte
new_block = refl

balloc-Allocates_example : Allocates disk (balloc disk)
balloc-Allocates_example = balloc-Allocates disk

found : (balloc disk).0 ≢ 0
found e = omega (arith, new_block)

bfree-balloc_example :
    let (b, v') = balloc disk in
    ((j : ℕ) → taken (bfree v' b) j ≡ taken disk j) × ((balloc v').0 ≢ b)
bfree-balloc_example = bfree-balloc disk found

first : bmap disk file 0 ≡ ok (47, disk, file)
unfolding bmap bmap_slot
first = refl

bmap-again_example : bmap disk file 0 ≡ ok (47, disk, file)
bmap-again_example = bmap-again disk disk file file 0 47 first (λ e. omega arith)

bmap_limit_example :
    (n_direct + n_indirect * apb ≤ 778)
    ↔ (bmap disk file 778 ≡ panic "the maximum number of blocks for a single file")
bmap_limit_example = bmap_limit disk file 778

readi_example :
    readi (λ _. true) 2 10 disk file
    ≡ ok (some (3, record { left = 0; bytes = 49 ∷ 50 ∷ 51 ∷ []; volume = disk; inode = file }))
unfolding readi read_loop bmap bmap_slot slice
readi_example = refl

readi_lem_example :
    readi (λ _. true) 2 10 disk file
    ≡ ok (
        some (
          3,
          record {
            left = 0;
            bytes = slice (content disk (λ _. 47)) 2 3;
            volume = disk;
            inode = file;
          },
        ))
readi_lem_example =
    readi_lem (λ _. true) disk file (λ _. 47) 2 10 (omega arith) (omega arith)
      (λ i lt. let q : i / block_size ≡ 0 = omega arith in rw q first) (λ i e. omega arith)
      (λ i. refl)

abbrev no_node : DInode
no_node = record { type = 0; major = 0; minor = 0; nlink = 0; map = file }

-- Entry 3 is for i-node 9 of device 1, which has no links any more.
abbrev table : Table
table = record {
  entry = λ i. record {
    dev = 1;
    ino = 9;
    refcnt = if i == 3 then 1 else 0;
    valid = true;
    node = record no_node { type = 2 };
  };
  disk = λ _. no_node;
  ibits = λ _ _. true;
  volume = disk;
}

table-IsTable : IsTable table
table-IsTable = record {
  unique = λ i j dev ino li lj hi hj. elim (ℕ_discrete i 3) [
    | yes p ↦ elim (ℕ_discrete j 3) [ yes q ↦ p ∙ sym q | no q ↦ ground (arith, hj, q) ]
    | no p ↦ ground (arith, hi, p)
  ];
}

iget-Gets_example : Gets table 1 9 (iget table 1 9)
iget-Gets_example = iget-Gets table 1 9 table-IsTable

iput_unlinked_example :
    let t' = iput table 3 in
    ((t'.entry 3).refcnt ≡ 0)
    × ((t'.entry 3).valid ≡ false)
    × ((t'.disk (table.entry 3).ino).type ≡ 0)
    × ((t'.disk (table.entry 3).ino).map.size ≡ 0)
    × (t'.ibits ≡ table.ibits)
iput_unlinked_example = iput_unlinked table 3 refl refl refl
