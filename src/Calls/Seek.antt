-- ===== src/Calls/Seek.antt =====
-- `lseek` before the start of a file.
use oskernel.Prelude.{
  ◌==◌, negsuc, ok, ℕ, suc, ◌+◌, ◌-◌, ◌/◌, ◌%◌, ◌^◌, ◌<◌, ◌≡◌, refl, ◌≢◌, true, false, arith,
}
use oskernel.Param.{block_size}
use oskernel.Calls.{Nodes, System}
use oskernel.Calls.Descriptors.{block_index, lseeki, seek_set, with_off, seek, file_lseek}
use oskernel.Inode.{bmap}
use oskernel.Files.{fd_inode}
use oskernel.Dir.{ft_file, with_file}

negative_block : (k : ℕ) → k + 2 < block_size → block_index (negsuc (suc k)) ≡ 0
negative_block k lt = let q : (suc k + 1) / block_size ≡ 0 = omega arith in rw q refl

-- Seeking in a file, whose first block is there, to an offset from -2 to -1023: `file_lseek`
-- succeeds, returns the offset and makes the file's offset that number as a `uint32_t`, near 2 ^ 32.
pub file_lseek_before :
    (s : System) (f i k a : ℕ)
    → (s.files.files f).type ≡ fd_inode
    → (s.table.entry i).node.type ≡ ft_file
    → bmap s.table.volume (s.table.entry i).node.map 0
      ≡ ok (a, s.table.volume, (s.table.entry i).node.map)
    → a ≢ 0
    → k + 2 < block_size
    → (t : Nodes) × (file_lseek s f i (negsuc (suc k)) seek_set
        ≡ ok (negsuc (suc k), with_off (record s { table = t }) f (2 ^ 32 - (k + 2))))
unfolding file_lseek seek lseeki
file_lseek_before s f i k a is_node is_file mapped set lt =
    let t = with_file s.table i s.table.volume (s.table.entry i).node.map in
    let first = negative_block k lt in
    let file : ((s.table.entry i).node.type == ft_file) ≡ true = ground (arith, is_file) in
    let found : (a == 0) ≡ false = ground (arith, set) in
    let wrap : (2 ^ 32 - (k + 2) % 2 ^ 32) % 2 ^ 32 ≡ 2 ^ 32 - (k + 2) = omega arith in
    (t, rw is_node (rw file (rw first (rw mapped (rw found (rw wrap refl))))))
