-- ===== src/Calls/Tests.antt =====
-- The calls on a small system: entry 0 of the table is the current directory, entry 1 a file with one
-- block.
use oskernel.Prelude.{
  ltb, ◌==◌, if◌then◌else◌, pos, negsuc, minus_one, ok, ℕ, ◌+◌, ◌-◌, ◌^◌, ◌≡◌, refl, ◌⊎◌, true,
  false, none, some, List, [], ◌∷◌, arith,
}
use oskernel.Calls.{Nodes, System}
use oskernel.Calls.Create.{sys_mkdir, sys_mknod}
use oskernel.Calls.Links.{sys_link, sys_unlink, sys_chdir}
use oskernel.Calls.Open.{sys_open}
use oskernel.Calls.Descriptors.{seek_set, with_off, file_lseek}
use oskernel.Calls.PipeFds.{Pipes}
use oskernel.Calls.Seek.{file_lseek_before}
use oskernel.Calls.Balance.{Ends, Balanced, mkdir_keeps_operation, calls_balance}
use oskernel.Inode.{Volume, Inode, bmap_slot, bmap}
use oskernel.Inode.Table.{DInode}
use oskernel.Dir.{ft_dir, ft_file}
use oskernel.Files.{fd_none, fd_inode, State}

abbrev disk : Volume
disk = record {
  data_start = 46;
  bits = λ byte shift. if byte == 0 then ltb shift 3 else false;
  word = λ b i. 0;
  byte = λ b i. 0;
}

abbrev one_block : Inode
one_block = record { size = 5; addrs = λ i. if i == 0 then 47 else 0 }

abbrev node : ℕ → DInode
node i = record {
  type = if i == 0 then ft_dir else ft_file;
  major = 0;
  minor = 0;
  nlink = 1;
  map = if i == 0 then record { size = 0; addrs = λ _. 0 } else one_block;
}

abbrev table : Nodes
table = record {
  entry = λ i. record {
    dev = 1;
    ino = i + 1;
    refcnt = if ltb i 2 then 1 else 0;
    valid = ltb i 2;
    node = node i;
  };
  disk = λ ino. node (ino - 1);
  ibits = λ byte shift. false;
  volume = disk;
}

-- Descriptor 0 is open for file 0, on entry 1.
abbrev files : State
files = record {
  files = λ f. record {
    type = if f == 0 then fd_inode else fd_none;
    readable = true;
    writable = false;
    refcnt = if f == 0 then 1 else 0;
    inode = if f == 0 then some 1 else none;
    pi = none;
    off = 0;
    major = 0;
  };
  ofile = λ fd. if fd == 0 then some 0 else none;
}

abbrev system : System
system = record { table = table; outstanding = 0; files = files; cwd = 0 }

-- "/d"
abbrev path : List ℕ
path = 47 ∷ 100 ∷ []

calls_balance_example :
    Balanced 0 (sys_link system (some path) (some path) (λ _. 0))
    × Balanced 0 (sys_unlink system (some path) (λ _. 0))
    × Balanced 0 (sys_chdir system (some path) (λ _. 0))
    × Balanced 0 (sys_mknod system (some path) (λ _. 0) 1 0)
    × Balanced 0 (sys_open system (some path) (λ _. 0) 64)
calls_balance_example = calls_balance system (some path) (some path) (λ _. 0) 1 0 64

mkdir_keeps_operation_example :
    Ends
      (λ value s'.
        ((value ≡ pos 0) × (s'.outstanding ≡ 0)) ⊎ ((value ≡ minus_one) × (s'.outstanding ≡ 0 + 1)))
      (sys_mkdir system (some path) (λ _. 0))
mkdir_keeps_operation_example = mkdir_keeps_operation system path (λ _. 0)

first_block : bmap disk one_block 0 ≡ ok (47, disk, one_block)
unfolding bmap bmap_slot
first_block = refl

file_lseek_before_example :
    (t : Nodes) × (file_lseek system 0 1 (negsuc 4) seek_set
      ≡ ok (negsuc 4, with_off (record system { table = t }) 0 (2 ^ 32 - 5)))
file_lseek_before_example =
    file_lseek_before system 0 1 3 47 refl refl first_block (λ e. omega arith) (omega arith)
