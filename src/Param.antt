-- ===== src/Param.antt =====
-- include/param.h and the sizes of include/fs/fs.h.
use oskernel.Prelude.{ℕ, ◌*◌}

abbrev pub n_proc : ℕ
n_proc = 64

abbrev pub max_op_blks : ℕ
max_op_blks = 10

abbrev pub n_buf : ℕ
n_buf = max_op_blks * 3

abbrev pub log_size : ℕ
log_size = max_op_blks * 3

abbrev pub block_size : ℕ
block_size = 1024

abbrev pub n_file : ℕ
n_file = 100

abbrev pub n_ofile : ℕ
n_ofile = 16

abbrev pub n_dev : ℕ
n_dev = 10

abbrev pub n_inode : ℕ
n_inode = 50
