-- ===== src/Ulib.antt =====
-- user/ulib.c: the C library of the user programs.
pub mod Heap
pub mod Text
pub mod Print
mod Tests
