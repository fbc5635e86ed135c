-- ===== src/Exec.antt =====
-- kernel/fs/exec.c: the segments of a program and the stack that it starts with. What the page table
-- and the i-node do is an argument: `walk` is `uvm_walk_addr`, `reads` says whether a `readi` gives
-- all its bytes, `grow` is `uvm_alloc`, which returns 0 where it fails, and `copies` says whether a
-- `copy_out` succeeds.
pub mod Stack
mod Tests
use oskernel.Prelude.{
  ltb, leb, ◌==◌, if◌then◌else◌, length, Run, ok, ◌>>=◌, ◌>>◌, panic_if, ℕ, zero, suc, ◌+◌, ◌-◌,
  ◌*◌, ◌/◌, ◌%◌, ◌^◌, Bool, true, false, not, ◌||◌, Option, none, some, List, [], ◌∷◌,
}
use oskernel.Paging.{page_size, flags, walk}
use oskernel.Paging.Users.{user_stack_base}

abbrev pub max_args : ℕ
max_args = 32

abbrev pub max_envs : ℕ
max_envs = 16

abbrev pub user_stack_top : ℕ
user_stack_top = user_stack_base + page_size

-- `PTE_X` and `PTE_W` for the flags `ELF_PROG_FLAG_EXEC` and `ELF_PROG_FLAG_WRITE`.
pub flags2perm : ℕ → ℕ
flags2perm flags = (if flags % 2 == 1 then 8 else 0) + (if flags / 2 % 2 == 1 then 4 else 0)

-- The loop of `load_seg` from `i` on, for `fuel` pages at most; `false` is the error -1.
pub load_from : (ℕ → ℕ) → (ℕ → ℕ → Bool) → ℕ → ℕ → ℕ → ℕ → ℕ → Run Bool
load_from walk reads va off sz zero i = ok true
load_from walk reads va off sz (suc fuel) i =
    let n = if ltb (sz - i) page_size then sz - i else page_size in
    elim (ltb i sz) [
      | false ↦ ok true
      | true ↦ do
        panic_if (walk (va + i) == 0) "the address does not exist when loading segment"
        elim (reads (off + i) n) [
          | false ↦ ok false
          | true ↦ load_from walk reads va off sz fuel (i + page_size)
        ]
    ]

pub load_seg : (ℕ → ℕ) → (ℕ → ℕ → Bool) → ℕ → ℕ → ℕ → Run Bool
load_seg walk reads va off sz = load_from walk reads va off sz (sz / page_size + 1) 0

-- `struct proghdr`: what `do_execve` uses.
pub record Proghdr : Type 0 where
  pub type : ℕ
  pub flags : ℕ
  pub off : ℕ
  pub vaddr : ℕ
  pub filesz : ℕ
  pub memsz : ℕ

-- The tests on a segment that is to be loaded.
abbrev pub is_bad : Proghdr → Bool
is_bad ph =
    ltb ph.memsz ph.filesz
    || (ltb ((ph.vaddr + ph.memsz) % 2 ^ 64) ph.vaddr || not (ph.vaddr % page_size == 0))

-- The loop over the segments, of which `none` is one that cannot be read: the new size, or `none` for
-- `bad`.
pub load_segments :
    (ℕ → ℕ) → (ℕ → ℕ → Bool) → (ℕ → ℕ → ℕ → ℕ) → List (Option Proghdr) → ℕ → Run (Option ℕ)
load_segments walk reads grow [] new_sz = ok (some new_sz)
load_segments walk reads grow (none ∷ phs) new_sz = ok none
load_segments walk reads grow (some ph ∷ phs) new_sz =
    let size = grow new_sz ((ph.vaddr + ph.memsz) % 2 ^ 64) (flags2perm ph.flags) in
    let skipped = load_segments walk reads grow phs new_sz in
    let loaded = load_segments walk reads grow phs size in
    elim (ph.type == 1) [
      | false ↦ skipped
      | true ↦ elim (is_bad ph || size == 0) [
        | true ↦ ok none
        | false ↦ do
          fine ← load_seg walk reads ph.vaddr ph.off ph.filesz
          if fine then loaded else ok none
      ]
    ]

-- `sp -= len; sp -= sp % 16;` on a `uint64_t`, with the test of the base and the `copy_out`; `none`
-- is `bad`.
unfoldable pub push : (ℕ → ℕ → Bool) → ℕ → ℕ → Option ℕ
push copies len sp =
    let low = (sp + 2 ^ 64 - len) % 2 ^ 64 in
    let sp' = low - low % 16 in
    if ltb sp' user_stack_base then none else if copies sp' len then some sp' else none

-- The loops over the strings, of which `lens` are the lengths with the NUL: the stack pointer and the
-- addresses of the strings. With `count` strings so far, no more than `limit` may follow.
unfoldable pub push_strings : (ℕ → ℕ → Bool) → ℕ → ℕ → List ℕ → ℕ → Option (ℕ × List ℕ)
push_strings copies limit count [] sp = some (sp, [])
push_strings copies limit count (len ∷ lens) sp =
    if leb limit count then none else elim (push copies len sp) [
      | none ↦ none
      | some sp' ↦ elim (push_strings copies limit (count + 1) lens sp') [
        | none ↦ none
        | some (end, addrs) ↦ some (end, sp' ∷ addrs)
      ]
    ]

-- What the pushing of an array comes to: `bad`, a store of the NULL behind the end of the kernel's copy
-- `uargv` or `uenv`, or the stack pointer and the addresses of the strings.
pub data Pushed : Type 0 where
  refused overruns : Pushed
  pushed : ℕ → List ℕ → Pushed

-- The strings and the array of their addresses, which ends with NULL; the kernel's copy of the array
-- has `limit` entries.
unfoldable pub push_array : (ℕ → ℕ → Bool) → ℕ → List ℕ → ℕ → Pushed
push_array copies limit lens sp = elim (push_strings copies limit 0 lens sp) [
  | none ↦ refused
  | some (sp', addrs) ↦ elim (leb limit (length lens)) [
    | true ↦ overruns
    | false ↦ elim (push copies ((length lens + 1) * 8) sp') [
      | none ↦ refused
      | some end ↦ pushed end addrs
    ]
  ]
]

-- What the program starts with: `a0` to `a2`, and the stack pointer.
pub record Start : Type 0 where
  pub argc : ℕ
  pub argv : ℕ
  pub env : ℕ
  pub sp : ℕ

pub data StackResult : Type 0 where
  no_stack overruns_array : StackResult
  ready : Start → StackResult

-- The stack of `do_execve`.
unfoldable pub build_stack : (ℕ → ℕ → Bool) → List ℕ → List ℕ → StackResult
build_stack copies argv env = elim (push_array copies max_args argv user_stack_top) [
  | refused ↦ no_stack
  | overruns ↦ overruns_array
  | pushed uargv _ ↦ elim (push_array copies max_envs env uargv) [
    | refused ↦ no_stack
    | overruns ↦ overruns_array
    | pushed uenv _ ↦ ready (record { argc = length argv; argv = uargv; env = uenv; sp = uenv })
  ]
]
