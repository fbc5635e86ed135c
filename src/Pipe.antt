-- ===== src/Pipe.antt =====
-- kernel/fs/pipe.c: the pipe's ring of bytes, and the runs of `pipe_read`, `pipe_write` and
-- `pipe_close` between two waits. The spin lock is held for a whole run, so a run is atomic.
pub mod Invariant
pub mod Stream
mod Tests
use oskernel.Prelude.{
  ℕ, zero, suc, ◌+◌, ◌-◌, ◌%◌, Bool, true, false, not, ◌&&◌, ◌||◌, Option, none, some, List, [],
  ◌∷◌, ◌==◌, update, if◌then◌else◌, length,
}

abbrev pub pipe_size : ℕ
pipe_size = 1024

-- `struct pipe`, without its lock. `ring` is `data`.
pub record Pipe : Type 0 where
  pub r : ℕ
  pub w : ℕ
  pub read_open : Bool
  pub write_open : Bool
  pub ring : ℕ → ℕ

-- What `pipe_alloc` makes of a fresh page, whose bytes are arbitrary.
pub pipe_init : (ℕ → ℕ) → Pipe
pipe_init page = record { r = 0; w = 0; read_open = true; write_open = true; ring = page }

-- The two channels on which a pipe's users wait, `&pi->r` and `&pi->w`.
pub data Chan : Type 0 where
  readers writers : Chan

-- How a run ends: `return -1`, `return i`, or in `sleep_on` after `i` bytes.
pub data Stop : Type 0 where
  failed : Stop
  returned sleeping : ℕ → Stop

-- `moved` holds the bytes that reached the other side, `woken` the channels woken, in order.
pub record Outcome : Type 0 where
  pub stop : Stop
  pub moved : List ℕ
  pub woken : List Chan
  pub pipe : Pipe

-- `pipe_close`; the result says whether the page of the pipe is freed.
pub pipe_close : Pipe → Bool → Pipe × List Chan × Bool
pipe_close p writable =
    let q = if writable then record p { write_open = false } else record p { read_open = false } in
    let woken = if writable then readers ∷ [] else writers ∷ [] in
    (q, woken, not q.read_open && not q.write_open)

-- The `for` loop of `pipe_read` from round `i` on, `n` rounds at most. `copies i` says whether
-- `copy_out` of byte `i` succeeds.
pub read_loop : (ℕ → Bool) → ℕ → ℕ → Pipe → List ℕ × Pipe
read_loop copies zero i p = ([], p)
read_loop copies (suc n) i p =
    let p' = record p { r = (p.r + 1) % pipe_size } in
    let (cs, q) = read_loop copies n (i + 1) p' in
    if p.r == p.w then ([], p) else if copies i then (p.ring p.r ∷ cs, q) else ([], p')

pub pipe_read : Bool → (ℕ → Bool) → ℕ → Pipe → Outcome
pipe_read killed copies n p =
    let (cs, q) = read_loop copies n 0 p in
    if (p.r == p.w) && p.write_open
    then record { stop = if killed then failed else sleeping 0; moved = []; woken = []; pipe = p }
    else record { stop = returned (length cs); moved = cs; woken = writers ∷ []; pipe = q }

abbrev pub put : Pipe → ℕ → Pipe
put p c = record p { ring = update p.ring p.w c; w = (p.w + 1) % pipe_size }

abbrev pub is_full : Pipe → Bool
is_full p = (p.w + 1) % pipe_size == p.r

-- The `while` loop of `pipe_write` from byte `i` on, with `n` bytes left. `src i` is what `copy_in`
-- reads for byte `i`, `none` where it fails, and `killed i` what `killed(p)` says in that round.
pub write_loop : (ℕ → Bool) → (ℕ → Option ℕ) → ℕ → ℕ → Pipe → Outcome
write_loop killed src zero i p = record {
  stop = returned i;
  moved = [];
  woken = readers ∷ [];
  pipe = p;
}
write_loop killed src (suc n) i p =
    if not p.read_open || killed i
    then record { stop = failed; moved = []; woken = []; pipe = p }
    else if is_full p
    then record { stop = sleeping i; moved = []; woken = readers ∷ []; pipe = p }
    else elim (src i) [
      | none ↦ record { stop = returned i; moved = []; woken = readers ∷ []; pipe = p }
      | some c ↦
          let rest = write_loop killed src n (i + 1) (put p c) in
          record rest { moved = c ∷ rest.moved }
    ]

-- A write of `n` bytes of which `i` are already in, as it starts and after each wait.
pub pipe_write : (ℕ → Bool) → (ℕ → Option ℕ) → ℕ → ℕ → Pipe → Outcome
pipe_write killed src n i p = write_loop killed src (n - i) i p
