-- ===== src/Pipe/Stream.antt =====
-- A pipe is a stream: the reader gets the writer's bytes, in order.
use oskernel.Prelude.{
  ◌==◌, if◌then◌else◌, Bool-cases, length, take, ℕ, zero, suc, ◌+◌, ◌-◌, ◌%◌, ◌≤◌, ◌<◌, ◌≡◌, refl,
  sym, ap, ◌∙◌, ◌≢◌, ◌↔◌, ◌⊎◌, inl, inr, Bool, true, false, ◌&&◌, Option, List, [], ◌∷◌, ◌++◌,
  append-nil, append_assoc, arith,
}
use oskernel.Pipe.{
  pipe_size, Pipe, readers, writers, failed, returned, sleeping, pipe_close, read_loop, pipe_read,
  is_full, pipe_write,
}
use oskernel.Pipe.Invariant.{
  IsValid, window, count, contents, length-window, window_of_pos, Wrote, write_loop-Wrote,
  pipe_read-IsValid,
}

abbrev pub advance : Pipe → Pipe
advance p = record p { r = (p.r + 1) % pipe_size }

-- Taking the oldest byte out of a pipe that is not empty.
contents_of_ne :
    {p : Pipe} → IsValid p → (p.r == p.w) ≡ false → contents p ≡ p.ring p.r ∷ contents (advance p)
contents_of_ne {p} v ne =
    window_of_pos p.ring p.r (count p) (ground arith)
    ∙ ap (λ k. p.ring p.r ∷ window p.ring ((p.r + 1) % pipe_size) k) (ground arith)

contents_of_eq : {p : Pipe} → IsValid p → (p.r == p.w) ≡ true → contents p ≡ []
contents_of_eq {p} v e = let z : count p ≡ 0 = ground arith in ap (window p.ring p.r) z

-- The bytes that left the pipe in the loop: those delivered, and the one whose copy failed.
record Taken (copies : ℕ → Bool) (i : ℕ) (p : Pipe) (out : List ℕ × Pipe) : Type 0 where
  lost : List ℕ
  split : contents p ≡ out.0 ++ (lost ++ contents out.1)
  few : length lost ≤ 1
  fault : lost ≢ [] → copies (i + length out.0) ≡ false

read_loop-Taken :
    (copies : ℕ → Bool) (n i : ℕ) {p : Pipe} → IsValid p → Taken copies i p (read_loop copies n i p)
unfolding read_loop
read_loop-Taken copies zero i v = record {
  lost = [];
  split = refl;
  few = omega arith;
  fault = λ h. absurd (h refl);
}
read_loop-Taken copies (suc n) i {p} v = elim (Bool-cases (p.r == p.w)) [
  | inl e ↦
      rw e (record { lost = []; split = refl; few = omega arith; fault = λ h. absurd (h refl) })
  | inr ne ↦ elim (Bool-cases (copies i)) [
    | inl good ↦
        let ih = read_loop-Taken copies n (i + 1) {p = advance p} (omega arith) in
        rw (ne, good)
          (record {
            lost = ih.lost;
            split = contents_of_ne v ne ∙ ap (◌∷◌ (p.ring p.r)) ih.split;
            few = ih.few;
            fault = λ h. ap copies (omega arith) ∙ ih.fault h;
          })
    | inr bad ↦
        rw (ne, bad)
          (record {
            lost = p.ring p.r ∷ [];
            split = contents_of_ne v ne;
            few = omega arith;
            fault = λ h. ap copies (omega arith) ∙ bad;
          })
  ]
]

-- Without a fault the loop takes the oldest `n` bytes, or all if there are fewer.
read_loop-take :
    (copies : ℕ → Bool) (n i : ℕ) {p : Pipe}
    → ((k : ℕ) → copies k ≡ true)
    → IsValid p
    → (read_loop copies n i p).0 ≡ take n (contents p)
unfolding read_loop
read_loop-take copies zero i good v = refl
read_loop-take copies (suc n) i {p} good v = elim (Bool-cases (p.r == p.w)) [
  | inl e ↦ rw (e, contents_of_eq v e)
  | inr ne ↦
      rw (ne, good i, contents_of_ne v ne)
        (ap (◌∷◌ (p.ring p.r)) (read_loop-take copies n (i + 1) {p = advance p} good (omega arith)))
]

no_loss :
    {copies : ℕ → Bool} (p : Pipe) (out : List ℕ × Pipe)
    → ((k : ℕ) → copies k ≡ true)
    → (l : List ℕ) → contents p ≡ out.0 ++ (l ++ contents out.1)
    → (l ≢ [] → copies (0 + length out.0) ≡ false)
    → contents p ≡ out.0 ++ contents out.1
no_loss p out good [] e f = e
no_loss {copies} p out good (c ∷ l) e f =
    let bad : copies (0 + length out.0) ≡ false = f (λ q. cc) in cc (good (0 + length out.0))

-- Without a fault nothing is lost.
read_loop_split :
    (copies : ℕ → Bool) (n : ℕ) {p : Pipe}
    → ((k : ℕ) → copies k ≡ true)
    → IsValid p
    → let out = read_loop copies n 0 p in contents p ≡ out.0 ++ contents out.1
read_loop_split copies n {p} good v =
    let t = read_loop-Taken copies n 0 v in
    no_loss p (read_loop copies n 0 p) good t.lost t.split t.fault

pipe_read_split :
    (killed : Bool) (copies : ℕ → Bool) (n : ℕ) {p : Pipe}
    → ((k : ℕ) → copies k ≡ true)
    → IsValid p
    → let out = pipe_read killed copies n p in contents p ≡ out.moved ++ contents out.pipe
unfolding pipe_read
pipe_read_split killed copies n {p} good v = elim (Bool-cases ((p.r == p.w) && p.write_open)) [
  | inl waits ↦ rw waits
  | inr goes ↦ rw goes (read_loop_split copies n good v)
]

-- `pipe_read` waits, or fails if the process is killed, exactly when the pipe is empty and its write
-- end open, and then changes nothing. Otherwise, if no `copy_out` fails, it returns the number of
-- bytes that it delivers, which are the oldest `n` of the pipe, or all if there are fewer, and leaves
-- the rest; so it returns 0 at the end of the stream.
pub pipe_read_lem :
    (killed : Bool) (copies : ℕ → Bool) (n : ℕ) {p : Pipe}
    → ((k : ℕ) → copies k ≡ true)
    → IsValid p
    → let out = pipe_read killed copies n p in
      ((contents p ≡ [])
        × (p.write_open ≡ true)
        × (out.stop ≡ (if killed then failed else sleeping 0))
        × (out.pipe ≡ p)
        × (out.moved ≡ []))
      ⊎ ((contents p ≢ []) ⊎ (p.write_open ≡ false))
        × (out.stop ≡ returned (length out.moved))
        × (out.moved ≡ take n (contents p))
        × (contents p ≡ out.moved ++ contents out.pipe)
unfolding pipe_read
pipe_read_lem killed copies n {p} good v = elim (Bool-cases ((p.r == p.w) && p.write_open)) [
  | inl waits ↦ rw waits (inl (contents_of_eq v (ground arith), ground arith, refl, refl, refl))
  | inr goes ↦
      rw goes (
        inr
          (nonempty goes, refl, read_loop-take copies n 0 good v, read_loop_split copies n good v))
]
  where
    nonempty : ((p.r == p.w) && p.write_open) ≡ false → (contents p ≢ []) ⊎ (p.write_open ≡ false)
    nonempty h = elim (Bool-cases (p.r == p.w)) [
      | inl e ↦ inr (ground arith)
      | inr ne ↦ inl (λ q. cc (contents_of_ne v ne))
    ]

-- A `copy_out` that fails drops a byte: it leaves the pipe, is not delivered and is not counted.
pub pipe_read_fault :
    (n : ℕ) {p : Pipe}
    → IsValid p
    → contents p ≢ []
    → let out = pipe_read false (λ _. false) (suc n) p in
      (out.stop ≡ returned 0) × (out.moved ≡ []) × (contents p ≡ p.ring p.r ∷ contents out.pipe)
unfolding pipe_read read_loop
pipe_read_fault n {p} v ne = elim (Bool-cases (p.r == p.w)) [
  | inl e ↦ absurd (ne (contents_of_eq v e))
  | inr h ↦ rw h (refl, refl, contents_of_ne v h)
]

-- From byte `i` on, a run of `pipe_write` appends to the pipe the bytes that it reads from the source,
-- in order, and nothing else. It returns after all `n` bytes or at the first byte that `copy_in`
-- cannot read, waits only when the ring is full and the read end open, and fails only when the read
-- end is closed or the process killed.
pub pipe_write-Wrote :
    (killed : ℕ → Bool) (src : ℕ → Option ℕ) (n i : ℕ) {p : Pipe}
    → IsValid p
    → i ≤ n
    → Wrote killed src n i p (pipe_write killed src n i p)
unfolding pipe_write
pipe_write-Wrote killed src n i v h = write_loop-Wrote killed src (n - i) i n v (omega arith)

-- Whatever a run of `pipe_write` does, what it moves is appended.
pipe_write_appends :
    (killed : ℕ → Bool) (src : ℕ → Option ℕ) (n i : ℕ) {p : Pipe}
    → IsValid p
    → let out = pipe_write killed src n i p in
      IsValid out.pipe × (contents out.pipe ≡ contents p ++ out.moved)
unfolding pipe_write
pipe_write_appends killed src n i v =
    let wrote = write_loop-Wrote killed src (n - i) i (i + (n - i)) v refl in
    (wrote.valid, wrote.appended)

-- `pipe_close` shuts one end and wakes the other, leaves the bytes, and frees the pipe exactly when
-- both ends are shut.
pub pipe_close_lem :
    (p : Pipe) (writable : Bool)
    → let (q, woken, freed) = pipe_close p writable in
      (q ≡ (if writable then record p { write_open = false } else record p { read_open = false }))
      × (woken ≡ (if writable then readers else writers) ∷ [])
      × ((freed ≡ true) ↔ ((q.read_open ≡ false) × (q.write_open ≡ false)))
unfolding pipe_close
pipe_close_lem p true = (refl, refl, ((λ h. ground arith), (λ h. ground arith)))
pipe_close_lem p false = (refl, refl, ((λ h. ground arith), (λ h. ground arith)))

-- A valid pipe holds at most `pipe_size - 1` bytes, and exactly that many when it is full.
pub length-contents :
    {p : Pipe}
    → IsValid p
    → (length (contents p) < pipe_size)
      × ((is_full p ≡ true) ↔ (length (contents p) + 1 ≡ pipe_size))
length-contents {p} v =
    let e : length (contents p) ≡ count p = length-window p.ring p.r (count p) in
    (omega arith, ((λ h. ground arith), (λ h. ground arith)))

-- The calls of the processes that share a pipe, each a run between two waits.
pub data Action : Type 0 where
  reads : Bool → (ℕ → Bool) → ℕ → Action
  writes : (ℕ → Bool) → (ℕ → Option ℕ) → ℕ → ℕ → Action
  closes : Bool → Action

pub record History : Type 0 where
  pub sent : List ℕ
  pub received : List ℕ
  pub final : Pipe

-- No `copy_out` of a read fails: `copies i` says whether that of byte `i` succeeds.
abbrev pub NoFault : List Action → Type 0
NoFault [] = Unit {0}
NoFault (reads killed copies n ∷ later) = ((i : ℕ) → copies i ≡ true) × NoFault later
NoFault (writes killed src n i ∷ later) = NoFault later
NoFault (closes writable ∷ later) = NoFault later

-- The runs in order.
pub run : Pipe → List Action → History
run p [] = record { sent = []; received = []; final = p }
run p (reads killed copies n ∷ later) =
    let out = pipe_read killed copies n p in
    let rest = run out.pipe later in record rest { received = out.moved ++ rest.received }
run p (writes killed src n i ∷ later) =
    let out = pipe_write killed src n i p in
    let rest = run out.pipe later in record rest { sent = out.moved ++ rest.sent }
run p (closes writable ∷ later) = run (pipe_close p writable).0 later

-- Whatever the order of the calls, when no `copy_out` of a read fails: the bytes received, followed by
-- those still in the pipe, are the bytes that were in the pipe at first, followed by the bytes sent.
pub run_stream :
    (actions : List Action) {p : Pipe}
    → IsValid p
    → NoFault actions
    → let h = run p actions in
      (h.received ++ contents h.final ≡ contents p ++ h.sent) × IsValid h.final
unfolding run pipe_close
run_stream [] {p} v fine = (sym (append-nil (contents p)), v)
run_stream (reads killed copies n ∷ later) {p} v (good, fine) =
    let out = pipe_read killed copies n p in
    let rest = run_stream later (pipe_read-IsValid killed copies n v) fine in
    let h = run out.pipe later in
    (
      append_assoc out.moved h.received (contents h.final)
          ∙ ap (◌++◌ out.moved) rest.0
          ∙ sym (append_assoc out.moved (contents out.pipe) h.sent)
          ∙ ap (λ l. l ++ h.sent) (sym (pipe_read_split killed copies n good v)),
      rest.1,
    )
run_stream (writes killed src n i ∷ later) {p} v fine =
    let out = pipe_write killed src n i p in
    let wrote = pipe_write_appends killed src n i v in
    let rest = run_stream later wrote.0 fine in
    let h = run out.pipe later in
    (rest.0 ∙ ap (λ l. l ++ h.sent) wrote.1 ∙ append_assoc (contents p) out.moved h.sent, rest.1)
run_stream (closes true ∷ later) {p} v fine =
    run_stream later {p = record p { write_open = false }} (omega arith) fine
run_stream (closes false ∷ later) {p} v fine =
    run_stream later {p = record p { read_open = false }} (omega arith) fine
