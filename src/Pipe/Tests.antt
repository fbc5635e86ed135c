-- ===== src/Pipe/Tests.antt =====
-- Tests of the pipe, and its theorems at concrete inputs.
use oskernel.Prelude.{
  ltb, ◌==◌, if◌then◌else◌, length, take, ℕ, ◌+◌, ◌<◌, ◌≡◌, refl, ◌≢◌, ◌↔◌, ◌⊎◌, true, false,
  Option, none, some, List, [], ◌∷◌, ◌++◌, arith,
}
use oskernel.Pipe.{
  pipe_size, Pipe, pipe_init, readers, failed, returned, sleeping, pipe_close, pipe_read, is_full,
  write_loop, pipe_write,
}
use oskernel.Pipe.Invariant.{IsValid, contents, Wrote}
use oskernel.Pipe.Stream.{
  pipe_read_lem, pipe_read_fault, pipe_write-Wrote, pipe_close_lem, length-contents, Action, reads,
  writes, closes, run, run_stream,
}

-- The bytes 5 and 6, round the end of the ring.
abbrev wrapped : Pipe
wrapped = record {
  r = 1023;
  w = 1;
  read_open = true;
  write_open = true;
  ring = λ i. if i == 1023 then 5 else if i == 0 then 6 else 0;
}

wrapped-IsValid : IsValid wrapped
wrapped-IsValid = omega arith

contents-wrapped : contents wrapped ≡ 5 ∷ 6 ∷ []
contents-wrapped = refl

contents_after_init : contents (pipe_init (λ _. 9)) ≡ []
unfolding pipe_init
contents_after_init = refl

abbrev source : ℕ → Option ℕ
source i = if ltb i 2 then some (i + 7) else none

two_then_fault : (pipe_write (λ _. false) source 3 0 wrapped).stop ≡ returned 2
unfolding pipe_write write_loop
two_then_fault = refl

pipe_read_lem_example :
    let out = pipe_read false (λ _. true) 1 wrapped in
    ((contents wrapped ≡ [])
      × (wrapped.write_open ≡ true)
      × (out.stop ≡ (if false then failed else sleeping 0))
      × (out.pipe ≡ wrapped)
      × (out.moved ≡ []))
    ⊎ ((contents wrapped ≢ []) ⊎ (wrapped.write_open ≡ false))
      × (out.stop ≡ returned (length out.moved))
      × (out.moved ≡ take 1 (contents wrapped))
      × (contents wrapped ≡ out.moved ++ contents out.pipe)
pipe_read_lem_example = pipe_read_lem false (λ _. true) 1 (λ _. refl) wrapped-IsValid

pipe_read_fault_example :
    let out = pipe_read false (λ _. false) 1 wrapped in
    (out.stop ≡ returned 0) × (out.moved ≡ []) × (5 ∷ 6 ∷ [] ≡ 5 ∷ contents out.pipe)
pipe_read_fault_example = pipe_read_fault 0 wrapped-IsValid (λ e. cc)

pipe_write-Wrote_example :
    Wrote (λ _. false) source 3 0 wrapped (pipe_write (λ _. false) source 3 0 wrapped)
pipe_write-Wrote_example = pipe_write-Wrote (λ _. false) source 3 0 wrapped-IsValid (omega arith)

length-contents_example :
    (length (contents wrapped) < pipe_size)
    × ((is_full wrapped ≡ true) ↔ (length (contents wrapped) + 1 ≡ pipe_size))
length-contents_example = length-contents wrapped-IsValid

pipe_close_lem_example :
    let (q, woken, freed) = pipe_close (record wrapped { read_open = false }) true in
    (q ≡ record wrapped { read_open = false; write_open = false })
    × (woken ≡ readers ∷ [])
    × ((freed ≡ true) ↔ ((q.read_open ≡ false) × (q.write_open ≡ false)))
pipe_close_lem_example = pipe_close_lem (record wrapped { read_open = false }) true

abbrev script : List Action
script =
    writes (λ _. false) source 2 0
    ∷ reads false (λ _. true) 3
    ∷ closes true
    ∷ reads false (λ _. true) 9
    ∷ []

run_stream_example :
    let h = run wrapped script in
    (h.received ++ contents h.final ≡ 5 ∷ 6 ∷ h.sent) × IsValid h.final
run_stream_example = run_stream script wrapped-IsValid ((λ i. refl), ((λ i. refl), tt))
