-- ===== src/Log/Crash.antt =====
-- Crashes: `log_init` after a crash during recovery or during `commit`.
use oskernel.Prelude.{
  All, All-map, ℕ, ◌<◌, ◌≡◌, refl, sym, ◌∙◌, inl, inr, true, false, [], ◌∷◌, arith,
}
use oskernel.Log.{
  Disk, Log, Io, install_trans, read_blocks, read_log_header, clear, recover_from_log, log_init,
}
use oskernel.Log.Header.{read_blocks_lem, Holds}
use oskernel.Log.Install.{
  Outside, Placed, Committed, Clean, Recoverable, install_trans_lem, write_log_header_disk,
  clear_header-Clean,
}

-- Two logs with the same place and the same entries.
record Agree (lg lg' : Log) : Type 0 where
  start : lg.start ≡ lg'.start
  size : lg.size ≡ lg'.size
  n : lg.n ≡ lg'.n
  blocks : (j : ℕ) → j < lg.n → lg.blocks j ≡ lg'.blocks j

Agree-sym : {lg lg' : Log} → Agree lg lg' → Agree lg' lg
Agree-sym a = record {
  start = sym a.start;
  size = sym a.size;
  n = sym a.n;
  blocks = λ j h. sym (a.blocks j (omega (arith, a.n)));
}

Agree-Outside : {lg lg' : Log} (b : ℕ) → Agree lg lg' → Outside lg' b → Outside lg b
Agree-Outside b a o = omega (arith, a.start, a.size)

Agree-Placed : {lg lg' : Log} → Agree lg lg' → Placed lg → Placed lg'
Agree-Placed a wf = record {
  fits = omega (arith, a.n, a.size, wf.fits);
  small = omega (arith, a.start, a.size, wf.small);
  outs = λ j h.
      let h' = wf.outs j (omega (arith, a.n)) in
      let e = a.blocks j (omega (arith, a.n)) in omega (arith, h', e, a.start, a.size);
}

Agree-Committed :
    {lg lg' : Log} {new d : Disk} → Agree lg lg' → Committed lg new d → Committed lg' new d
Agree-Committed {lg} {lg'} {new} {d} a c = record {
  header = record {
    count = rw (← a.start) (c.header.count ∙ a.n);
    entries = λ j h.
        let h' : j < lg.n = omega (arith, a.n) in
        rw (← a.start) (c.header.entries j h' ∙ a.blocks j h');
  };
  logged = λ j h.
      let h' : j < lg.n = omega (arith, a.n) in rw (← a.start, ← a.blocks j h') (c.logged j h');
  rest = λ b ob nb.
      c.rest b (Agree-Outside b a ob)
        (λ j lo hi e. nb j lo (omega (arith, a.n)) (sym (a.blocks j hi) ∙ e));
}

Agree-Clean : {lg lg' : Log} {new d : Disk} → Agree lg lg' → Clean lg new d → Clean lg' new d
Agree-Clean {d} a c = record {
  none_logged = rw (← a.start) c.none_logged;
  same = λ b ob. c.same b (Agree-Outside b a ob);
}

-- The log that `read_log_header` makes after a boot from `d`.
abbrev reread : ℕ → ℕ → Disk → Log
reread start size d = record {
  start = start;
  size = size;
  outstanding = 0;
  committing = false;
  n = d start 0;
  blocks = read_blocks (d start) (d start 0) 0 (λ _. 0);
}

reread-Agree : (lg : Log) (d : Disk) → Holds lg (d lg.start) → Agree lg (reread lg.start lg.size d)
reread-Agree lg d h = record {
  start = refl;
  size = refl;
  n = sym h.count;
  blocks = λ j hj.
      sym (h.entries j hj)
      ∙ ground (arith, read_blocks_lem (d lg.start) (d lg.start 0) 0 (λ _. 0) j, h.count);
}

recover_reread :
    (start size : ℕ) (new d : Disk)
    → let lg = reread start size d in
      Placed lg
      → Committed lg new d
      → let s = log_init start size d in Clean lg new s.io.disk × All (Recoverable lg new) s.io.past
unfolding log_init recover_from_log read_log_header
recover_reread start size new d wf c =
    let lg = reread start size d in
    let io : Io = record { disk = d; bufs = d; pins = λ _. 0; past = d ∷ [] } in
    let (_, same, seen) =
      install_trans_lem lg new wf (All (Recoverable lg new)) (λ d' past q h. (inl q, h)) true io c
        c.logged (inl c, tt) in
    let io' = install_trans true lg io in
    let clean = clear_header-Clean lg new io' (omega (arith, wf.fits)) same in
    (clean, rw ((write_log_header_disk (clear lg) io').2) (inr clean, seen))

-- Recovery from a disk whose log is empty or committed ends with the new contents in place and an
-- empty log. Every disk that a crash on the way can leave is again such a disk, with the same new
-- contents, so recovery may be cut short and started again any number of times.
pub log_init_lem :
    (lg : Log) (new d : Disk)
    → Placed lg
    → Recoverable lg new d
    → let s = log_init lg.start lg.size d in
      Clean lg new s.io.disk × All (Recoverable lg new) s.io.past
log_init_lem lg new d wf (inl c) =
    let a = reread-Agree lg d c.header in
    let r = recover_reread lg.start lg.size new d (Agree-Placed a wf) (Agree-Committed a c) in
    let back = Agree-sym a in
    (
      Agree-Clean back r.0,
      All-map (Recoverable (reread lg.start lg.size d) new) (Recoverable lg new) _
          (λ d' r'. elim r' [
            | inl c' ↦ inl (Agree-Committed back c')
            | inr c' ↦ inr (Agree-Clean back c')
          ])
          r.1,
    )
log_init_lem lg new d wf (inr c) =
    let lg' = reread lg.start lg.size d in
    let wf' : Placed lg' = record {
      fits = omega (arith, c.none_logged, wf.fits);
      small = wf.small;
      outs = λ j h. absurd (omega (arith, c.none_logged));
    } in
    let c' : Committed lg' new d = record {
      header = record { count = refl; entries = λ j h. absurd (omega (arith, c.none_logged)) };
      logged = λ j h. absurd (omega (arith, c.none_logged));
      rest = λ b ob nb. c.same b ob;
    } in
    let r = recover_reread lg.start lg.size new d wf' c' in
    let keep : (d' : Disk) → Clean lg' new d' → Clean lg new d' =
      λ d' q. record { none_logged = q.none_logged; same = q.same } in
    (
      keep _ r.0,
      All-map (Recoverable lg' new) (Recoverable lg new) _
          (λ d' r'. elim r' [
            | inl q ↦ inr (record {
              none_logged = q.header.count ∙ c.none_logged;
              same = λ b ob. q.rest b ob (λ j lo hi. absurd (omega (arith, c.none_logged)));
            })
            | inr q ↦ inr (keep d' q)
          ])
          r.1,
    )
