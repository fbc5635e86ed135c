-- ===== src/Log/Commit.antt =====
-- `commit`: a crash at any point keeps all blocks old or makes all of them new.
use oskernel.Prelude.{
  ltb, Bool-cases, update, update_self, update_ne, All, All-map, ℕ, zero, suc, ◌+◌, ◌<◌, ◌≡◌, refl,
  ap, ◌∙◌, subst, ◌≢◌, inl, inr, false, List, [], ◌∷◌, ◌++◌, arith, ℕ_discrete,
}
use oskernel.Log.{
  Block, Disk, Log, Io, Fs, log_block, copy_block, install_trans, write_log_header, clear, log_init,
  write_from, write_to_log, commit,
}
use oskernel.Log.Install.{
  Outside, Placed, NotFrom, Committed, Clean, Recoverable, install_trans_lem, write_log_header_disk,
  clear_header-Clean, write_log_header_bufs, install_from_bufs,
}
use oskernel.Log.Crash.{log_init_lem}

-- A log between two commits: its header on the disk is empty, and a block that is not in the log has
-- its contents on the disk.
pub record Settled (s : Fs) : Type 0 where
  pub placed : Placed s.lg
  pub none_logged : s.io.disk s.lg.start 0 ≡ 0
  pub flushed : (b : ℕ) → Outside s.lg b → NotFrom s.lg 0 b → s.io.disk b ≡ s.io.bufs b

-- `past` grew from `base` by disks of which `Q` holds.
abbrev Since : (Disk → Type 0) → List Disk → List Disk → Type 0
Since Q base past = (later : List Disk) × (past ≡ later ++ base) × All Q later

Since-grow :
    (Q : Disk → Type 0) (base past : List Disk) (d : Disk)
    → Q d
    → Since Q base past
    → Since Q base (d ∷ past)
Since-grow Q base past d q (later, e, all) = (d ∷ later, ap (◌∷◌ d) e, (q, all))

module _ (lg : Log) (old new : Disk) (wf : Placed lg) where
  record Writing (i : ℕ) (io : Io) : Type 0 where
    view : (b : ℕ) → Outside lg b → io.bufs b ≡ new b
    cached : (j : ℕ) → j < i → io.bufs (log_block lg j) ≡ new (lg.blocks j)
    written : (j : ℕ) → j < i → io.disk (log_block lg j) ≡ new (lg.blocks j)
    untouched : Clean lg old io.disk
    seen : All (Clean lg old) io.past

  copy_block-Writing :
      (i : ℕ) (io : Io)
      → i < lg.n
      → Writing i io
      → Writing (i + 1) (copy_block io (lg.blocks i) (log_block lg i))
  copy_block-Writing i io h v =
      let to = log_block lg i in
      let from = io.bufs (lg.blocks i) in
      let fresh : from ≡ new (lg.blocks i) = v.view (lg.blocks i) (wf.outs i h) in
      let put = update io.bufs to from in
      let untouched' : Clean lg old (update io.disk to (put to)) = record {
        none_logged =
            ap (λ (b : Block). b 0)
              (update_ne io.disk to (put to) lg.start (λ q. omega (arith, wf.fits, wf.small)))
            ∙ v.untouched.none_logged;
        same = λ b ob.
            update_ne io.disk to (put to) b (λ q. omega (arith, wf.fits, wf.small))
            ∙ v.untouched.same b ob;
      } in
      record {
        view = λ b ob.
            update_ne io.bufs to from b (λ q. omega (arith, wf.fits, wf.small)) ∙ v.view b ob;
        cached = λ j hj. elim (ℕ_discrete i j) [
          | yes q ↦ rw (← q) (update_self io.bufs to from ∙ fresh)
          | no ne ↦
              update_ne io.bufs to from (log_block lg j)
                (λ q. ne (omega (arith, wf.fits, wf.small)))
              ∙ v.cached j (omega arith)
        ];
        written = λ j hj. elim (ℕ_discrete i j) [
          | yes q ↦ rw (← q) (update_self io.disk to (put to) ∙ update_self io.bufs to from ∙ fresh)
          | no ne ↦
              update_ne io.disk to (put to) (log_block lg j)
                (λ q. ne (omega (arith, wf.fits, wf.small)))
              ∙ v.written j (omega arith)
        ];
        untouched = untouched';
        seen = (untouched', v.seen);
      }

  write_from-Writing :
      (k i : ℕ) (io : Io) → i + k ≡ lg.n → Writing i io → Writing lg.n (write_from lg k i io)
  unfolding write_from
  write_from-Writing zero i io e v =
      let e' : i ≡ lg.n = omega arith in subst (λ m. Writing m io) e' v
  write_from-Writing (suc k) i io e v =
      write_from-Writing k (i + 1) (copy_block io (lg.blocks i) (log_block lg i)) (omega arith)
        (copy_block-Writing i io (omega arith) v)

  -- The write of the header makes the transaction permanent.
  header-Committed :
      (io : Io)
      → ((b : ℕ) → Outside lg b → NotFrom lg 0 b → old b ≡ new b)
      → Writing lg.n io
      → Committed lg new (write_log_header lg io).disk
  header-Committed io flushed v =
      let w = write_log_header_disk lg io in
      record {
        header = w.0;
        logged =
            λ j hj. w.1 (log_block lg j) (λ q. omega (arith, wf.fits, wf.small)) ∙ v.written j hj;
        rest = λ b ob nb.
            w.1 b (λ q. omega (arith, wf.fits)) ∙ v.untouched.same b ob ∙ flushed b ob nb;
      }

-- After a crash that leaves the disk `d`, `log_init` restores the contents `new` outside the log.
abbrev pub RecoversTo : Log → Disk → Disk → Type 0
RecoversTo lg new d = (b : ℕ) → Outside lg b → (log_init lg.start lg.size d).io.disk b ≡ new b

Recoverable-RecoversTo :
    (lg : Log) (new d : Disk) → Placed lg → Recoverable lg new d → RecoversTo lg new d
Recoverable-RecoversTo lg new d wf r = (log_init_lem lg new d wf r).0.same

-- The disks of `past` (newest first) are split by one moment: a crash before it restores `old`, a
-- crash after it restores `new`.
pub record Atomic (lg : Log) (old new : Disk) (past : List Disk) : Type 0 where
  pub after : List Disk
  pub before : List Disk
  pub split : past ≡ after ++ before
  pub kept : All (RecoversTo lg old) before
  pub durable : All (RecoversTo lg new) after

-- What `commit` leaves behind it.
pub record Done (s s' : Fs) : Type 0 where
  pub empty : s'.lg ≡ clear s.lg
  pub in_place : (b : ℕ) → Outside s.lg b → s'.io.disk b ≡ s.io.bufs b
  pub view : (b : ℕ) → Outside s.lg b → s'.io.bufs b ≡ s.io.bufs b
  pub none_logged : s'.io.disk s.lg.start 0 ≡ 0
  pub atomic : Atomic s.lg s.io.disk s.io.bufs s'.io.past

-- The committing branch, from the disk and buffers after `write_to_log`.
commit_logged :
    (s : Fs) (io : Io) (t : Settled s)
    → Writing s.lg s.io.disk s.io.bufs t.placed s.lg.n io
    → let logged = write_log_header s.lg io in
      Done s (record {
        lg = clear s.lg;
        io = write_log_header (clear s.lg) (install_trans false s.lg logged);
      })
unfolding install_trans
commit_logged s io t v =
    let lg = s.lg in
    let wf = t.placed in
    let new = s.io.bufs in
    let logged = write_log_header lg io in
    let c = header-Committed lg s.io.disk new wf io t.flushed v in
    let wrote = write_log_header_disk lg io in
    let off : (b : ℕ) → Outside lg b → b ≢ lg.start = λ b ob q. omega (arith, wf.fits) in
    let cached : (j : ℕ) → j < lg.n → logged.bufs (log_block lg j) ≡ new (lg.blocks j) = λ j hj.
      write_log_header_bufs lg io (log_block lg j) (λ q. omega (arith, wf.fits, wf.small))
      ∙ v.cached j hj in
    let S = Since (Recoverable lg new) io.past in
    let (_, same, seen) =
      install_trans_lem lg new wf S
        (λ d past q. Since-grow (Recoverable lg new) io.past past d (inl q)) false logged c cached
        (rw (wrote.2)
          (Since-grow (Recoverable lg new) io.past io.past logged.disk (inl c) ([], refl, tt))) in
    let installed = install_trans false lg logged in
    let clean = clear_header-Clean lg new installed (omega (arith, wf.fits)) same in
    let last = write_log_header_disk (clear lg) installed in
    let final = write_log_header (clear lg) installed in
    let (later, e, all) =
      Since-grow (Recoverable lg new) io.past installed.past final.disk (inr clean) seen in
    record {
      empty = refl;
      in_place = clean.same;
      view = λ b ob.
          write_log_header_bufs (clear lg) installed b (off b ob)
          ∙ install_from_bufs false lg new lg.n 0 logged wf (omega arith) cached
              (λ b' ob'. write_log_header_bufs lg io b' (off b' ob') ∙ v.view b' ob') b ob;
      none_logged = clean.none_logged;
      atomic = record {
        after = later;
        before = io.past;
        split = last.2 ∙ e;
        kept =
            All-map (Clean lg s.io.disk) (RecoversTo lg s.io.disk) io.past
              (λ d q. Recoverable-RecoversTo lg s.io.disk d wf (inr q)) v.seen;
        durable =
            All-map (Recoverable lg new) (RecoversTo lg new) later
              (λ d q. Recoverable-RecoversTo lg new d wf q) all;
      };
    }

-- `commit` of a settled log puts the contents of all buffers outside the log in place, keeps the
-- buffers, and leaves an empty log. Whenever the machine stops on the way, recovery restores either
-- all the old contents of the disk or all the new ones, and the new ones from one moment on.
pub commit_lem : (s : Fs) → Settled s → s.io.past ≡ s.io.disk ∷ [] → Done s (commit s)
unfolding commit write_to_log
commit_lem s t fresh = elim (Bool-cases (ltb 0 s.lg.n)) [
  | inl some_logged ↦ rw some_logged (
      commit_logged s (write_to_log s.lg s.io) t (
        write_from-Writing s.lg s.io.disk s.io.bufs t.placed s.lg.n 0 s.io (omega arith) (record {
          view = λ b ob. refl;
          cached = λ j h. absurd (omega arith);
          written = λ j h. absurd (omega arith);
          untouched = start;
          seen = rw fresh (start, tt);
        })))
  | inr none_left ↦ rw none_left (record {
    empty = ground arith;
    in_place = λ b ob. t.flushed b ob (λ j lo hi. absurd (ground arith));
    view = λ b ob. refl;
    none_logged = t.none_logged;
    atomic = record {
      after = [];
      before = s.io.past;
      split = refl;
      kept = rw fresh (Recoverable-RecoversTo s.lg s.io.disk s.io.disk t.placed (inr start), tt);
      durable = tt;
    };
  })
]
  where
    start : Clean s.lg s.io.disk s.io.disk
    start = record { none_logged = t.none_logged; same = λ b ob. refl }
