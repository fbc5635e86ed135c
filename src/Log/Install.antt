-- ===== src/Log/Install.antt =====
-- `install_trans` and `recover_from_log`: from a disk whose log is committed, every block outside the
-- log gets its new contents, and a crash on the way leaves a disk from which recovery does the same.
use oskernel.Prelude.{
  update, update_self, update_ne, ℕ, zero, suc, ◌+◌, ◌^◌, ◌≤◌, ◌<◌, ◌≡◌, refl, sym, ◌∙◌, subst, ◌≢◌,
  ◌⊎◌, Bool, List, ◌∷◌, arith, ℕ_discrete,
}
use oskernel.Log.{
  Block, Disk, Log, Io, log_block, install_one, install_from, install_trans, write_blocks,
  write_log_header, clear,
}
use oskernel.Log.Header.{Holds, write_blocks-Holds}

-- Outside the header and the blocks of the log.
abbrev pub Outside : Log → ℕ → Type 0
Outside lg b = (b < lg.start) ⊎ (lg.start + lg.size ≤ b)

-- The log has room for its blocks, which belong elsewhere.
pub record Placed (lg : Log) : Type 0 where
  pub fits : lg.n < lg.size
  pub small : lg.start + lg.size ≤ 2 ^ 32
  pub outs : (j : ℕ) → j < lg.n → Outside lg (lg.blocks j)

-- `b` is not one of the blocks in the log from entry `i` on.
abbrev pub NotFrom : Log → ℕ → ℕ → Type 0
NotFrom lg i b = (j : ℕ) → i ≤ j → j < lg.n → lg.blocks j ≢ b

-- The header on the disk is that of `lg`, and the disk has the new contents: in the log for the
-- blocks that the header names, in place for the others.
pub record Committed (lg : Log) (new d : Disk) : Type 0 where
  pub header : Holds lg (d lg.start)
  pub logged : (j : ℕ) → j < lg.n → d (log_block lg j) ≡ new (lg.blocks j)
  pub rest : (b : ℕ) → Outside lg b → NotFrom lg 0 b → d b ≡ new b

-- The log on the disk is empty, and the disk has the contents `new`.
pub record Clean (lg : Log) (new d : Disk) : Type 0 where
  pub none_logged : d lg.start 0 ≡ 0
  pub same : (b : ℕ) → Outside lg b → d b ≡ new b

abbrev pub Recoverable : Log → Disk → Disk → Type 0
Recoverable lg new d = Committed lg new d ⊎ Clean lg new d

module _ (lg : Log) (new : Disk) (wf : Placed lg) where
  -- Writing a block outside the log with its new contents keeps a committed disk committed.
  Committed-update :
      (d : Disk) (i : ℕ) (block : Block)
      → i < lg.n
      → block ≡ new (lg.blocks i)
      → Committed lg new d
      → Committed lg new (update d (lg.blocks i) block)
  Committed-update d i block h e c =
      let home = lg.blocks i in
      let out = wf.outs i h in
      record {
        header = rw (update_ne d home block lg.start (λ q. omega (arith, wf.fits, out))) c.header;
        logged = λ j hj.
            update_ne d home block (log_block lg j) (λ q. omega (arith, wf.fits, wf.small, out))
            ∙ c.logged j hj;
        rest = λ b ob nb. update_ne d home block b (nb i (omega arith) h) ∙ c.rest b ob nb;
      }

  -- `S` is what is kept of the past: it grows by committed disks only.
  module _ (S : List Disk → Type 0)
      (grow : (d : Disk) (past : List Disk) → Committed lg new d → S past → S (d ∷ past)) where
    record Installing (i : ℕ) (io : Io) : Type 0 where
      committed : Committed lg new io.disk
      cached : (j : ℕ) → j < lg.n → io.bufs (log_block lg j) ≡ new (lg.blocks j)
      done : (b : ℕ) → Outside lg b → NotFrom lg i b → io.disk b ≡ new b
      seen : S io.past

    install_one-Installing :
        (recovering : Bool) (i : ℕ) (io : Io)
        → i < lg.n
        → Installing i io
        → Installing (i + 1) (install_one recovering lg i io)
    install_one-Installing recovering i io h v =
        let home = lg.blocks i in
        let from = io.bufs (log_block lg i) in
        let written : update io.bufs home from home ≡ new home =
          update_self io.bufs home from ∙ v.cached i h in
        let next' : Committed lg new (update io.disk home (update io.bufs home from home)) =
          Committed-update io.disk i _ h written v.committed in
        record {
          committed = next';
          cached = λ j hj.
              update_ne io.bufs home from (log_block lg j)
                (λ q. omega (arith, wf.fits, wf.small, wf.outs i h))
              ∙ v.cached j hj;
          done = λ b ob nb. elim (ℕ_discrete home b) [
            | yes e ↦ rw (← e) (update_self io.disk home _ ∙ written)
            | no ne ↦
                update_ne io.disk home _ b ne
                ∙ v.done b ob (λ j lo hi. elim (ℕ_discrete i j) [
                  | yes q ↦ rw (← q) ne
                  | no q ↦ nb j (omega arith) hi
                ])
          ];
          seen = grow _ _ next' v.seen;
        }

    install_from-Installing :
        (recovering : Bool) (k i : ℕ) (io : Io)
        → i + k ≡ lg.n
        → Installing i io
        → Installing lg.n (install_from recovering lg k i io)
    unfolding install_from
    install_from-Installing recovering zero i io e v =
        let e' : i ≡ lg.n = omega arith in subst (λ m. Installing m io) e' v
    install_from-Installing recovering (suc k) i io e v =
        install_from-Installing recovering k (i + 1) (install_one recovering lg i io) (omega arith)
          (install_one-Installing recovering i io (omega arith) v)

    -- After the last round all blocks outside the log are new, and the log is still committed.
    pub install_trans_lem :
        (recovering : Bool) (io : Io)
        → Committed lg new io.disk
        → ((j : ℕ) → j < lg.n → io.bufs (log_block lg j) ≡ new (lg.blocks j))
        → S io.past
        → let io' = install_trans recovering lg io in
          Committed lg new io'.disk × ((b : ℕ) → Outside lg b → io'.disk b ≡ new b) × S io'.past
    unfolding install_trans
    install_trans_lem recovering io c cached seen =
        let v =
          install_from-Installing recovering lg.n 0 io (omega arith)
            (record { committed = c; cached = cached; done = c.rest; seen = seen }) in
        (v.committed, (λ b ob. v.done b ob (λ j lo hi. absurd (omega arith))), v.seen)

-- Writing the header of a log touches no block outside it.
pub write_log_header_disk :
    (lg : Log) (io : Io)
    → let io' = write_log_header lg io in
      Holds lg (io'.disk lg.start)
      × ((b : ℕ) → b ≢ lg.start → io'.disk b ≡ io.disk b)
      × (io'.past ≡ io'.disk ∷ io.past)
unfolding write_log_header
write_log_header_disk lg io =
    let h = write_blocks-Holds lg (io.bufs lg.start) in
    let header = write_blocks lg.blocks lg.n 0 (update (io.bufs lg.start) 0 lg.n) in
    (
      rw (update_self io.disk lg.start (update io.bufs lg.start header lg.start))
          (rw (update_self io.bufs lg.start header) h),
      (λ b ne. update_ne io.disk lg.start _ b (λ q. ne (sym q))),
      refl,
    )

-- An empty header on a disk with the new contents makes it clean.
pub clear_header-Clean :
    (lg : Log) (new : Disk) (io : Io)
    → 0 < lg.size
    → ((b : ℕ) → Outside lg b → io.disk b ≡ new b)
    → Clean lg new (write_log_header (clear lg) io).disk
clear_header-Clean lg new io pos same =
    let w = write_log_header_disk (clear lg) io in
    record { none_logged = w.0.count; same = λ b ob. w.1 b (λ q. omega arith) ∙ same b ob }

-- `write_log_header` changes no other buffer either.
pub write_log_header_bufs :
    (lg : Log) (io : Io) (b : ℕ) → b ≢ lg.start → (write_log_header lg io).bufs b ≡ io.bufs b
unfolding write_log_header
write_log_header_bufs lg io b ne =
    let block = write_blocks lg.blocks lg.n 0 (update (io.bufs lg.start) 0 lg.n) in
    update_ne io.bufs lg.start block b (λ q. ne (sym q))

-- Installing blocks whose buffers are new leaves all buffers outside the log as they are.
pub install_from_bufs :
    (recovering : Bool) (lg : Log) (new : Disk) (k i : ℕ) (io : Io)
    → Placed lg
    → i + k ≡ lg.n
    → ((j : ℕ) → j < lg.n → io.bufs (log_block lg j) ≡ new (lg.blocks j))
    → ((b : ℕ) → Outside lg b → io.bufs b ≡ new b)
    → (b : ℕ) → Outside lg b
    → (install_from recovering lg k i io).bufs b ≡ new b
unfolding install_from
install_from_bufs recovering lg new zero i io wf e cached view = view
install_from_bufs recovering lg new (suc k) i io wf e cached view =
    let home = lg.blocks i in
    let from = io.bufs (log_block lg i) in
    let h : i < lg.n = omega arith in
    install_from_bufs recovering lg new k (i + 1) (install_one recovering lg i io) wf (omega arith)
      (λ j hj.
        update_ne io.bufs home from (log_block lg j)
          (λ q. omega (arith, wf.fits, wf.small, wf.outs i h))
        ∙ cached j hj)
      (λ b ob. elim (ℕ_discrete home b) [
        | yes q ↦ rw (← q) (update_self io.bufs home from ∙ cached i h)
        | no ne ↦ update_ne io.bufs home from b ne ∙ view b ob
      ])
