-- ===== src/Log/Write.antt =====
-- `log_write`: each block stands in the log once, is pinned once, and the log stays settled.
use Prim.Native.String.{String}
use oskernel.Prelude.{
  ltb, leb, ◌==◌, ==_iff, Bool-cases, update, update_self, update_ne, Run, ok, panic, ℕ, zero, suc,
  ◌+◌, ◌-◌, ◌%◌, ◌^◌, ◌≤◌, ◌<◌, ◌≡◌, refl, sym, ap, ◌∙◌, ◌≢◌, ◌⊎◌, inl, inr, true, false, arith,
  ℕ_discrete,
}
use oskernel.Log.{Block, Log, Fs, set_buf, find_slot, log_write}
use oskernel.Log.Install.{Outside, NotFrom}
use oskernel.Log.Commit.{Settled}

-- The search ends at the first entry for `b`, or at the end.
record Found (blocks : ℕ → ℕ) (b end i k : ℕ) : Type 0 where
  lower : i ≤ k
  upper : k ≤ end
  hit : k < end → blocks k ≡ b
  missed : (j : ℕ) → i ≤ j → j < k → blocks j ≢ b

find_slot-Found :
    (blocks : ℕ → ℕ) (b k i end : ℕ) → i + k ≡ end → Found blocks b end i (find_slot blocks b k i)
unfolding find_slot
find_slot-Found blocks b zero i end e = record {
  lower = omega arith;
  upper = omega arith;
  hit = λ h. absurd (omega arith);
  missed = λ j lo hi. absurd (omega arith);
}
find_slot-Found blocks b (suc k) i end e = elim (Bool-cases (blocks i == b)) [
  | inl same ↦ rw same (record {
    lower = omega arith;
    upper = omega arith;
    hit = λ h. (==_iff _ _).0 same;
    missed = λ j lo hi. absurd (omega arith);
  })
  | inr other ↦
      let rest = find_slot-Found blocks b k (i + 1) end (omega arith) in
      let ne : blocks i ≢ b = λ q. ground arith in
      rw other (record {
        lower = omega (arith, rest.lower);
        upper = rest.upper;
        hit = rest.hit;
        missed = λ j lo hi. elim (ℕ_discrete i j) [
          | yes q ↦ rw (← q) ne
          | no q ↦ rest.missed j (omega arith) hi
        ];
      })
]

-- The last entry that the log may use: `lg.size - 1`.
abbrev pub HasRoom : Log → Type 0
HasRoom lg = (0 < lg.size) × (lg.size ≤ 2 ^ 32) × (lg.n + 1 < lg.size)

abbrev pub same_entry : Fs → ℕ → ℕ → Fs
same_entry s b i = record s { lg = record (s.lg) { blocks = update s.lg.blocks i b } }

abbrev pub new_entry : Fs → ℕ → Fs
new_entry s b = record {
  lg = record (s.lg) { n = s.lg.n + 1; blocks = update s.lg.blocks s.lg.n b };
  io = record (s.io) { pins = update s.io.pins b (s.io.pins b + 1) };
}

-- What `log_write` of `b` does to the log and the pins: it finds `b` in the log and writes its number
-- there again, or it appends a new entry and pins the buffer.
pub data Logs (b : ℕ) (s s' : Fs) : Type 0 where
  absorbed : (i : ℕ) → i < s.lg.n → s.lg.blocks i ≡ b → s' ≡ same_entry s b i → Logs b s s'
  appended : NotFrom s.lg 0 b → s' ≡ new_entry s b → Logs b s s'

-- With an operation begun and room in the log, `log_write` succeeds.
pub log_write-Logs :
    (s : Fs) (b : ℕ)
    → HasRoom s.lg
    → 0 < s.lg.outstanding
    → (s' : Fs) × (log_write s b ≡ ok s') × Logs b s s'
unfolding log_write
log_write-Logs s b room begun =
    let lg = s.lg in
    let found = find_slot-Found lg.blocks b lg.n 0 lg.n (omega arith) in
    let fits : leb ((lg.size + 2 ^ 32 - 1) % 2 ^ 32) lg.n ≡ false = ground arith in
    let inside : ltb lg.outstanding 1 ≡ false = ground arith in
    elim (Bool-cases (find_slot lg.blocks b lg.n 0 == lg.n)) [
      | inl end ↦
          let e : find_slot lg.blocks b lg.n 0 ≡ lg.n = (==_iff _ _).0 end in
          (
            new_entry s b,
            rw (fits, inside, end, e),
            appended (λ j lo hi. found.missed j lo (omega arith)) refl,
          )
      | inr hit ↦
          let slot = find_slot lg.blocks b lg.n 0 in
          let h : slot < lg.n = ground (arith, found.upper) in
          (same_entry s b slot, rw (fits, inside, hit), absorbed slot h (found.hit h) refl)
    ]

-- `log_write` panics exactly when the log has no room or no operation has begun.
pub log_write_panics :
    (s : Fs) (b : ℕ)
    → 0 < s.lg.size
    → s.lg.size ≤ 2 ^ 32
    → (s.lg.size ≤ s.lg.n + 1) ⊎ (s.lg.outstanding ≡ 0)
    → (message : String) × (log_write s b ≡ panic message)
unfolding log_write
log_write_panics s b pos small bad =
    elim (Bool-cases (leb ((s.lg.size + 2 ^ 32 - 1) % 2 ^ 32) s.lg.n)) [
      | inl full ↦ ("too big a transaction", rw full)
      | inr room ↦
          let none_begun : ltb s.lg.outstanding 1 ≡ true = ground arith in
          ("outside of transaction", rw (room, none_begun))
    ]

-- Each block stands in the log once, and exactly the logged blocks are pinned, once each.
pub record Pinned (s : Fs) : Type 0 where
  pub distinct : (i j : ℕ) → i < s.lg.n → j < s.lg.n → s.lg.blocks i ≡ s.lg.blocks j → i ≡ j
  pub one : (j : ℕ) → j < s.lg.n → s.io.pins (s.lg.blocks j) ≡ 1
  pub none : (b : ℕ) → NotFrom s.lg 0 b → s.io.pins b ≡ 0

new_entry-Pinned : (s : Fs) (b : ℕ) → NotFrom s.lg 0 b → Pinned s → Pinned (new_entry s b)
new_entry-Pinned s b fresh v = record {
  distinct = λ i j hi hj e. ground (arith, fresh i, fresh j, v.distinct i j);
  one = λ j h. ground (arith, fresh j, v.one j, v.none b fresh);
  none = λ c nc.
      let old : NotFrom s.lg 0 c = λ j lo hi q.
        nc j lo (omega arith) (update_ne s.lg.blocks s.lg.n b j (λ r. omega arith) ∙ q) in
      let ne : b ≢ c =
        λ q. nc s.lg.n (omega arith) (omega arith) (update_self s.lg.blocks s.lg.n b ∙ q) in
      update_ne s.io.pins b _ c ne ∙ v.none c old;
}

-- Writing a number over itself changes no entry.
same_entry-blocks :
    (s : Fs) (b i : ℕ)
    → s.lg.blocks i ≡ b
    → (j : ℕ) → (same_entry s b i).lg.blocks j ≡ s.lg.blocks j
same_entry-blocks s b i e j = ground arith

same_entry-Pinned : (s : Fs) (b i : ℕ) → s.lg.blocks i ≡ b → Pinned s → Pinned (same_entry s b i)
same_entry-Pinned s b i e v =
    let same = same_entry-blocks s b i e in
    record {
      distinct = λ j k hj hk q. v.distinct j k hj hk (sym (same j) ∙ q ∙ same k);
      one = λ j h. ap s.io.pins (same j) ∙ v.one j h;
      none = λ c nc. v.none c (λ j lo hi q. nc j lo hi (same j ∙ q));
    }

-- `log_write` keeps the log free of duplicates and pins exactly the logged buffers.
pub log_write-Pinned : {b : ℕ} {s s' : Fs} → Logs b s s' → Pinned s → Pinned s'
log_write-Pinned {b} {s} {s'} (absorbed i h e q) v = rw q (same_entry-Pinned s b i e v)
log_write-Pinned {b} {s} {s'} (appended fresh q) v = rw q (new_entry-Pinned s b fresh v)

-- The caller changes the block in its buffer, which it holds locked, and then logs it.
unfoldable pub write_block : Fs → ℕ → Block → Run Fs
write_block s b block = log_write (record s { io = set_buf s.io b block }) b

new_entry-Settled :
    (s : Fs) (b : ℕ) (block : Block)
    → Outside s.lg b
    → s.lg.n + 1 < s.lg.size
    → Settled s
    → Settled (new_entry (record s { io = set_buf s.io b block }) b)
new_entry-Settled s b block ob room t =
    let lg = s.lg in
    record {
      placed = record {
        fits = room;
        small = t.placed.small;
        outs = λ j h. elim (ℕ_discrete lg.n j) [
          | yes q ↦ rw (← q, update_self lg.blocks lg.n b) ob
          | no q ↦ rw (update_ne lg.blocks lg.n b j q) (t.placed.outs j (omega arith))
        ];
      };
      none_logged = t.none_logged;
      flushed = λ c oc nc.
          let old : NotFrom lg 0 c = λ j lo hi q.
            nc j lo (omega arith) (update_ne lg.blocks lg.n b j (λ r. omega arith) ∙ q) in
          let ne : b ≢ c =
            λ q. nc lg.n (omega arith) (omega arith) (update_self lg.blocks lg.n b ∙ q) in
          t.flushed c oc old ∙ sym (update_ne s.io.bufs b block c ne);
    }

same_entry-Settled :
    (s : Fs) (b i : ℕ) (block : Block)
    → i < s.lg.n
    → s.lg.blocks i ≡ b
    → Settled s
    → Settled (same_entry (record s { io = set_buf s.io b block }) b i)
same_entry-Settled s b i block h e t =
    let same = same_entry-blocks s b i e in
    record {
      placed = record {
        fits = t.placed.fits;
        small = t.placed.small;
        outs = λ j hj. rw (same j) (t.placed.outs j hj);
      };
      none_logged = t.none_logged;
      flushed = λ c oc nc.
          let old : NotFrom s.lg 0 c = λ j lo hi q. nc j lo hi (same j ∙ q) in
          let ne : b ≢ c = λ q. nc i (omega arith) h (same i ∙ e ∙ q) in
          t.flushed c oc old ∙ sym (update_ne s.io.bufs b block c ne);
    }

-- With room in the log and an operation begun, changing a block outside the log and logging it
-- succeeds; the buffer has the new contents, the disk is as it was, and the log stays settled, free
-- of duplicates, and pins exactly the logged buffers.
pub write_block_lem :
    (s : Fs) (b : ℕ) (block : Block)
    → HasRoom s.lg
    → 0 < s.lg.outstanding
    → Outside s.lg b
    → Settled s
    → Pinned s
    → (s' : Fs) × (write_block s b block ≡ ok s')
      × Settled s'
      × Pinned s'
      × (s'.io.bufs ≡ update s.io.bufs b block)
      × (s'.io.disk ≡ s.io.disk)
      × (s'.io.past ≡ s.io.past)
unfolding write_block
write_block_lem s b block room begun ob t v =
    let s₁ : Fs = record s { io = set_buf s.io b block } in
    let (s', e, l) = log_write-Logs s₁ b room begun in
    let v₁ : Pinned s₁ = record { distinct = v.distinct; one = v.one; none = v.none } in
    let v' = log_write-Pinned l v₁ in
    elim l [
      | absorbed i h here q ↦
          (s', e, rw q (same_entry-Settled s b i block h here t), v', rw q, rw q, rw q)
      | appended fresh q ↦
          (s', e, rw q (new_entry-Settled s b block ob room.2 t), v', rw q, rw q, rw q)
    ]
