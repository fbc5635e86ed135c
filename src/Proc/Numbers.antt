-- ===== src/Proc/Numbers.antt =====
-- `pid_alloc`: process numbers.
use oskernel.Prelude.{
  ◌==◌, if◌then◌else◌, ℕ, zero, suc, ◌+◌, ◌-◌, ◌*◌, ◌/◌, ◌%◌, ◌≤◌, ◌<◌, ◌≡◌, refl, sym, ap, ◌∙◌,
  ◌≢◌, Bool, true, false, none, arith, dec_lt,
}
use oskernel.Inode.{set_bit, scan_byte}
use oskernel.Inode.Bitmap.{all_set, clear_at, scan_byte-FirstClear}
use oskernel.Inode.Blocks.{set_bit-taken}
use oskernel.Proc.{Pids, allotted, searching, pid_loop, pid_alloc}

-- Number `n` is in use.
abbrev pub used : Pids → ℕ → Bool
used p n = p.bits (n / 8) (n % 8)

no_clear :
    (bits : ℕ → Bool) (s : ℕ) → ((k : ℕ) → k < 8 → bits k ≡ true) → scan_byte bits (8 - s) s ≡ none
unfolding scan_byte
no_clear bits s all = elim (dec_lt s 8) [
  | no ge ↦ let e : 8 - s ≡ 0 = omega arith in rw (e) refl
  | yes lt ↦ elim (scan_byte-FirstClear bits (8 - s) s 8 (omega arith)) [
    | all_set r _ ↦ r
    | clear_at k r below clear before ↦ ground (arith, all k below)
  ]
]

loop-searches :
    (p : Pids) (rounds b s : ℕ)
    → p.shift ≢ 0
    → ((k : ℕ) → k < 8 → p.bits p.byte k ≡ true)
    → pid_loop p rounds b s ≡ searching
unfolding pid_loop
loop-searches p zero b s h all = refl
loop-searches p (suc rounds) b s h all =
    rw (no_clear (p.bits p.byte) s all, pid_loop)
      (ground (arith, h, loop-searches p rounds ((b + 1) % 4096) 0 h all))

-- When all bits of the byte at which the last number was found are set, and that search did not end
-- before the first bit, `pid_alloc` never ends: no number of rounds is enough, even if all other
-- numbers are free.
pub pid_alloc_hangs :
    (p : Pids) (rounds : ℕ)
    → p.shift ≢ 0
    → ((k : ℕ) → k < 8 → p.bits p.byte k ≡ true)
    → pid_alloc p rounds ≡ searching
unfolding pid_alloc
pid_alloc_hangs p rounds h all = loop-searches p rounds p.byte p.shift h all

-- As long as a number behind the last one given, in the same byte, is free, `pid_alloc` gives such a
-- number in the first round: it was not in use, now it is, and nothing else changes.
pub pid_alloc_fresh :
    (p : Pids) (rounds s : ℕ)
    → p.shift ≤ s
    → s < 8
    → p.bits p.byte s ≡ false
    → (n : ℕ) × (p' : Pids) × (pid_alloc p (suc rounds) ≡ allotted n p')
      × (used p n ≡ false)
      × ((j : ℕ) → used p' j ≡ (if n == j then true else used p j))
unfolding pid_alloc pid_loop
pid_alloc_fresh p rounds s lo hi free =
    elim (scan_byte-FirstClear (p.bits p.byte) (8 - p.shift) p.shift 8 (omega arith)) [
      | all_set r all ↦ ground (arith, all s lo hi)
      | clear_at k r below clear before ↦
          let n = p.byte * 8 + k in
          let q : p.byte ≡ n / 8 = omega arith in
          let m : k ≡ n % 8 = omega arith in
          (
            n,
            record { bits = set_bit p.bits p.byte k true; byte = p.byte; shift = k + 1 },
            rw (r, pid_loop) refl,
            ap (λ x. p.bits x (n % 8)) (sym q) ∙ ap (p.bits p.byte) (sym m) ∙ clear,
            λ j. set_bit-taken p.bits p.byte k n j true below refl,
          )
    ]
