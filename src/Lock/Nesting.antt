-- ===== src/Lock/Nesting.antt =====
-- `push_off` and `pop_off` nest: interrupts come back on with the outermost `pop_off` only.
use oskernel.Prelude.{Run, ok, ◌>>=◌, ◌<◌, ◌≡◌, refl, ◌∙◌, false, arith, ℕ_discrete}
use oskernel.Lock.{Cpu, push_off, pop_off}

-- Critical sections of one CPU: each is entered, may hold others, is left, and others follow.
pub data Sections : Type 0 where
  finish : Sections
  section : Sections → Sections → Sections

pub enter_all : Sections → Cpu → Run Cpu
enter_all finish c = ok c
enter_all (section inner rest) c = do
  c' ← enter_all inner (push_off c)
  c'' ← pop_off c'
  enter_all rest c''

-- Inside a section interrupts are off.
pub record IsMasked (c : Cpu) : Type 0 where
  pub masked : 0 < c.n_off → c.intr ≡ false

push_off_masks : (c : Cpu) → (0 < (push_off c).n_off) × ((push_off c).intr ≡ false)
unfolding push_off
push_off_masks c = (omega arith, refl)

-- One `push_off` and its `pop_off`, with the interrupts off inside.
pop-push : (c : Cpu) → 0 < c.n_off → c.intr ≡ false → pop_off (push_off c) ≡ ok c
unfolding push_off pop_off
pop-push c pos off = ground arith

pop-push_outer :
    (c : Cpu)
    → IsMasked c
    → (c' : Cpu) × (pop_off (push_off c) ≡ ok c') × (c'.n_off ≡ c.n_off) × (c'.intr ≡ c.intr)
unfolding push_off pop_off
pop-push_outer c v = elim (ℕ_discrete c.n_off 0) [
  | yes z ↦ (record c { intr_ena = c.intr }, ground arith, refl, refl)
  | no nz ↦ (c, ground (arith, v.masked (omega arith)), refl, refl)
]

-- Sections inside a section leave the CPU as it was.
nested-unchanged : (t : Sections) (c : Cpu) → 0 < c.n_off → c.intr ≡ false → enter_all t c ≡ ok c
unfolding enter_all
nested-unchanged finish c pos off = refl
nested-unchanged (section inner rest) c pos off =
    rw (nested-unchanged inner (push_off c) (push_off_masks c).0 (push_off_masks c).1)
      (rw (pop-push c pos off) (nested-unchanged rest c pos off))

-- Whatever sections a CPU enters and leaves, no `pop_off` panics, and afterwards it has the nesting
-- depth and the interrupt state that it had before, if interrupts were off in any section around them.
pub enter_all_lem :
    (t : Sections) (c : Cpu)
    → IsMasked c
    → (c' : Cpu) × (enter_all t c ≡ ok c') × (c'.n_off ≡ c.n_off) × (c'.intr ≡ c.intr)
unfolding enter_all
enter_all_lem finish c v = (c, refl, refl, refl)
enter_all_lem (section inner rest) c v =
    let (c₁, e, same, kept) = pop-push_outer c v in
    let v₁ : IsMasked c₁ = record { masked = λ h. kept ∙ v.masked (omega (arith, same)) } in
    let (c₂, e', same', kept') = enter_all_lem rest c₁ v₁ in
    (
      c₂,
      rw (nested-unchanged inner (push_off c) (push_off_masks c).0 (push_off_masks c).1) (rw e e'),
      same' ∙ same,
      kept' ∙ kept,
    )
