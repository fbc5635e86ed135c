-- ===== src/Prelude/Panics.antt =====
-- `panic` stops the machine: a run ends with a value, or in a panic with its message.
use Prim.Native.String.{String}
use mathlib.Core.Path.{◌≡◌, refl}
use mathlib.Core.Logic.{◌⊎◌, inl, inr}
use mathlib.Core.Bool.{Bool, true, false}

pub data Run {ℓ} (A : Type ℓ) : Type ℓ where
  ok : A → Run A
  panic : String → Run A

infixl 5 ◌>>=◌ ◌>>◌
abbrev pub ◌>>=◌ {ℓ κ} : {S : Type ℓ} {T : Type κ} → Run S → (S → Run T) → Run T
◌>>=◌ run next = elim run [ panic message ↦ panic message | ok value ↦ next value ]

abbrev pub ◌>>◌ {ℓ} : {T : Type ℓ} → Run (Unit {0}) → Run T → Run T
◌>>◌ run next = elim run [ panic message ↦ panic message | ok _ ↦ next ]

-- `if (bad) panic(message);`
abbrev pub panic_if : Bool → String → Run (Unit {0})
panic_if true m = panic m
panic_if false m = ok tt

pub Run-cases {ℓ} :
    {A : Type ℓ} (r : Run A) → ((message : String) × (r ≡ panic message)) ⊎ ((a : A) × (r ≡ ok a))
Run-cases (panic message) = inl (message, refl)
Run-cases (ok a) = inr (a, refl)
