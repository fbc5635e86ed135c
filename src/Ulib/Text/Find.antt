-- ===== src/Ulib/Text/Find.antt =====
-- `strstr`: the first place of a string in another.
use mathlib.Core.Path.{ap₂}
use oskernel.Prelude.{
  ◌==◌, Bool-cases, length, cons_head, cons_tail, ℕ, suc, ◌<◌, ◌≡◌, refl, sym, ap, ◌↔◌, inl, inr,
  true, false, Option, none, some, List, [], ◌∷◌, ◌++◌, arith, ℕ_discrete,
}
use oskernel.Ulib.Text.{begins, strstr_from, strstr}

-- The inner loop says whether `needle` is a prefix.
pub begins_lem :
    (h needle : List ℕ) → (begins h needle ≡ true) ↔ ((rest : List ℕ) × (h ≡ needle ++ rest))
unfolding begins
begins_lem h [] = ((λ e. (h, refl)), (λ e. refl))
begins_lem [] (n ∷ needle) =
    ((λ e. absurd (ground (arith, e))), (λ e. absurd (ground (arith, e.1))))
begins_lem (c ∷ h) (n ∷ needle) = elim (ℕ_discrete c n) [
  | yes same ↦
      let test : (c == n) ≡ true = ground (arith, same) in
      let (there, back) = begins_lem h needle in
      rw (test, begins)
        (
          (λ e. let (rest, r) = there e in (rest, ap₂ ◌∷◌ same r)),
          (λ e. back (e.0, cons_tail c n h (needle ++ e.0) e.1)),
        )
  | no other ↦
      let test : (c == n) ≡ false = ground (arith, other) in
      rw (test, begins)
        (
          (λ e. absurd (ground (arith, e))),
          (λ e. absurd (other (cons_head c n h (needle ++ e.0) e.1))),
        )
]

-- Where a search for `needle` comes to: nowhere, or a suffix that begins with it, which no longer
-- suffix does.
pub data Finds (haystack needle : List ℕ) (r : Option (List ℕ)) : Type 0 where
  nowhere :
      r ≡ none
      → ((before suffix : List ℕ) → haystack ≡ before ++ suffix → begins suffix needle ≡ false)
      → Finds haystack needle r
  here :
      (before suffix : List ℕ)
      → haystack ≡ before ++ suffix
      → r ≡ some suffix
      → begins suffix needle ≡ true
      → ((earlier longer : List ℕ)
          → haystack ≡ earlier ++ longer
          → length earlier < length before
          → begins longer needle ≡ false)
      → Finds haystack needle r

-- A split of a string that has a first character.
data Cut (c : ℕ) (h before suffix : List ℕ) : Type 0 where
  at_start : before ≡ [] → suffix ≡ c ∷ h → Cut c h before suffix
  behind : (b : List ℕ) → length before ≡ suc (length b) → h ≡ b ++ suffix → Cut c h before suffix

Cut-cons : (c : ℕ) (h before suffix : List ℕ) → c ∷ h ≡ before ++ suffix → Cut c h before suffix
Cut-cons c h [] suffix e = at_start refl (sym e)
Cut-cons c h (x ∷ b) suffix e = behind b refl (cons_tail c x h (b ++ suffix) e)

nothing_begins :
    (n : ℕ) (needle before suffix : List ℕ)
    → [] ≡ before ++ suffix
    → begins suffix (n ∷ needle) ≡ false
unfolding begins
nothing_begins n needle [] [] e = refl
nothing_begins n needle [] (c ∷ s) e = absurd (ground (arith, e))
nothing_begins n needle (x ∷ b) suffix e = absurd (ground (arith, e))

strstr_from-Finds :
    (h : List ℕ) (n : ℕ) (needle : List ℕ) → Finds h (n ∷ needle) (strstr_from h (n ∷ needle))
unfolding strstr_from
strstr_from-Finds [] n needle = nowhere refl (nothing_begins n needle)
strstr_from-Finds (c ∷ h) n needle = elim (Bool-cases (begins (c ∷ h) (n ∷ needle))) [
  | inl found ↦
      rw (found, strstr_from)
        (here [] (c ∷ h) refl refl found (λ earlier longer e lt. absurd (omega arith)))
  | inr other ↦
      rw (other, strstr_from)
        (elim (strstr_from-Finds h n needle) [
          | nowhere r all ↦ nowhere r (λ before suffix e. elim (Cut-cons c h before suffix e) [
            | at_start _ whole ↦ rw whole other
            | behind b _ e' ↦ all b suffix e'
          ])
          | here before suffix e r found all ↦
              here (c ∷ before) suffix (ap (λ l. c ∷ l) e) r found (λ earlier longer e' lt.
                elim (Cut-cons c h earlier longer e') [
                  | at_start _ whole ↦ rw whole other
                  | behind b len e'' ↦ all b longer e'' (omega (arith, len, lt))
                ])
        ])
]

-- `strstr` returns the longest suffix of the string that begins with the other one, which is where
-- that one occurs first, and NULL exactly when it does not occur.
pub strstr-Finds : (haystack needle : List ℕ) → Finds haystack needle (strstr haystack needle)
unfolding strstr begins
strstr-Finds haystack [] =
    here [] haystack refl refl refl (λ earlier longer e lt. absurd (omega arith))
strstr-Finds haystack (n ∷ needle) = strstr_from-Finds haystack n needle
