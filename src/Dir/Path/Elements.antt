-- ===== src/Dir/Path/Elements.antt =====
-- The elements of a path: `skip_elem` against splitting at the slashes.
-- The pieces between slashes, the empty ones included.
use oskernel.Prelude.{
  ◌==◌, if◌then◌else◌, Bool-cases, length, ℕ, ◌≤◌, ◌<◌, ◌≡◌, refl, sym, ap, ◌∙◌, inl, inr, false,
  Option, none, some, List, [], ◌∷◌, arith,
}
use oskernel.Dir.Path.{slash, skip_slashes, element, named, skip_elem}

abbrev add : ℕ → List (List ℕ) → List (List ℕ)
add c [] = []
add c (p ∷ ps) = (c ∷ p) ∷ ps

unfoldable pub pieces : List ℕ → List (List ℕ)
pieces [] = [] ∷ []
pieces (c ∷ path) = let rest = pieces path in if c == slash then [] ∷ rest else add c rest

abbrev pub nonempty : List (List ℕ) → List (List ℕ)
nonempty [] = []
nonempty ([] ∷ ps) = nonempty ps
nonempty ((c ∷ p) ∷ ps) = (c ∷ p) ∷ nonempty ps

abbrev pub elements : List ℕ → List (List ℕ)
elements path = nonempty (pieces path)

skip_slashes-elements : (path : List ℕ) → elements (skip_slashes path) ≡ elements path
unfolding skip_slashes pieces
skip_slashes-elements [] = refl
skip_slashes-elements (c ∷ path) = elim (Bool-cases (c == slash)) [
  | inl here ↦ rw (here, skip_slashes, pieces) (skip_slashes-elements path)
  | inr other ↦
      ap elements {x = skip_slashes (c ∷ path)} {y = c ∷ path} (rw (other, skip_slashes) refl)
]

-- The slashes are gone, and nothing is longer.
skip_slashes-head :
    (path : List ℕ) → (c : ℕ) (s : List ℕ) → skip_slashes path ≡ c ∷ s → (c == slash) ≡ false
unfolding skip_slashes
skip_slashes-head [] c s e = ground arith
skip_slashes-head (c' ∷ path) c s e = elim (Bool-cases (c' == slash)) [
  | inl here ↦ skip_slashes-head path c s (ground (arith, here))
  | inr other ↦ ground (arith, other)
]

length-skip_slashes : (path : List ℕ) → length (skip_slashes path) ≤ length path
unfolding skip_slashes
length-skip_slashes [] = omega arith
length-skip_slashes (c ∷ path) = elim (Bool-cases (c == slash)) [
  | inl here ↦ rw (here, skip_slashes) (omega (arith, length-skip_slashes path))
  | inr other ↦ rw (other, skip_slashes) (omega arith)
]

element-pieces :
    (path : List ℕ)
    → let (e, rest) = element path in
      (q : List (List ℕ)) × (pieces path ≡ e ∷ q) × (nonempty q ≡ elements rest)
unfolding element pieces
element-pieces [] = ([], refl, refl)
element-pieces (c ∷ path) = elim (Bool-cases (c == slash)) [
  | inl here ↦ rw (here, element, pieces) (pieces path, refl, rw here refl)
  | inr other ↦
      let (q, e, e') = element-pieces path in rw (other, element, pieces) (q, ap (add c) e, e')
]

length-rest : (path : List ℕ) → length (element path).1 ≤ length path
unfolding element
length-rest [] = omega arith
length-rest (c ∷ path) = elim (Bool-cases (c == slash)) [
  | inl here ↦ rw (here, element) (omega arith)
  | inr other ↦ rw (other, element) (omega (arith, length-rest path))
]

-- What a call of `skip_elem` comes to.
pub data Skips (path : List ℕ) (name : ℕ → ℕ) (r : Option (List ℕ × (ℕ → ℕ))) : Type 0 where
  ends : elements path ≡ [] → r ≡ none → Skips path name r
  goes :
      (elem rest : List ℕ)
      → elements path ≡ elem ∷ elements rest
      → length rest < length path
      → r ≡ some (rest, named elem name)
      → Skips path name r

element-elements :
    (c : ℕ) (s : List ℕ)
    → (c == slash) ≡ false
    → elements (c ∷ s) ≡ (c ∷ (element s).0) ∷ elements (element s).1
unfolding pieces
element-elements c s h =
    let (q, e, e') = element-pieces s in
    rw (h, pieces) (rw e (ap (λ es. (c ∷ (element s).0) ∷ es) e'))

element-other :
    (c : ℕ) (s : List ℕ)
    → (c == slash) ≡ false
    → element (c ∷ s) ≡ (c ∷ (element s).0, (element s).1)
unfolding element
element-other c s h = rw h refl

-- `skip_elem` returns NULL exactly when the path has no element; otherwise it puts the first element in
-- the buffer and returns a shorter path, whose elements are the others.
pub skip_elem-Skips : (path : List ℕ) (name : ℕ → ℕ) → Skips path name (skip_elem path name)
unfolding skip_elem pieces
skip_elem-Skips path name = go (skip_slashes path) refl
  where
    go : (s : List ℕ) → skip_slashes path ≡ s → Skips path name (skip_elem path name)
    go [] e = rw (e, skip_elem) (ends (sym (skip_slashes-elements path) ∙ ap elements e) refl)
    go (c ∷ s) e =
        let other = skip_slashes-head path c s e in
        let shorter : length s < length path =
          omega (arith, length-skip_slashes path, ap length e) in
        let (elem, rest) = element s in
        rw (e, skip_elem)
          (rw (element-other c s other) (
            goes (c ∷ elem) (skip_slashes rest)
              (sym (skip_slashes-elements path)
                ∙ ap elements e
                ∙ element-elements c s other
                ∙ ap (λ es. (c ∷ elem) ∷ es) (sym (skip_slashes-elements rest)))
              (omega (arith, length-skip_slashes rest, length-rest s, shorter)) refl))
