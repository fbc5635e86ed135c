-- ===== src/Ulib/Text/Tokens.antt =====
-- `strtok`: the tokens of a string.
use oskernel.Prelude.{
  Bool-cases, All, cons_head, ℕ, ◌≡◌, refl, sym, ap, ◌∙◌, subst, ◌≢◌, inl, inr, Bool, true, false,
  Option, none, some, List, [], ◌∷◌, ◌++◌, append-nil, arith,
}
use oskernel.Ulib.Text.{among, strspn, strcspn, skip, first, cut, token, strtok}

abbrev pub AllAre : List ℕ → Bool → List ℕ → Type 0
AllAre delim b s = All (λ c. among delim c ≡ b) s

-- What `strtok` finds in a string.
pub data Tokens (s delim : List ℕ) (r : Option (List ℕ) × List ℕ) : Type 0 where
  no_token : AllAre delim true s → r ≡ (none, []) → Tokens s delim r
  last_token :
      (before tok : List ℕ)
      → s ≡ before ++ tok
      → AllAre delim true before
      → AllAre delim false tok
      → tok ≢ []
      → r ≡ (some tok, [])
      → Tokens s delim r
  next_token :
      (before tok rest : List ℕ) (d : ℕ)
      → s ≡ before ++ (tok ++ (d ∷ rest))
      → AllAre delim true before
      → AllAre delim false tok
      → tok ≢ []
      → among delim d ≡ true
      → r ≡ (some tok, rest)
      → Tokens s delim r

-- `strcspn` characters of a string, and what follows them.
strcspn-first :
    (s delim : List ℕ)
    → let n = strcspn s delim in
      AllAre delim false (first n s)
      × (s ≡ first n s ++ skip n s)
      × ((d : ℕ) (rest : List ℕ) → skip n s ≡ d ∷ rest → among delim d ≡ true)
unfolding strcspn
strcspn-first [] delim = (tt, refl, λ d rest e. absurd (ground (arith, e)))
strcspn-first (c ∷ s) delim = elim (Bool-cases (among delim c)) [
  | inl stop ↦
      rw (stop, strcspn)
        (tt, refl, λ d rest e. subst (λ x. among delim x ≡ true) (cons_head c d s rest e) stop)
  | inr other ↦
      let (all, e, next) = strcspn-first s delim in
      rw (other, strcspn) ((other, all), ap (λ l. c ∷ l) e, next)
]

strspn-first :
    (s delim : List ℕ)
    → let n = strspn s delim in
      AllAre delim true (first n s)
      × (s ≡ first n s ++ skip n s)
      × ((d : ℕ) (rest : List ℕ) → skip n s ≡ d ∷ rest → among delim d ≡ false)
unfolding strspn
strspn-first [] delim = (tt, refl, λ d rest e. absurd (ground (arith, e)))
strspn-first (c ∷ s) delim = elim (Bool-cases (among delim c)) [
  | inl here ↦
      let (all, e, next) = strspn-first s delim in
      rw (here, strspn) ((here, all), ap (λ l. c ∷ l) e, next)
  | inr other ↦
      rw (other, strspn)
        (tt, refl, λ d rest e. subst (λ x. among delim x ≡ false) (cons_head c d s rest e) other)
]

-- A token is not empty: it begins with the character behind the delimiters.
first-strcspn :
    (c : ℕ) (s delim : List ℕ) → among delim c ≡ false → first (strcspn (c ∷ s) delim) (c ∷ s) ≢ []
unfolding strcspn
first-strcspn c s delim h = rw h (λ e. ground (arith, e))

cut-Tokens :
    (s before tok l delim : List ℕ)
    → s ≡ before ++ (tok ++ l)
    → AllAre delim true before
    → AllAre delim false tok
    → tok ≢ []
    → ((d : ℕ) (rest : List ℕ) → l ≡ d ∷ rest → among delim d ≡ true)
    → Tokens s delim (cut tok l)
cut-Tokens s before tok [] delim e all tok_all some_tok next =
    last_token before tok (e ∙ ap (λ t. before ++ t) (append-nil tok)) all tok_all some_tok refl
cut-Tokens s before tok (d ∷ rest) delim e all tok_all some_tok next =
    next_token before tok rest d e all tok_all some_tok (next d rest refl) refl

token-Tokens :
    (s before rest delim : List ℕ)
    → s ≡ before ++ rest
    → AllAre delim true before
    → ((d : ℕ) (r : List ℕ) → rest ≡ d ∷ r → among delim d ≡ false)
    → Tokens s delim (token rest delim)
unfolding token
token-Tokens s before [] delim e all starts =
    no_token (subst (AllAre delim true) (sym (e ∙ append-nil before)) all) refl
token-Tokens s before (c ∷ rest) delim e all starts =
    let n = strcspn (c ∷ rest) delim in
    let (tok_all, split, next) = strcspn-first (c ∷ rest) delim in
    cut-Tokens s before (first n (c ∷ rest)) (skip n (c ∷ rest)) delim
      (e ∙ ap (λ t. before ++ t) split) all tok_all
      (first-strcspn c rest delim (starts c rest refl)) next

-- `strtok` of a string: NULL exactly when it has only delimiters. Otherwise the first longest piece
-- without a delimiter, which is not empty; the next call goes on behind the delimiter that ends it,
-- if there is one.
pub strtok-Tokens : (s delim olds : List ℕ) → Tokens s delim (strtok (some s) delim olds)
unfolding strtok
strtok-Tokens s delim olds =
    let (all, split, next) = strspn-first s delim in
    token-Tokens s (first (strspn s delim) s) (skip (strspn s delim) s) delim split all next
