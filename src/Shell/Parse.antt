-- ===== src/Shell/Parse.antt =====
-- `parse_cmd` ends; what `parse_exec` makes room for; and arguments with a 2 in them.
use oskernel.Prelude.{
  ltb, ◌==◌, if◌then◌else◌, Bool-cases, length, length-append, All, ℕ, zero, suc, ◌+◌, ◌≤◌, ◌<◌,
  ◌≡◌, refl, ap, ◌∙◌, subst, ◌⊎◌, inl, inr, true, false, ◌&&◌, ◌||◌, some, List, [], ◌∷◌, ◌++◌,
  arith,
}
use oskernel.Shell.{
  max_args, TokenType, tok_arg, Token, is_space, is_special, skip_space, word_length, drop,
  token_at, get_token, is_eof, exec, Parsed, null, parsed, panics, overruns, parse_exec,
  exec_command, is_arg, Operator, no_operator, operator, passed, find_operator, parse_redir,
  first_is, pipe_command, is_pipe, has_more, parse_cmd,
}

-- The tokens before the first `TOK_EOF`.
pub count : List Token → ℕ
count [] = 0
count (tok ∷ toks) = let rest = count toks in if is_eof tok.type then 0 else suc rest

parse_exec-fits :
    (toks : List Token) (argc : ℕ) (argv nuls : List ℕ)
    → argc + count toks ≤ max_args
    → (argv' : List ℕ) × (nuls' : List ℕ) × (parse_exec toks argc argv nuls
        ≡ parsed (exec argv') nuls')
      × (length argv' ≡ length argv + count toks)
unfolding parse_exec count
parse_exec-fits [] argc argv nuls le = (argv, nuls, refl, omega arith)
parse_exec-fits (tok ∷ toks) argc argv nuls le = elim (Bool-cases (is_eof tok.type)) [
  | inl last ↦ (argv, nuls, rw (last, parse_exec) refl, rw (last, count) (omega arith))
  | inr more ↦
      let counted : count (tok ∷ toks) ≡ suc (count toks) = rw (more, count) refl in
      let room : ltb argc max_args ≡ true = ground (arith, le, counted) in
      let (argv', nuls', run, len) =
        parse_exec-fits toks (argc + 1) (argv ++ (tok.lexeme ∷ [])) ((tok.lexeme + tok.len) ∷ nuls)
          (omega (arith, le, counted)) in
      (
        argv',
        nuls',
        rw (more, parse_exec) (rw room run),
        len ∙ omega (arith, counted, length-append argv (tok.lexeme ∷ [])),
      )
]

parse_exec-overruns :
    (toks : List Token) (argc : ℕ) (argv nuls : List ℕ)
    → argc ≤ max_args
    → max_args < argc + count toks
    → parse_exec toks argc argv nuls ≡ overruns
unfolding parse_exec count
parse_exec-overruns [] argc argv nuls le lt = absurd (omega arith)
parse_exec-overruns (tok ∷ toks) argc argv nuls le lt = elim (Bool-cases (is_eof tok.type)) [
  | inl last ↦
      let counted : count (tok ∷ toks) ≡ 0 = rw (last, count) refl in
      absurd (omega (arith, le, lt, counted))
  | inr more ↦
      let counted : count (tok ∷ toks) ≡ suc (count toks) = rw (more, count) refl in
      elim (Bool-cases (ltb argc max_args)) [
        | inl room ↦
            rw (more, parse_exec)
              (rw room (
                parse_exec-overruns toks (argc + 1) (argv ++ (tok.lexeme ∷ []))
                  ((tok.lexeme + tok.len) ∷ nuls) ground (arith, room)
                  (omega (arith, lt, counted))))
        | inr full ↦ rw (more, parse_exec) (rw full refl)
      ]
]

-- `parse_exec` stores one argument for every token before the first `TOK_EOF`; with more than
-- `MAX_ARGS` of these it stores behind the end of `argv`, and only then.
pub parse_exec_bounds :
    (toks : List Token)
    → (count toks ≤ max_args
        → (argv : List ℕ) × (nuls : List ℕ) × (exec_command toks ≡ parsed (exec argv) nuls)
          × (length argv ≡ count toks))
      × (max_args < count toks → exec_command toks ≡ overruns)
parse_exec_bounds toks = (
  λ le.
      let (argv, nuls, run, len) = parse_exec-fits toks 0 [] [] (omega (arith, le)) in
      (argv, nuls, run, len ∙ omega arith),
  λ lt. parse_exec-overruns toks 0 [] [] (omega arith) (omega (arith, lt)),
)

-- What is behind an operator is shorter than the text.
Shorter : ℕ → Operator → Type 0
Shorter n no_operator = Unit
Shorter n (operator before op behind) = length behind < n

passed-Shorter : (tok : Token) (n : ℕ) (o : Operator) → Shorter n o → Shorter (suc n) (passed tok o)
unfolding Shorter
passed-Shorter tok n no_operator h = tt
passed-Shorter tok n (operator before op behind) h = omega (arith, h)

find_operator-Shorter : (toks : List Token) → Shorter (length toks) (find_operator toks)
unfolding find_operator Shorter
find_operator-Shorter [] = tt
find_operator-Shorter (tok ∷ toks) = elim (Bool-cases (is_arg tok.type || is_eof tok.type)) [
  | inl goes_on ↦
      rw (goes_on, find_operator)
        (passed-Shorter tok (length toks) (find_operator toks) (find_operator-Shorter toks))
  | inr stops ↦ rw (stops, find_operator) (omega arith)
]

Operator-cases :
    (o : Operator)
    → (o ≡ no_operator)
      ⊎ ((before : List Token) × (op : TokenType) × (behind : List Token) × (o
            ≡ operator before op behind))
Operator-cases no_operator = inl refl
Operator-cases (operator before op behind) = inr (before, op, behind, refl)

-- `parse_cmd` ends: with more calls than there are tokens it returns.
pub parse_cmd_ends :
    (fuel : ℕ) (toks : List Token)
    → length toks < fuel
    → (r : Parsed) × (parse_cmd fuel toks ≡ some r)
unfolding parse_cmd Shorter
parse_cmd_ends zero toks lt = absurd (omega arith)
parse_cmd_ends (suc fuel) toks lt = elim (Bool-cases (first_is is_eof toks)) [
  | inl last ↦ (null, rw (last, parse_cmd) refl)
  | inr more ↦ elim (Operator-cases (find_operator toks)) [
    | inl e ↦ (exec_command toks, rw (more, parse_cmd) (rw e refl))
    | inr (before, op, behind, e) ↦
        let shorter : length behind < length toks =
          subst (Shorter (length toks)) e (find_operator-Shorter toks) in
        let (right, run) = parse_cmd_ends fuel behind (omega (arith, lt, shorter)) in
        elim (Bool-cases (is_pipe op)) [
          | inr redir ↦ (parse_redir before op behind, rw (more, parse_cmd) (rw e (rw redir refl)))
          | inl pipe ↦ elim (Bool-cases (first_is is_arg toks && has_more behind)) [
            | inr bad ↦ (panics, rw (more, parse_cmd) (rw e (rw pipe (rw bad refl))))
            | inl good ↦ (
              pipe_command (exec_command before) right,
              rw (more, parse_cmd) (rw e (rw pipe (rw good (rw run refl)))),
            )
          ]
        ]
  ]
]

-- Characters that an argument may have.
abbrev pub Plain : List ℕ → Type 0
Plain s = All (λ c. (is_space c ≡ false) × (is_special c ≡ false)) s

word_length-Plain : (w rest : List ℕ) → Plain w → word_length (w ++ (50 ∷ rest)) ≡ length w
unfolding word_length
word_length-Plain [] rest all = refl
word_length-Plain (c ∷ w) rest all =
    let plain : (is_space c || is_special c) ≡ false = rw all.0.0 (rw all.0.1 refl) in
    rw (plain, word_length) (ap suc (word_length-Plain w rest all.1))

drop-length : (w rest : List ℕ) → drop (length w) (w ++ rest) ≡ rest
drop-length [] rest = refl
drop-length (c ∷ w) rest = drop-length w rest

skip_space-plain :
    (c : ℕ) (s : List ℕ) (i : ℕ) → is_space c ≡ false → skip_space (c ∷ s) i ≡ (c ∷ s, i)
unfolding skip_space
skip_space-plain c s i h = rw h refl

token_at-plain :
    (c : ℕ) (s : List ℕ) → is_special c ≡ false → token_at (c ∷ s) ≡ (tok_arg, suc (word_length s))
unfolding token_at
token_at-plain c s h =
    let not_pipe : (c == 124) ≡ false = ground (arith, h) in
    let not_out : (c == 62) ≡ false = ground (arith, h) in
    let not_in : (c == 60) ≡ false = ground (arith, h) in
    let not_two : (c == 50) ≡ false = ground (arith, h) in
    rw not_pipe (rw not_out (rw not_in (rw not_two refl)))

-- An argument ends before a 2, whatever follows it: the 2 begins the next token.
pub get_token_two :
    (c : ℕ) (w rest : List ℕ) (i : ℕ)
    → Plain (c ∷ w)
    → get_token ((c ∷ w) ++ (50 ∷ rest)) i
      ≡ (record { type = tok_arg; len = length (c ∷ w); lexeme = i }, 50 ∷ rest, i + length (c ∷ w))
unfolding get_token
get_token_two c w rest i all =
    let s = w ++ (50 ∷ rest) in
    let word =
      token_at-plain c s all.0.1 ∙ ap (λ n. (tok_arg, suc n)) (word_length-Plain w rest all.1) in
    let result : TokenType × ℕ → List ℕ → Token × List ℕ × ℕ =
      λ t left. (record { type = t.0; len = t.1; lexeme = i }, left, i + t.1) in
    ap
      (λ (p : List ℕ × ℕ).
        let t = token_at p.0 in
        (record { type = t.0; len = t.1; lexeme = p.1 }, drop t.1 p.0, p.1 + t.1))
      (skip_space-plain c s i all.0.0)
    ∙ ap (λ (t : TokenType × ℕ). result t (drop t.1 (c ∷ s))) word
    ∙ ap (result (tok_arg, length (c ∷ w))) (drop-length w (50 ∷ rest))
