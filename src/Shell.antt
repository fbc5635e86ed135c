-- ===== src/Shell.antt =====
-- user/sh.c: the line, its tokens and its commands. A string is the list of its characters; a pointer
-- into the line is the index there. `malloc1` does not fail. The parser ends strings by writing NULs
-- into the line, whose indices are listed.
pub mod Tokens
pub mod Parse
mod Tests
use oskernel.Prelude.{
  ltb, ◌==◌, if◌then◌else◌, ℕ, zero, suc, ◌+◌, Bool, true, false, not, ◌&&◌, ◌||◌, Option, none,
  some, List, [], ◌∷◌, ◌++◌,
}

abbrev pub max_args : ℕ
max_args = 10

-- The `TOK_` constants.
pub data TokenType : Type 0 where
  tok_eof tok_arg tok_pipe : TokenType
  tok_redir_in tok_redir_out tok_redir_out_a tok_redir_err tok_redir_err_a : TokenType

-- `struct token`; `lexeme` is the index in the line.
pub record Token : Type 0 where
  pub type : TokenType
  pub len : ℕ
  pub lexeme : ℕ

-- " \t\n\r\v" and "2|<>".
abbrev pub is_space : ℕ → Bool
is_space c = c == 32 || (c == 9 || (c == 10 || (c == 13 || c == 11)))

abbrev pub is_special : ℕ → Bool
is_special c = c == 50 || (c == 124 || (c == 60 || c == 62))

-- The first loop of `get_token`: what is behind the white space, and where.
unfoldable pub skip_space : List ℕ → ℕ → List ℕ × ℕ
skip_space [] i = ([], i)
skip_space (c ∷ s) i = let rest = skip_space s (i + 1) in if is_space c then rest else (c ∷ s, i)

-- The last loop, behind the first character of an argument: how many characters follow.
unfoldable pub word_length : List ℕ → ℕ
word_length [] = 0
word_length (c ∷ s) = let rest = word_length s in if is_space c || is_special c then 0 else suc rest

abbrev pub drop : ℕ → List ℕ → List ℕ
drop zero s = s
drop (suc n) [] = []
drop (suc n) (c ∷ s) = drop n s

abbrev pub starts_with : ℕ → List ℕ → Bool
starts_with c [] = false
starts_with c (d ∷ s) = d == c

-- The type and the length of the token that a string begins with, which is no white space.
unfoldable pub token_at : List ℕ → TokenType × ℕ
token_at [] = (tok_eof, 0)
token_at (c ∷ s) =
    if c == 124
    then (tok_pipe, 1)
    else if c == 62
    then (if starts_with 62 s then (tok_redir_out_a, 2) else (tok_redir_out, 1))
    else if c == 60
    then (tok_redir_in, 1)
    else if c == 50 && starts_with 62 s
    then (if starts_with 62 (drop 1 s) then (tok_redir_err_a, 3) else (tok_redir_err, 2))
    else (tok_arg, suc (word_length s))

-- The token, and what follows it.
unfoldable pub get_token : List ℕ → ℕ → Token × List ℕ × ℕ
get_token input i0 =
    let (s, i) = skip_space input i0 in
    let (type, len) = token_at s in
    (record { type = type; len = len; lexeme = i }, drop len s, i + len)

abbrev pub is_eof : TokenType → Bool
is_eof tok_eof = true
is_eof _ = false

-- The loop of `parse_line`, for `fuel` rounds at most; `none` if they do not come to the end.
unfoldable pub parse_line : ℕ → List ℕ → ℕ → Option (List Token)
parse_line zero input i = none
parse_line (suc fuel) input i =
    let (tok, rest, j) = get_token input i in
    elim (is_eof tok.type) [
      | true ↦ some (tok ∷ [])
      | false ↦ elim (parse_line fuel rest j) [ none ↦ none | some toks ↦ some (tok ∷ toks) ]
    ]

-- `struct command` and its kinds; `file` and the arguments are indices in the line.
pub data Command : Type 0 where
  exec : List ℕ → Command
  piped : Command → Command → Command
  redirected : Command → ℕ → ℕ → ℕ → Command

-- What parsing comes to: NULL, a command with the NULs that it writes, an exit of the shell, or a
-- store behind the end of `argv`.
pub data Parsed : Type 0 where
  null : Parsed
  parsed : Command → List ℕ → Parsed
  panics : Parsed
  overruns : Parsed

-- The loop of `parse_exec` with `argc` arguments so far.
unfoldable pub parse_exec : List Token → ℕ → List ℕ → List ℕ → Parsed
parse_exec [] argc argv nuls = parsed (exec argv) nuls
parse_exec (tok ∷ toks) argc argv nuls =
    let rest =
      parse_exec toks (argc + 1) (argv ++ (tok.lexeme ∷ [])) ((tok.lexeme + tok.len) ∷ nuls) in
    if is_eof tok.type
    then parsed (exec argv) nuls
    else if ltb argc max_args
    then rest
    else overruns

abbrev pub exec_command : List Token → Parsed
exec_command toks = parse_exec toks 0 [] []

abbrev pub is_arg : TokenType → Bool
is_arg tok_arg = true
is_arg _ = false

-- The loop of `parse_cmd`: the tokens before the first operator, the operator and what is behind it;
-- `none` if there is none.
pub data Operator : Type 0 where
  no_operator : Operator
  operator : List Token → TokenType → List Token → Operator

abbrev pub passed : Token → Operator → Operator
passed tok no_operator = no_operator
passed tok (operator before op behind) = operator (tok ∷ before) op behind

unfoldable pub find_operator : List Token → Operator
find_operator [] = no_operator
find_operator (tok ∷ toks) =
    let rest = find_operator toks in
    if is_arg tok.type || is_eof tok.type then passed tok rest else operator [] tok.type toks

-- `omode` and `fd` of a redirection.
abbrev pub redirection : TokenType → Option (ℕ × ℕ)
redirection tok_redir_in = some (0, 0)
redirection tok_redir_out = some (1 + 64 + 512, 1)
redirection tok_redir_out_a = some (1 + 64 + 1024, 1)
redirection tok_redir_err = some (1 + 64 + 512, 2)
redirection tok_redir_err_a = some (1 + 64 + 1024, 2)
redirection _ = none

pub parse_redir : List Token → TokenType → List Token → Parsed
parse_redir toks op [] = panics
parse_redir toks op (file ∷ behind) =
    if is_arg file.type
    then elim (redirection op) [
      | none ↦ panics
      | some (omode, fd) ↦ elim (exec_command toks) [
        | parsed cmd nuls ↦
            parsed (redirected cmd file.lexeme omode fd) ((file.lexeme + file.len) ∷ nuls)
        | null ↦ null
        | panics ↦ panics
        | overruns ↦ overruns
      ]
    ]
    else panics

abbrev pub first_is : (TokenType → Bool) → List Token → Bool
first_is test [] = false
first_is test (tok ∷ toks) = test tok.type

-- The command of a pipe from those of its two sides.
abbrev pub pipe_command : Parsed → Parsed → Parsed
pipe_command (parsed left nuls) (parsed right nuls') = parsed (piped left right) (nuls' ++ nuls)
pipe_command (parsed left nuls) rest = rest
pipe_command failed rest = failed

abbrev pub is_pipe : TokenType → Bool
is_pipe tok_pipe = true
is_pipe _ = false

abbrev pub has_more : List Token → Bool
has_more [] = false
has_more (tok ∷ toks) = not (is_eof tok.type)

-- `parse_cmd`, with `parse_pipe`, for `fuel` calls of `parse_cmd` at most; `none` if they do not end
-- it.
unfoldable pub parse_cmd : ℕ → List Token → Option Parsed
parse_cmd zero toks = none
parse_cmd (suc fuel) toks = elim (first_is is_eof toks) [
  | true ↦ some null
  | false ↦ elim (find_operator toks) [
    | no_operator ↦ some (exec_command toks)
    | operator before op behind ↦ elim (is_pipe op) [
      | false ↦ some (parse_redir before op behind)
      | true ↦ elim (first_is is_arg toks && has_more behind) [
        | false ↦ some panics
        | true ↦ elim (parse_cmd fuel behind) [
          | none ↦ none
          | some right ↦ some (pipe_command (exec_command before) right)
        ]
      ]
    ]
  ]
]

-- `safe_gets`: `chars` is what the reads give; the line, the characters not read, and how many more
-- fit.
pub safe_gets : ℕ → List ℕ → List ℕ × List ℕ
safe_gets zero chars = ([], chars)
safe_gets (suc zero) chars = ([], chars)
safe_gets (suc (suc room)) [] = ([], [])
safe_gets (suc (suc room)) (c ∷ chars) =
    let (line, left) = safe_gets (suc room) chars in
    if c == 10 || c == 13 then (c ∷ [], chars) else (c ∷ line, left)
