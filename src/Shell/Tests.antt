-- ===== src/Shell/Tests.antt =====
-- Lines that are parsed.
-- "ls|a"
use oskernel.Prelude.{length, ℕ, ◌+◌, ◌≤◌, ◌<◌, ◌≡◌, refl, some, List, [], ◌∷◌, arith}
use oskernel.Shell.{
  max_args, TokenType, tok_eof, tok_arg, tok_pipe, Token, skip_space, word_length, token_at,
  get_token, parse_line, exec, piped, Parsed, parsed, overruns, parse_exec, exec_command,
  find_operator, parse_cmd,
}
use oskernel.Shell.Parse.{count, parse_exec_bounds, parse_cmd_ends, get_token_two}

abbrev line : List ℕ
line = 108 ∷ 115 ∷ 124 ∷ 97 ∷ []

abbrev tok : TokenType → ℕ → ℕ → Token
tok type lexeme len = record { type = type; len = len; lexeme = lexeme }

abbrev pipe_line : List Token
pipe_line = tok tok_arg 0 2 ∷ tok tok_pipe 2 1 ∷ tok tok_arg 3 1 ∷ tok tok_eof 4 0 ∷ []

line_tokens : parse_line 9 line 0 ≡ some pipe_line
unfolding parse_line get_token token_at skip_space word_length
line_tokens = refl

line_command :
    parse_cmd 9 pipe_line ≡ some (parsed (piped (exec (0 ∷ [])) (exec (3 ∷ []))) (4 ∷ 2 ∷ []))
unfolding parse_cmd find_operator parse_exec
line_command = refl

parse_cmd_ends_example : (r : Parsed) × (parse_cmd 5 pipe_line ≡ some r)
parse_cmd_ends_example = parse_cmd_ends 5 pipe_line (omega arith)

parse_exec_bounds_example :
    (count pipe_line ≤ max_args
      → (argv : List ℕ) × (nuls : List ℕ) × (exec_command pipe_line ≡ parsed (exec argv) nuls)
        × (length argv ≡ count pipe_line))
    × (max_args < count pipe_line → exec_command pipe_line ≡ overruns)
parse_exec_bounds_example = parse_exec_bounds pipe_line

-- "a2b"
get_token_two_example :
    get_token (97 ∷ 50 ∷ 98 ∷ []) 0
    ≡ (record { type = tok_arg; len = 1; lexeme = 0 }, 50 ∷ 98 ∷ [], 0 + 1)
get_token_two_example = get_token_two 97 [] (98 ∷ []) 0 ((refl, refl), tt)
