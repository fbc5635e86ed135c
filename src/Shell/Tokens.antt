-- ===== src/Shell/Tokens.antt =====
-- `get_token` and `parse_line`: the tokens lie in the line, and the loop ends.
-- Text from index `i` on that ends at `end`.
use oskernel.Prelude.{ℕ, ◌+◌, ◌≤◌, ◌≡◌, true, false, List, [], ◌∷◌}
use oskernel.Shell.{Token, is_eof}

abbrev pub Within : ℕ → ℕ → Token → Type 0
Within i end tok = (i ≤ tok.lexeme) × (tok.lexeme + tok.len ≤ end)

-- The list ends with its only `TOK_EOF`.
pub IsLine : List Token → Type 0
IsLine [] = ⊥
IsLine (tok ∷ []) = is_eof tok.type ≡ true
IsLine (tok ∷ tok' ∷ toks) = (is_eof tok.type ≡ false) × IsLine (tok' ∷ toks)
