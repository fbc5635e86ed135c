-- ===== src/Exec/Stack.antt =====
-- Where the strings and the arrays of a new program's stack are.
-- Strings of these lengths at these addresses, one below the other, from `hi` down to `lo`.
use oskernel.Prelude.{
  length, ℕ, ◌+◌, ◌*◌, ◌%◌, ◌^◌, ◌≤◌, ◌<◌, ◌≡◌, ◌⊎◌, Option, none, some, List, [], ◌∷◌,
}
use oskernel.Exec.{
  max_args, max_envs, user_stack_top, Pushed, refused, overruns, pushed, StackResult, no_stack,
  overruns_array, ready,
}
use oskernel.Paging.Users.{user_stack_base}

pub Stacked : List ℕ → List ℕ → ℕ → ℕ → Type 0
Stacked [] [] hi lo = lo ≡ hi
Stacked [] (a ∷ addrs) hi lo = ⊥
Stacked (len ∷ lens) [] hi lo = ⊥
Stacked (len ∷ lens) (a ∷ addrs) hi lo =
    (a % 16 ≡ 0) × (user_stack_base ≤ a) × (a + len ≤ hi) × Stacked lens addrs a lo

-- A place in the stack.
abbrev InStack : ℕ → Type 0
InStack sp = (user_stack_base ≤ sp) × (sp ≤ user_stack_top)

abbrev small : ℕ
small = 2 ^ 32

data Pushes (len sp : ℕ) (r : Option ℕ) : Type 0 where
  fails : r ≡ none → Pushes len sp r
  pushes :
      (sp' : ℕ)
      → r ≡ some sp'
      → sp' % 16 ≡ 0
      → user_stack_base ≤ sp'
      → sp' + len ≤ sp
      → Pushes len sp r

data Strings (limit count : ℕ) (lens : List ℕ) (sp : ℕ) (r : Option (ℕ × List ℕ)) : Type 0 where
  no_room : r ≡ none → Strings limit count lens sp r
  placed :
      (end : ℕ) (addrs : List ℕ)
      → r ≡ some (end, addrs)
      → Stacked lens addrs sp end
      → InStack end
      → end ≤ sp
      → count + length lens ≤ limit
      → Strings limit count lens sp r

-- The strings of these lengths from `hi` down, and the array of their addresses below them, at `array`.
pub record Laid (lens : List ℕ) (hi array : ℕ) : Type 0 where
  pub addrs : List ℕ
  pub lo : ℕ
  pub strings : Stacked lens addrs hi lo
  pub room : array + (length lens + 1) * 8 ≤ lo
  pub below : lo ≤ hi
  pub aligned : array % 16 ≡ 0
  pub bounded : user_stack_base ≤ array

data Arrays (limit : ℕ) (lens : List ℕ) (sp : ℕ) (r : Pushed) : Type 0 where
  no_array : r ≡ refused → Arrays limit lens sp r
  full_array : r ≡ overruns → length lens ≡ limit → Arrays limit lens sp r
  arrays :
      (array : ℕ) (addrs : List ℕ)
      → r ≡ pushed array addrs
      → Laid lens sp array
      → length lens < limit
      → Arrays limit lens sp r

-- What the building of a stack comes to.
pub data Built (argv env : List ℕ) (r : StackResult) : Type 0 where
  fails_bad : r ≡ no_stack → Built argv env r
  overflows :
      r ≡ overruns_array → (length argv ≡ max_args) ⊎ (length env ≡ max_envs) → Built argv env r
  built :
      (uargv uenv : ℕ)
      → r ≡ ready (record { argc = length argv; argv = uargv; env = uenv; sp = uenv })
      → Laid argv user_stack_top uargv
      → Laid env uargv uenv
      → length argv < max_args
      → length env < max_envs
      → Built argv env r
