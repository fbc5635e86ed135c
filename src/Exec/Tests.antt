-- ===== src/Exec/Tests.antt =====
-- A stack for two arguments and one variable.
use oskernel.Prelude.{◌-◌, ◌≡◌, refl, true, [], ◌∷◌}
use oskernel.Exec.{user_stack_top, push, push_strings, push_array, ready, build_stack}

small_stack :
    build_stack (λ _ _. true) (3 ∷ 5 ∷ []) (10 ∷ [])
    ≡ ready (record {
      argc = 2;
      argv = user_stack_top - 64;
      env = user_stack_top - 96;
      sp = user_stack_top - 96;
    })
unfolding build_stack push_array push_strings push
small_stack = refl
