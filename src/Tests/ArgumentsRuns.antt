-- ===== src/Tests/ArgumentsRuns.antt =====
-- A run on the command line "cp a  b".
use os_labratory_spring.Prelude.{◌≡◌, refl, [], ◌∷◌, ok, arith}
use os_labratory_spring.Text.{Text}
use os_labratory_spring.Text.Split.{components}
use os_labratory_spring.Arguments.{Stack, setup_stack}
use os_labratory_spring.Arguments.Frame.{IsFrame, setup_stack-IsFrame}

abbrev program : Text
program = 99 ∷ 112 ∷ []

abbrev two_args : Text
two_args = 97 ∷ 32 ∷ 32 ∷ 98 ∷ []

words_behind : components 32 two_args ≡ (97 ∷ []) ∷ (98 ∷ []) ∷ []
words_behind = refl

setup_stack-IsFrame_example :
    (s : Stack) × (setup_stack (λ _. 0) 3221225472 program two_args ≡ ok s)
    × IsFrame s (program ∷ components 32 two_args)
setup_stack-IsFrame_example =
    setup_stack-IsFrame (λ _. 0) 3221225472 program two_args (omega arith) (omega arith)
      (omega arith)
