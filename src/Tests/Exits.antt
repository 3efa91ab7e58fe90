-- ===== src/Tests/Exits.antt =====
-- The exit of a function with two blocks that go nowhere.
use clam.Prelude.{ℕ, false, List, [], ◌∷◌, some}
use clam.Lit.Literal.{ok}
use clam.Exits.{Block, set_exit_block}
use clam.Exits.Laws.{IsExit, set_exit_block-IsExit}

abbrev plain_block : ℕ → List ℕ → Block
plain_block n ss = record { id = n; is_return = false; has_unreachable = false; succs = ss }

abbrev two_sinks : List Block
two_sinks = plain_block 0 (1 ∷ 2 ∷ []) ∷ plain_block 1 [] ∷ plain_block 2 [] ∷ []

set_exit_block-IsExit_example : IsExit (1 ∷ 2 ∷ []) two_sinks (ok (some 2))
unfolding set_exit_block
set_exit_block-IsExit_example = set_exit_block-IsExit (1 ∷ 2 ∷ []) two_sinks
