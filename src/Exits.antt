-- ===== src/Exits.antt =====
-- lib/Clam/CfgBuilder.cc: setExitBlock, the choice of the exit of Crab's graph.
pub mod Laws
use clam.Prelude.{ℕ, Bool, true, false, List, [], ◌∷◌, Option, none, some, ◌==◌, if◌then◌else◌}
use clam.Lit.Literal.{Checked, ok, clam_error, ◌>>=◌}

-- A block of the function: whether it ends in a return, whether it has an unreachable instruction, and
-- its successors.
pub record Block : Type 0 where
  pub id : ℕ
  pub is_return : Bool
  pub has_unreachable : Bool
  pub succs : List ℕ

-- The first loop: the only block that returns.
unfoldable pub find_return : List Block → Option ℕ → Checked (Option ℕ)
find_return [] found = ok found
find_return (b ∷ bs) none =
    let rest = find_return bs none in
    let rest' = find_return bs (some b.id) in if b.is_return then rest' else rest
find_return (b ∷ bs) (some found) =
    let rest = find_return bs (some found) in if b.is_return then clam_error else rest

unfoldable pub succs_of : ℕ → List Block → List ℕ
succs_of s [] = []
succs_of s (b ∷ bs) = if b.id == s then b.succs else succs_of s bs

abbrev pub only_itself : ℕ → List ℕ → Option ℕ
only_itself s (t ∷ []) = if t == s then some s else none
only_itself s _ = none

-- The pattern of an entry that goes to a block which only goes to itself.
unfoldable pub goto_loop : List ℕ → List Block → Option ℕ
unfolding succs_of
goto_loop (s ∷ []) bs = only_itself s (succs_of s bs)
goto_loop _ bs = none

unfoldable pub first_unreachable : List Block → Option ℕ
first_unreachable [] = none
first_unreachable (b ∷ bs) =
    let rest = first_unreachable bs in if b.has_unreachable then some b.id else rest

-- Every block without successors is made the exit in turn.
unfoldable pub last_without_succs : List Block → Option ℕ → Option ℕ
last_without_succs [] exit = exit
last_without_succs (b ∷ bs) exit = elim b.succs [
  | [] ↦ last_without_succs bs (some b.id)
  | s ∷ ss ↦ last_without_succs bs exit
]

abbrev pub or_else : Option ℕ → Option ℕ → Option ℕ
or_else none b = b
or_else (some a) b = some a

-- From the successors of the entry; none where no exit is set.
unfoldable pub set_exit_block : List ℕ → List Block → Checked (Option ℕ)
unfolding find_return goto_loop first_unreachable last_without_succs
set_exit_block entry bs = find_return bs none >>= (λ r. ok (
    or_else r
      (or_else (goto_loop entry bs) (or_else (first_unreachable bs) (last_without_succs bs none)))))
