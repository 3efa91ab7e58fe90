-- ===== src/Lower/Select.antt =====
-- lib/Transforms/LowerSelect.cc: a select by branches and a PHI node.
use clam.Prelude.{ℕ, ◌≡◌, [], ◌∷◌, Option, none, some, ◌==◌, if◌then◌else◌, arith}
use clam.Llvm.{
  Icmp, Operand, Label, cur, bb1, bb2, cont, br, br_value, Block, of_value, Fragment, value_of, run,
}

-- SelectInst: its condition and its two values.
pub record Select : Type 0 where
  pub condition : Operand
  pub true_value : Operand
  pub false_value : Operand

-- bb1 is trueBlock, bb2 is falseBlock and cont is afterSelect.
unfoldable pub select_block : Select → Label → Option Block
select_block s cur = some (record { result = none; term = br_value s.condition bb1 bb2 })
select_block s bb1 = some (record { result = none; term = br cont })
select_block s bb2 = some (record { result = none; term = br cont })
select_block s _ = none

unfoldable pub process_select_inst : Select → Fragment
unfolding select_block
process_select_inst s = record {
  block = select_block s;
  phi =
      record { value = of_value s.true_value; from = bb1 }
      ∷ record { value = of_value s.false_value; from = bb2 }
      ∷ [];
}

-- The blocks that replace a select give its value: the second operand where the condition is not
-- zero, and the third where it is.
pub process_select_inst-run :
    {half : ℕ} (m : Icmp half) (env : ℕ → ℕ) (s : Select)
    → run m env (process_select_inst s)
      ≡ some (
          if value_of m env s.condition == 0
          then value_of m env s.false_value
          else value_of m env s.true_value)
unfolding run process_select_inst
process_select_inst-run m env s = ground arith
