-- ===== src/Llvm.antt =====
-- What the passes and the CFG builder take from LLVM: comparison predicates and their meaning on
-- w-bit integers, and the control flow of blocks that a pass creates. A w-bit integer is its bit
-- pattern, a number below 2 * half, where half = 2 ^ (w - 1).
use clam.Prelude.{
  ℕ, zero, suc, ◌-◌, ◌*◌, ◌≡◌, Bool, true, false, List, [], ◌∷◌, Option, none, some, ltb, leb, ◌==◌,
  if◌then◌else◌, not,
}
use clam.Prelude.Int.{ℤ, pos, negsuc, ltb_ℤ}

-- CmpInst::Predicate, for integers.
pub data Predicate : Type 0 where
  icmp_eq icmp_ne icmp_ugt icmp_uge icmp_ult icmp_ule icmp_sgt icmp_sge icmp_slt icmp_sle :
      Predicate

-- The integer that a bit pattern stands for.
abbrev pub signed : ℕ → ℕ → ℤ
signed half a = if ltb a half then pos a else negsuc (2 * half - a - 1)

-- icmp of the LLVM language reference, with getSwappedPredicate and getSignedPredicate.
pub record Icmp (half : ℕ) : Type 0 where
  pub icmp : Predicate → ℕ → ℕ → Bool
  pub swapped : Predicate → Predicate
  pub signed_of : Predicate → Predicate

pub record IcmpLaws {half : ℕ} (m : Icmp half) : Type 0 where
  pub eq_law : (a b : ℕ) → m.icmp icmp_eq a b ≡ (a == b)
  pub ne_law : (a b : ℕ) → m.icmp icmp_ne a b ≡ not (a == b)
  pub ult_law : (a b : ℕ) → m.icmp icmp_ult a b ≡ ltb a b
  pub ule_law : (a b : ℕ) → m.icmp icmp_ule a b ≡ leb a b
  pub slt_law : (a b : ℕ) → m.icmp icmp_slt a b ≡ ltb_ℤ (signed half a) (signed half b)
  pub sle_law : (a b : ℕ) → m.icmp icmp_sle a b ≡ not (ltb_ℤ (signed half b) (signed half a))
  pub sge_law : (a b : ℕ) → m.icmp icmp_sge a b ≡ not (ltb_ℤ (signed half a) (signed half b))
  pub swapped_law : (p : Predicate) (a b : ℕ) → m.icmp (m.swapped p) b a ≡ m.icmp p a b
  pub swapped_ugt : m.swapped icmp_ugt ≡ icmp_ult
  pub swapped_uge : m.swapped icmp_uge ≡ icmp_ule
  pub swapped_sgt : m.swapped icmp_sgt ≡ icmp_slt
  pub swapped_sge : m.swapped icmp_sge ≡ icmp_sle
  pub signed_ult : m.signed_of icmp_ult ≡ icmp_slt
  pub signed_ule : m.signed_of icmp_ule ≡ icmp_sle

-- ConstantInt, or any other value by its name.
pub data Operand : Type 0 where
  constant variable : ℕ → Operand

pub record Cmp : Type 0 where
  pub pred : Predicate
  pub lhs : Operand
  pub rhs : Operand

-- The blocks around an instruction that is lowered.
pub data Label : Type 0 where
  cur bb1 bb2 bb3 bb4 cont : Label

abbrev pub label_id : Label → ℕ
label_id cur = 0
label_id bb1 = 1
label_id bb2 = 2
label_id bb3 = 3
label_id bb4 = 4
label_id cont = 5

-- BranchInst: unconditional, on a comparison that the block makes, or on a value.
pub data Term : Type 0 where
  br : Label → Term
  br_cmp : Cmp → Label → Label → Term
  br_value : Operand → Label → Label → Term

-- `result` is the comparison that the block makes for the PHI node, if it makes one.
pub record Block : Type 0 where
  pub result : Option Cmp
  pub term : Term

-- An incoming value of the PHI node: a Boolean constant, the result of the block, or a value.
pub data Incoming : Type 0 where
  get_true get_false of_block : Incoming
  of_value : Operand → Incoming

pub record Arc : Type 0 where
  pub value : Incoming
  pub from : Label

-- The blocks from `cur` to `cont`, and the PHI node at the start of `cont`.
pub record Fragment : Type 0 where
  pub block : Label → Option Block
  pub phi : List Arc

abbrev pub of_bool : Bool → ℕ
of_bool true = 1
of_bool false = 0

-- The meaning of a fragment: branches are followed to `cont`, where the PHI node takes the value
-- of the block that control came from.
module _ {half : ℕ} (m : Icmp half) (env : ℕ → ℕ) where
  unfoldable pub value_of : Operand → ℕ
  value_of (constant n) = n
  value_of (variable x) = env x

  unfoldable pub eval_cmp : Cmp → Bool
  unfolding value_of
  eval_cmp c = m.icmp c.pred (value_of c.lhs) (value_of c.rhs)

  unfoldable pub target : Term → Label
  unfolding eval_cmp value_of
  target (br l) = l
  target (br_cmp c l l') = if eval_cmp c then l else l'
  target (br_value x l l') = if value_of x == 0 then l' else l

  unfoldable pub result_of : Option Cmp → Option ℕ
  unfolding eval_cmp
  result_of none = none
  result_of (some c) = some (of_bool (eval_cmp c))

  unfoldable pub incoming : Incoming → Block → Option ℕ
  unfolding result_of value_of
  incoming get_true b = some 1
  incoming get_false b = some 0
  incoming of_block b = result_of b.result
  incoming (of_value x) b = some (value_of x)

  unfoldable pub phi_value : List Arc → Label → Block → Option ℕ
  unfolding incoming
  phi_value [] l b = none
  phi_value (a ∷ as') l b =
      if label_id a.from == label_id l then incoming a.value b else phi_value as' l b

  -- With `fuel` blocks at most; none if a block or an incoming value is missing.
  unfoldable pub run_from : ℕ → Fragment → Label → Option ℕ
  unfolding target phi_value
  run_from zero f l = none
  run_from (suc fuel) f l = elim (f.block l) [
    | none ↦ none
    | some b ↦
        let next = target b.term in
        let rest = run_from fuel f next in
        if label_id next == label_id cont then phi_value f.phi l b else rest
  ]

  -- A fragment has no loop, and no path in it has more than four blocks.
  unfoldable pub run : Fragment → Option ℕ
  unfolding run_from
  run f = run_from 4 f cur
