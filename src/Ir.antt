-- ===== src/Ir.antt =====
-- The statements of CrabIR that lib/Clam/CfgBuilder.cc emits, and what they do to the values of the
-- variables. Crab gives the operations on numbers.
pub mod Runs
use clam.Prelude.{
  ℕ, ◌≡◌, Bool, true, false, not, ◌&&◌, ◌||◌, List, [], ◌∷◌, Option, none, some, ◌==◌, ltb,
  if◌then◌else◌,
}
use clam.Prelude.Int.{ℤ, ◌+ℤ◌, ◌-ℤ◌, ◌*ℤ◌}
use clam.Lit.Values.{Var}
use clam.Lit.Literal.{LinExp}
use clam.Compare.Crab.{LinCst, exp_value, holds, set_bool}
use clam.Compare.Crab

pub data IntOp : Type 0 where
  add sub mul sdiv udiv srem urem bitwise_and bitwise_or bitwise_xor shl ashr lshr : IntOp

pub data BoolOp : Type 0 where
  bool_and bool_or bool_xor : BoolOp

-- ref_cst_t, as the code makes it.
pub data RefCst : Type 0 where
  mk_true mk_false : RefCst
  mk_null mk_gt_null mk_lt_null mk_le_null mk_ge_null : Var → RefCst
  mk_eq mk_not_eq mk_lt mk_le : Var → Var → RefCst

pub data Stmt : Type 0 where
  assign : Var → LinExp → Stmt
  int_vars : IntOp → Var → Var → Var → Stmt
  int_number : IntOp → Var → Var → ℤ → Stmt
  bool_vars : BoolOp → Var → Var → Var → Stmt
  -- bool_assign of a variable, negated or not
  bool_copy : Var → Var → Bool → Stmt
  bool_ref : Var → RefCst → Stmt
  -- the statements of comparisons, which assign Boolean variables
  comparison : Crab.Stmt → Stmt
  havoc : Var → Stmt
  assume : LinCst → Stmt
  bool_assume : Var → Bool → Stmt
  assume_ref : RefCst → Stmt
  -- gep_ref with no offset, and the regions of the two references
  gep_ref : Var → Var → Var → Var → Stmt
  unreachable : Stmt

-- The values of the variables, by name. A reference is an address, and null is 0.
pub record Env : Type 0 where
  pub ints : ℕ → ℤ
  pub bools : ℕ → Bool
  pub refs : ℕ → ℕ

unfoldable pub bool_op : BoolOp → Bool → Bool → Bool
bool_op bool_and a b = a && b
bool_op bool_or a b = a || b
bool_op bool_xor a b = if a then not b else b

unfoldable pub ref_holds : (ℕ → ℕ) → RefCst → Bool
ref_holds refs mk_true = true
ref_holds refs mk_false = false
ref_holds refs (mk_null x) = refs x.name == 0
ref_holds refs (mk_gt_null x) = ltb 0 (refs x.name)
ref_holds refs (mk_lt_null x) = ltb (refs x.name) 0
ref_holds refs (mk_le_null x) = not (ltb 0 (refs x.name))
ref_holds refs (mk_ge_null x) = not (ltb (refs x.name) 0)
ref_holds refs (mk_eq x y) = refs x.name == refs y.name
ref_holds refs (mk_not_eq x y) = not (refs x.name == refs y.name)
ref_holds refs (mk_lt x y) = ltb (refs x.name) (refs y.name)
ref_holds refs (mk_le x y) = not (ltb (refs y.name) (refs x.name))

abbrev pub update {ℓ} : {A : Type ℓ} → ℕ → A → (ℕ → A) → ℕ → A
update x v f n = if n == x then v else f n

abbrev pub set_int : Var → ℤ → Env → Env
set_int x v e = record e { ints = update x.name v e.ints }

abbrev pub put_bool : Var → Bool → Env → Env
put_bool x v e = record e { bools = update x.name v e.bools }

-- A variable gets the values that are picked.
abbrev pub forget : Env → Var → Env → Env
forget picked x e = record {
  ints = update x.name (picked.ints x.name) e.ints;
  bools = update x.name (picked.bools x.name) e.bools;
  refs = update x.name (picked.refs x.name) e.refs;
}

-- The operations of the statements, and of number_t on two constants.
pub record IntOps : Type 0 where
  pub apply : IntOp → ℤ → ℤ → ℤ
  pub fold : IntOp → ℤ → ℤ → ℤ

-- The functions on integers that the names of LLVM's opcodes stand for, where the library has none.
-- For the unsigned and the bitwise ones the integers stand for bit patterns.
pub record Numbers : Type 0 where
  pub signed_div : ℤ → ℤ → ℤ
  pub unsigned_div : ℤ → ℤ → ℤ
  pub signed_rem : ℤ → ℤ → ℤ
  pub unsigned_rem : ℤ → ℤ → ℤ
  pub bits_and : ℤ → ℤ → ℤ
  pub bits_or : ℤ → ℤ → ℤ
  pub bits_xor : ℤ → ℤ → ℤ
  pub shift_left : ℤ → ℤ → ℤ
  pub arithmetic_shift_right : ℤ → ℤ → ℤ
  pub logical_shift_right : ℤ → ℤ → ℤ

-- A statement computes what number_t computes, and that is the function of its name. Crab's integers
-- are not bounded.
pub record IntOpsLaws (o : IntOps) (n : Numbers) : Type 0 where
  pub fold_law : (op : IntOp) (a b : ℤ) → o.fold op a b ≡ o.apply op a b
  pub add_law : (a b : ℤ) → o.apply add a b ≡ a +ℤ b
  pub sub_law : (a b : ℤ) → o.apply sub a b ≡ a -ℤ b
  pub mul_law : (a b : ℤ) → o.apply mul a b ≡ a *ℤ b
  pub sdiv_law : (a b : ℤ) → o.apply sdiv a b ≡ n.signed_div a b
  pub udiv_law : (a b : ℤ) → o.apply udiv a b ≡ n.unsigned_div a b
  pub srem_law : (a b : ℤ) → o.apply srem a b ≡ n.signed_rem a b
  pub urem_law : (a b : ℤ) → o.apply urem a b ≡ n.unsigned_rem a b
  pub and_law : (a b : ℤ) → o.apply bitwise_and a b ≡ n.bits_and a b
  pub or_law : (a b : ℤ) → o.apply bitwise_or a b ≡ n.bits_or a b
  pub xor_law : (a b : ℤ) → o.apply bitwise_xor a b ≡ n.bits_xor a b
  pub shl_law : (a b : ℤ) → o.apply shl a b ≡ n.shift_left a b
  pub ashr_law : (a b : ℤ) → o.apply ashr a b ≡ n.arithmetic_shift_right a b
  pub lshr_law : (a b : ℤ) → o.apply lshr a b ≡ n.logical_shift_right a b

-- `picked` holds the values that havoc gives.
module _ (o : IntOps) (picked : Env) where
  -- none where an assumption fails
  unfoldable pub step : Stmt → Env → Option Env
  unfolding bool_op ref_holds holds exp_value
  step (assign x a) e = some (set_int x (exp_value e.ints a) e)
  step (int_vars op x y z) e = some (set_int x (o.apply op (e.ints y.name) (e.ints z.name)) e)
  step (int_number op x y n) e = some (set_int x (o.apply op (e.ints y.name) n) e)
  step (bool_vars op x y z) e = some (put_bool x (bool_op op (e.bools y.name) (e.bools z.name)) e)
  step (bool_copy x y negate) e =
      some (put_bool x (if negate then not (e.bools y.name) else e.bools y.name) e)
  step (bool_ref x c) e = some (put_bool x (ref_holds e.refs c) e)
  step (comparison s) e = some (record e { bools = Crab.exec picked.bools e.ints (s ∷ []) e.bools })
  step (havoc x) e = some (forget picked x e)
  step (assume c) e = if holds e.ints c then some e else none
  step (bool_assume x negated) e =
      if (if negated then not (e.bools x.name) else e.bools x.name) then some e else none
  step (assume_ref c) e = if ref_holds e.refs c then some e else none
  step (gep_ref x r y r') e = some (record e { refs = update x.name (e.refs y.name) e.refs })
  step unreachable e = none

  unfoldable pub exec : List Stmt → Env → Option Env
  unfolding step
  exec [] e = some e
  exec (s ∷ ss) e = elim (step s e) [ none ↦ none | some e' ↦ exec ss e' ]
