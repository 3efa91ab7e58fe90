-- ===== src/PathAnalyzer/Interface.antt =====
-- What path_analyzer takes from Crab: the control-flow graph and its statements, the abstract
-- domain with its transformer, and the sets of variables. Blocks, statements (which the code
-- holds by pointer) and variables are numbers.
use clam.Prelude.{ℕ, Bool, true, false, ◌||◌, ◌&&◌, not, List, ◌≡◌, ◌==◌}

-- The statement classes that the analyzer tells apart.
pub data Kind : Type 0 where
  assume bool_assume ref_assume assert bool_assert ref_assert : Kind
  bool_bin_op bool_assign_cst bool_assign_var bool_select other : Kind

-- `variables` is constraint().variables(), or cond() alone for a Boolean assume or assert;
-- `contradiction` is constraint().is_contradiction(); `uses` and `defs` are get_live().
pub record Stmt : Type 0 where
  pub kind : Kind
  pub contradiction : Bool
  pub variables : List ℕ
  pub uses : List ℕ
  pub defs : List ℕ

-- m_cfg: get_node, next_nodes, and what a statement pointer leads to.
pub record Cfg : Type 0 where
  pub node : ℕ → List ℕ
  pub next_nodes : ℕ → List ℕ
  pub stmt : ℕ → Stmt
  pub parent : ℕ → ℕ

-- AbsDom with the transformer intra_abs_transformer: `transform s v` is s.accept from v.
pub record Domain : Type 1 where
  pub Dom : Type 0
  pub is_bottom : Dom → Bool
  pub top : Dom
  pub bottom : Dom
  pub transform : ℕ → Dom → Dom

-- ikos::discrete_domain over variables, as the analyzer uses it: `empty` is the default value,
-- and is_bottom says that a set is empty.
pub record VarDom : Type 1 where
  pub Set : Type 0
  pub empty : Set
  pub add : Set → ℕ → Set
  pub join : Set → Set → Set
  pub minus : Set → Set → Set
  pub meet : Set → Set → Set
  pub is_empty : Set → Bool
  pub has : ℕ → Set → Bool

-- The documented behaviour of the sets of variables.
pub record VarDomLaws (v : VarDom) : Type 0 where
  pub has-empty : (x : ℕ) → v.has x v.empty ≡ false
  pub has-add : (x y : ℕ) (a : v.Set) → v.has x (v.add a y) ≡ ((x == y) || v.has x a)
  pub has-join : (x : ℕ) (a b : v.Set) → v.has x (v.join a b) ≡ (v.has x a || v.has x b)
  pub has-minus : (x : ℕ) (a b : v.Set) → v.has x (v.minus a b) ≡ (v.has x a && not (v.has x b))
  pub has-meet : (x : ℕ) (a b : v.Set) → v.has x (v.meet a b) ≡ (v.has x a && v.has x b)
  pub is_empty-empty : v.is_empty v.empty ≡ true
  pub has-is_empty : (x : ℕ) (a : v.Set) → v.is_empty a ≡ true → v.has x a ≡ false

-- CRAB_ERROR ends the program; an access outside a vector has no meaning in C++.
pub data Error : Type 0 where
  not_acyclic core_not_unsat out_of_bounds : Error

pub data Result {ℓ} (A : Type ℓ) : Type ℓ where
  ok : A → Result A
  err : Error → Result A

infixl 5 ◌>>=◌
abbrev pub ◌>>=◌ {ℓ κ} : {A : Type ℓ} {B : Type κ} → Result A → (A → Result B) → Result B
ok a >>= f = f a
err e >>= f = err e
