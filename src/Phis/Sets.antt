-- ===== src/Phis/Sets.antt =====
-- What a block does to the values of literals: it gives a variable the value of a literal.
use clam.Prelude.{ℕ, ◌≡◌, refl, ap, ◌∙◌, Bool, true, false, List, [], ◌∷◌, some, ◌==◌, ==_refl}
use clam.Prelude.Int.{ℤ}
use clam.Lit.Values.{Var}
use clam.Lit.Literal.{Lit, bool_cst, bool_var, int_cst, int_var, ref_null, ref_var}
use clam.Compare.Crab.{exp_value, holds, number_exp}
use clam.Compare.Crab as Cst
use clam.Ir.{
  Stmt, assign, bool_copy, comparison, havoc, assume_ref, gep_ref, mk_null, Env, forget, IntOps,
  ref_holds, step, exec,
}
use clam.Ops.Views.{var_exp, constant_of}
use clam.Ops.ViewLaws.{plus_zero}

-- a value of a variable or a literal
pub data Val : Type 0 where
  bool_val : Bool → Val
  int_val : ℤ → Val
  ref_val : ℕ → Val

-- the value of a variable of the class of a literal
abbrev pub var_value : Env → Lit → Var → Val
var_value e (bool_cst b) x = bool_val (e.bools x.name)
var_value e (bool_var y) x = bool_val (e.bools x.name)
var_value e (int_cst n w) x = int_val (e.ints x.name)
var_value e (int_var y w) x = int_val (e.ints x.name)
var_value e ref_null x = ref_val (e.refs x.name)
var_value e (ref_var y) x = ref_val (e.refs x.name)

abbrev pub lit_value : Env → Lit → Val
lit_value e (bool_cst b) = bool_val b
lit_value e (bool_var y) = bool_val (e.bools y.name)
lit_value e (int_cst n w) = int_val n
lit_value e (int_var y w) = int_val (e.ints y.name)
lit_value e ref_null = ref_val 0
lit_value e (ref_var y) = ref_val (e.refs y.name)

-- the literal of a variable, of the class of another literal
abbrev pub as_var : Lit → Var → Lit
as_var (bool_cst b) x = bool_var x
as_var (bool_var y) x = bool_var x
as_var (int_cst n w) x = int_var x w
as_var (int_var y w) x = int_var x w
as_var ref_null x = ref_var x
as_var (ref_var y) x = ref_var x

pub as_var-value : (e : Env) (l : Lit) (x : Var) → lit_value e (as_var l x) ≡ var_value e l x
as_var-value e (bool_cst b) x = refl
as_var-value e (bool_var y) x = refl
as_var-value e (int_cst n w) x = refl
as_var-value e (int_var y w) x = refl
as_var-value e ref_null x = refl
as_var-value e (ref_var y) x = refl

pub var_value_class : (e : Env) (l : Lit) (y x : Var) → var_value e (as_var l y) x ≡ var_value e l x
var_value_class e (bool_cst b) y x = refl
var_value_class e (bool_var z) y x = refl
var_value_class e (int_cst n w) y x = refl
var_value_class e (int_var z w) y x = refl
var_value_class e ref_null y x = refl
var_value_class e (ref_var z) y x = refl

-- two states have the same values at a name
abbrev pub SameAt : Env → Env → ℕ → Type 0
SameAt e e' n = (e'.ints n ≡ e.ints n) × (e'.bools n ≡ e.bools n) × (e'.refs n ≡ e.refs n)

abbrev pub same_here : (e : Env) (n : ℕ) → SameAt e e n
same_here e n = (refl, refl, refl)

pub SameAt_trans : (a b c : Env) (n : ℕ) → SameAt a b n → SameAt b c n → SameAt a c n
SameAt_trans a b c n (i, b', r) (i', b'', r') = (i' ∙ i, b'' ∙ b', r' ∙ r)

pub var_value-SameAt :
    (a b : Env) (l : Lit) (x : Var) → SameAt a b x.name → var_value b l x ≡ var_value a l x
var_value-SameAt a b (bool_cst c) x (i, h, r) = ap bool_val h
var_value-SameAt a b (bool_var y) x (i, h, r) = ap bool_val h
var_value-SameAt a b (int_cst n w) x (h, b', r) = ap int_val h
var_value-SameAt a b (int_var y w) x (h, b', r) = ap int_val h
var_value-SameAt a b ref_null x (i, b', h) = ap ref_val h
var_value-SameAt a b (ref_var y) x (i, b', h) = ap ref_val h

module _ (o : IntOps) (picked : Env) where
  -- the block runs, changes only the variable, and gives it the value of the literal
  abbrev pub Sets : List Stmt → Env → Var → Lit → Type 0
  Sets block e x l =
      (e' : Env) × (exec o picked block e ≡ some e')
      × ((n : ℕ) → (n == x.name) ≡ false → SameAt e e' n)
      × (var_value e' l x ≡ lit_value e l)

  pub bool_copy-Sets : (e : Env) (x y : Var) → Sets (bool_copy x y false ∷ []) e x (bool_var y)
  unfolding exec step
  bool_copy-Sets e x y = (_, refl, λ n h. (refl, rw h refl, refl), rw (==_refl x.name) refl)

  pub bool_constant-Sets :
      (e : Env) (x : Var) (b : Bool)
      → Sets (comparison (Cst.bool_assign x (constant_of b)) ∷ []) e x (bool_cst b)
  unfolding exec step Cst.exec holds
  bool_constant-Sets e x true = (_, refl, λ n h. (refl, rw h refl, refl), rw (==_refl x.name) refl)
  bool_constant-Sets e x false = (_, refl, λ n h. (refl, rw h refl, refl), rw (==_refl x.name) refl)

  pub int_copy-Sets :
      (e : Env) (x y : Var) (w : ℕ) → Sets (assign x (var_exp y) ∷ []) e x (int_var y w)
  unfolding exec step exp_value
  int_copy-Sets e x y w = (
    _,
    refl,
    λ n h. (rw h refl, refl, refl),
    rw (==_refl x.name) (ap int_val (plus_zero (e.ints y.name))),
  )

  pub int_constant-Sets :
      (e : Env) (x : Var) (n : ℤ) (w : ℕ) → Sets (assign x (number_exp n) ∷ []) e x (int_cst n w)
  unfolding exec step exp_value
  int_constant-Sets e x n w = (_, refl, λ n h. (rw h refl, refl, refl), rw (==_refl x.name) refl)

  pub gep_ref-Sets : (e : Env) (x y r r' : Var) → Sets (gep_ref x r y r' ∷ []) e x (ref_var y)
  unfolding exec step
  gep_ref-Sets e x y r r' = (_, refl, λ n h. (refl, refl, rw h refl), rw (==_refl x.name) refl)

  assume_null :
      (e : Env) (x : Var)
      → e.refs x.name ≡ 0
      → exec o picked (assume_ref (mk_null x) ∷ []) e ≡ some e
  unfolding exec step
  assume_null e x h = rw (h, exec, step, ref_holds) refl

  pub null-Sets :
      (e : Env) (x : Var)
      → picked.refs x.name ≡ 0
      → Sets (havoc x ∷ assume_ref (mk_null x) ∷ []) e x ref_null
  unfolding exec step ref_holds
  null-Sets e x h = (
    forget picked x e,
    assume_null (forget picked x e) x (rw (==_refl x.name) h),
    λ n k. (rw k refl, rw k refl, rw k refl),
    rw (==_refl x.name) (ap ref_val h),
  )
