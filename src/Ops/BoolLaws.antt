-- ===== src/Ops/BoolLaws.antt =====
-- doBoolLogicOp: the block that is emitted for a logical operator on Booleans leaves its result.
use clam.Prelude.{ℕ, ◌≡◌, refl, ap, ◌∙◌, Bool, true, false, not, List, Option, none, some}
use clam.Lit.Values.{Value, Params, Var, VarFactory}
use clam.Lit.Consts.{ApInt}
use clam.Lit.Literal.{ok, Lit, bool_var}
use clam.Lit.Factory.{Factory, get_lit, mk_bool_var}
use clam.Compare.Crab.{holds}
use clam.Compare.Crab as Cst
use clam.Ir.{BoolOp, bool_and, bool_or, bool_xor, Stmt, Env, bool_op, put_bool, IntOps, step, exec}
use clam.Ops.Views.{BoolView, bool_variable, bool_constant, bool_view, bool_logic}
use clam.Ops.Binary.{join_bools, bool_logic_on, do_bool_logic_op}
use clam.Ops.VisitLaws.{bool_value}

-- two functions that agree on both values
agree : (g h : Bool → Bool) → g true ≡ h true → g false ≡ h false → (b : Bool) → g b ≡ h b
agree g h t n true = t
agree g h t n false = n

-- the literal of a variable, or null
abbrev pub literal : Option Var → Option Lit
literal none = none
literal (some x) = some (bool_var x)

-- the variable that gets the result
abbrev pub target :
    (f : VarFactory)
    → (ℕ → Value)
    → ((w : ℕ) → ApInt w)
    → (ℕ → ℕ)
    → Params
    → Option Var
    → Factory f.State
    → Var × Factory f.State
target f value_at ap' content_width params none fac =
    mk_bool_var f value_at ap' content_width params fac
target f value_at ap' content_width params (some x) fac = (x, fac)

module _ (o : IntOps) (picked : Env) where
  -- the switch, on every pair of variables and constants
  bool_logic_lem :
      (op : BoolOp) (lhs : Var) (x y : BoolView) (e : Env)
      → exec o picked (bool_logic op lhs x y) e
        ≡ some (put_bool lhs (bool_op op (bool_value e.bools x) (bool_value e.bools y)) e)
  unfolding bool_logic bool_op exec step holds Cst.exec
  bool_logic_lem op lhs (bool_variable x) (bool_variable y) e = refl
  bool_logic_lem bool_and lhs (bool_constant true) (bool_variable y) e = refl
  bool_logic_lem bool_and lhs (bool_variable x) (bool_constant true) e =
      ap (λ v. some (put_bool lhs v e))
        (agree (λ v. v) (λ v. bool_op bool_and v true) refl refl (e.bools x.name))
  bool_logic_lem bool_and lhs (bool_constant true) (bool_constant true) e = refl
  bool_logic_lem bool_and lhs (bool_constant true) (bool_constant false) e = refl
  bool_logic_lem bool_and lhs (bool_constant false) (bool_variable y) e = refl
  bool_logic_lem bool_and lhs (bool_variable x) (bool_constant false) e =
      ap (λ v. some (put_bool lhs v e))
        (agree (λ v. false) (λ v. bool_op bool_and v false) refl refl (e.bools x.name))
  bool_logic_lem bool_and lhs (bool_constant false) (bool_constant true) e = refl
  bool_logic_lem bool_and lhs (bool_constant false) (bool_constant false) e = refl
  bool_logic_lem bool_or lhs (bool_constant true) (bool_variable y) e = refl
  bool_logic_lem bool_or lhs (bool_variable x) (bool_constant true) e =
      ap (λ v. some (put_bool lhs v e))
        (agree (λ v. true) (λ v. bool_op bool_or v true) refl refl (e.bools x.name))
  bool_logic_lem bool_or lhs (bool_constant true) (bool_constant true) e = refl
  bool_logic_lem bool_or lhs (bool_constant true) (bool_constant false) e = refl
  bool_logic_lem bool_or lhs (bool_constant false) (bool_variable y) e = refl
  bool_logic_lem bool_or lhs (bool_variable x) (bool_constant false) e =
      ap (λ v. some (put_bool lhs v e))
        (agree (λ v. v) (λ v. bool_op bool_or v false) refl refl (e.bools x.name))
  bool_logic_lem bool_or lhs (bool_constant false) (bool_constant true) e = refl
  bool_logic_lem bool_or lhs (bool_constant false) (bool_constant false) e = refl
  bool_logic_lem bool_xor lhs (bool_constant true) (bool_variable y) e = refl
  bool_logic_lem bool_xor lhs (bool_variable x) (bool_constant true) e =
      ap (λ v. some (put_bool lhs v e))
        (agree (λ v. not v) (λ v. bool_op bool_xor v true) refl refl (e.bools x.name))
  bool_logic_lem bool_xor lhs (bool_constant true) (bool_constant true) e = refl
  bool_logic_lem bool_xor lhs (bool_constant true) (bool_constant false) e = refl
  bool_logic_lem bool_xor lhs (bool_constant false) (bool_variable y) e = refl
  bool_logic_lem bool_xor lhs (bool_variable x) (bool_constant false) e =
      ap (λ v. some (put_bool lhs v e))
        (agree (λ v. v) (λ v. bool_op bool_xor v false) refl refl (e.bools x.name))
  bool_logic_lem bool_xor lhs (bool_constant false) (bool_constant true) e = refl
  bool_logic_lem bool_xor lhs (bool_constant false) (bool_constant false) e = refl

  module _ (f : VarFactory) (value_at : ℕ → Value) (ap' : (w : ℕ) → ApInt w) (content_width : ℕ → ℕ)
      (params : Params) where
    open f use {State}

    -- what the operands are read as, one after the other
    abbrev pub ReadsBools : ℕ → ℕ → BoolView → BoolView → Factory State → Factory State → Type 0
    ReadsBools v1 v2 x y fac fac' =
        let r1 = get_lit f value_at ap' content_width params v1 true fac in
        let r2 = get_lit f value_at ap' content_width params v2 true r1.1 in
        (bool_view r1.0 ≡ some x) × (bool_view r2.0 ≡ some y) × (r2.1 ≡ fac')

    bool_logic_on-reads :
        (op : BoolOp) (lhs : Var) (v1 v2 : ℕ) (x y : BoolView) (fac fac' : Factory State)
        → ReadsBools v1 v2 x y fac fac'
        → bool_logic_on o f value_at ap' content_width params op lhs v1 v2 fac
          ≡ ok (lhs, bool_logic op lhs x y, fac')
    unfolding bool_logic_on join_bools
    bool_logic_on-reads op lhs v1 v2 x y fac fac' (h1, h2, h3) =
        let r1 = get_lit f value_at ap' content_width params v1 true fac in
        let r2 = get_lit f value_at ap' content_width params v2 true r1.1 in
        let join = join_bools o f value_at ap' content_width params op lhs in
        ap (λ b. join b r1.1 (bool_view r2.0, r2.1)) h1
        ∙ (ap (λ b. join (some x) r1.1 (b, r2.1)) h2
            ∙ ap (λ c. ok (lhs, bool_logic op lhs x y, c)) h3)

    -- If the operands are read as Boolean literals, doBoolLogicOp emits a block that leaves the
    -- conjunction, the disjunction or the exclusive or of their values in the variable of the
    -- instruction, or in a new one if there is none, and changes nothing else.
    pub do_bool_logic_op_lem :
        (op : BoolOp) (lhs : Option Var) (v1 v2 : ℕ) (x y : BoolView)
        (fac fac1 fac' : Factory State) (res : Var) (e : Env)
        → target f value_at ap' content_width params lhs fac ≡ (res, fac1)
        → ReadsBools v1 v2 x y fac1 fac'
        → (block : List Stmt) × (do_bool_logic_op o f value_at ap' content_width params op
              (literal lhs)
              v1
              v2
              fac
            ≡ ok (res, block, fac'))
          × (exec o picked block e
              ≡ some (put_bool res (bool_op op (bool_value e.bools x) (bool_value e.bools y)) e))
    unfolding do_bool_logic_op
    do_bool_logic_op_lem op none v1 v2 x y fac fac1 fac' res e at_res reads = (
      bool_logic op res x y,
      ap (λ r. bool_logic_on o f value_at ap' content_width params op r.0 v1 v2 r.1) at_res
          ∙ bool_logic_on-reads op res v1 v2 x y fac1 fac' reads,
      bool_logic_lem op res x y e,
    )
    do_bool_logic_op_lem op (some lhs) v1 v2 x y fac fac1 fac' res e at_res reads = (
      bool_logic op res x y,
      ap (λ r. bool_logic_on o f value_at ap' content_width params op r.0 v1 v2 r.1) at_res
          ∙ bool_logic_on-reads op res v1 v2 x y fac1 fac' reads,
      bool_logic_lem op res x y e,
    )
