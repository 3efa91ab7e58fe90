-- ===== src/Ops/BinaryLaws.antt =====
-- The statements of a binary operator compute its result.
use clam.Prelude.{
  ℕ, ◌≡◌, refl, ap, ◌∙◌, inl, inr, Bool, true, false, List, [], ◌∷◌, Option, none, some, ◌==◌,
  if◌then◌else◌, Bool-cases, ==_refl, ==_iff,
}
use clam.Prelude.Int.{ℤ}
use clam.Lit.Values.{Value, Params, Var, VarFactory, VarFactoryLaws, int_type}
use clam.Lit.Consts.{ApInt}
use clam.Lit.Literal.{ok, LinExp}
use clam.Compare.Blocks.{get_differs}
use clam.Lit.Factory.{Factory, mk_int_var, new_var}
use clam.Compare.Crab.{exp_value}
use clam.Ir.{IntOp, Stmt, assign, Env, set_int, update, IntOps, Numbers, IntOpsLaws, step, exec}
use clam.Ops.Views.{
  Opcode, Row, row_of, both_constant, View, variable, number, neither, view_of, view, bin_op,
  do_bin_op, is_number, var_exp,
}
use clam.Ops.Meaning.{folds, meaning, OperatorMeans, RowMeans}
use clam.Ops.Binary.{arithmetic}
use clam.Ops.ViewLaws.{
  AgreeOn, IsPlain, ViewHolds, is_precise, plus_zero, precise_variable, same_by_view,
  view-ViewHolds,
}

module _ (o : IntOps) (numbers : Numbers) (laws : IntOpsLaws o numbers) (picked : Env) where
  -- a block that puts a value in an integer variable, and leaves the others that are kept
  abbrev pub Puts : List Stmt → Env → Var → ℤ → (ℕ → Bool) → Type 0
  Puts block e lhs v kept =
      (e' : Env) × (exec o picked block e ≡ some e')
      × (e'.ints lhs.name ≡ v)
      × ((n : ℕ) → kept n ≡ true → (n == lhs.name) ≡ false → e'.ints n ≡ e.ints n)

  abbrev pub all_names : ℕ → Bool
  all_names n = true

  abbrev pub result : Opcode → Var → View → View → ℤ → ℤ → ℤ
  result op lhs v1 v2 x y =
      if is_precise op v1 v2 then meaning numbers op x y else picked.ints lhs.name

  both_constant-Puts :
      (op : Opcode) (c : Option IntOp) (folded : Bool) (lhs : Var) (m n : ℤ) (e : Env)
      → OperatorMeans o numbers laws op c folded
      → Puts
          (both_constant o c lhs m n ∷ [])
          e
          lhs
          (if folded then meaning numbers op m n else picked.ints lhs.name)
          all_names
  unfolding both_constant exec step exp_value
  both_constant-Puts op (some c) true lhs m n e means =
      (_, refl, rw (==_refl lhs.name) (means m n), λ i h d. rw d refl)
  both_constant-Puts op none false lhs m n e means =
      (_, refl, rw (==_refl lhs.name) refl, λ i h d. rw d refl)
  both_constant-Puts op (some c) false lhs m n e means = absurd means
  both_constant-Puts op none true lhs m n e means = absurd means

  bin_op-Puts :
      (op : Opcode) (row : Row) (lhs : Var) (v1 v2 : View) (x y : ℤ) (e : Env)
      → RowMeans o numbers laws op row
      → IsPlain v1
      → IsPlain v2
      → ViewHolds e.ints v1 x
      → ViewHolds e.ints v2 y
      → Puts (bin_op o row lhs v1 v2) e lhs (result op lhs v1 v2 x y) all_names
  unfolding bin_op exec step exp_value
  bin_op-Puts op row lhs (variable a) (variable b) x y e means p q hx hy =
      (_, refl, rw (==_refl lhs.name, hx, hy) (means.0 _ _), λ n k h. rw h refl)
  bin_op-Puts op row lhs (variable a) (number n) x y e means p q hx hy =
      (_, refl, rw (==_refl lhs.name, hx, hy) (means.0 _ _), λ n k h. rw h refl)
  bin_op-Puts op row lhs (number m) (variable b) x y e means p q hx hy =
      (_, refl, rw (==_refl lhs.name) refl, λ n k h. rw h refl)
  bin_op-Puts op row lhs (number m) (number n) x y e means p q hx hy =
      rw (hx, hy) (both_constant-Puts op row.operator (folds op) lhs m n e means.1)
  bin_op-Puts op row lhs neither v2 x y e means p q hx hy = absurd p
  bin_op-Puts op row lhs v1 neither x y e means p q hx hy = absurd q

  -- a temporary variable first, which is none of the names that are kept
  assign_then :
      (t : Var) (a : LinExp) (rest : List Stmt) (e : Env) (lhs : Var) (v : ℤ) (kept : ℕ → Bool)
      → ((n : ℕ) → kept n ≡ true → (n == t.name) ≡ false)
      → Puts rest (set_int t (exp_value e.ints a) e) lhs v kept
      → Puts (assign t a ∷ rest) e lhs v kept
  unfolding exec step
  assign_then t a rest e lhs v kept new (e', run, put, others) =
      (e', run, put, λ n k d. others n k d ∙ rw (new n k) refl)

  pub weaken :
      (block : List Stmt) (e : Env) (lhs : Var) (v : ℤ) (kept : ℕ → Bool)
      → Puts block e lhs v all_names
      → Puts block e lhs v kept
  weaken block e lhs v kept (e', run, put, others) = (e', run, put, λ n k d. others n refl d)

  abbrev pub emitted : Row → Var → LinExp → LinExp → List Stmt
  emitted row lhs op1 op2 = bin_op o row lhs (view op1) (view op2)

  -- doBinOp emits the statements of the row.
  pub do_bin_op-emitted :
      (op : Opcode) (row : Row) (lhs : Var) (op1 op2 : LinExp)
      → row_of op ≡ some row
      → do_bin_op o op lhs op1 op2 ≡ ok (emitted row lhs op1 op2)
  unfolding do_bin_op
  do_bin_op-emitted op row lhs op1 op2 e = rw (e, do_bin_op) refl

  pub do_bin_op-Puts :
      (op : Opcode) (row : Row) (means : RowMeans o numbers laws op row) (lhs : Var)
      (op1 op2 : LinExp) (e : Env)
      → IsPlain (view op1)
      → IsPlain (view op2)
      → Puts
          (emitted row lhs op1 op2)
          e
          lhs
          (result op lhs (view op1) (view op2) (exp_value e.ints op1) (exp_value e.ints op2))
          all_names
  do_bin_op-Puts op row means lhs op1 op2 e p q =
      bin_op-Puts op row lhs (view op1) (view op2) (exp_value e.ints op1) (exp_value e.ints op2) e
        means p q (view-ViewHolds e.ints op1) (view-ViewHolds e.ints op2)

  -- the left operand is a variable
  variable-Puts :
      (op : Opcode) (row : Row) (means : RowMeans o numbers laws op row) (lhs t : Var)
      (op2 : LinExp) (e : Env) (x y : ℤ)
      → IsPlain (view op2)
      → exp_value e.ints (var_exp t) ≡ x
      → exp_value e.ints op2 ≡ y
      → Puts (emitted row lhs (var_exp t) op2) e lhs (meaning numbers op x y) all_names
  unfolding view view_of
  variable-Puts op row means lhs t op2 e x y p hx hy =
      let (e', run, put, others) = do_bin_op-Puts op row means lhs (var_exp t) op2 e tt p in
      (
        e',
        run,
        put
            ∙ ap (λ z. meaning numbers op z (exp_value e.ints op2)) hx
            ∙ ap (meaning numbers op x) hy,
        others,
      )

  temp_value : (t : Var) (v : ℤ) (e : Env) → exp_value (set_int t v e).ints (var_exp t) ≡ v
  unfolding exp_value
  temp_value t v e = rw (plus_zero (update t.name v e.ints t.name), ==_refl t.name) refl

  other_value :
      (t u : Var) (v : ℤ) (e : Env)
      → (t.name == u.name) ≡ false
      → exp_value (set_int u v e).ints (var_exp t) ≡ exp_value e.ints (var_exp t)
  unfolding exp_value
  other_value t u v e d = rw d refl

  -- The operands are variables that the factory knows, or numbers.
  abbrev pub IsKnown : (ℕ → Bool) → View → Type 0
  IsKnown known (variable x) = known x.name ≡ true
  IsKnown known _ = Unit

  module _ (f : VarFactory) (value_at : ℕ → Value) (ap' : (w : ℕ) → ApInt w) (content_width : ℕ → ℕ)
      (params : Params) (names : VarFactoryLaws f) where
    open f use {State, get, known}

    fresh_differs : (s : State) (n : ℕ) → known s n ≡ true → (n == (get s).0) ≡ false
    fresh_differs s n h = elim (Bool-cases (n == (get s).0)) [
      | inr e ↦ e
      | inl e ↦ absurd (cc (h, names.get_new s, (==_iff n (get s).0).0 e))
    ]

    still_known : (s : State) (n : ℕ) → known s n ≡ true → known (get s).1 n ≡ true
    still_known s n h = names.get_known s n ∙ rw (fresh_differs s n h) h

    -- the value of an operand does not change when a new variable is assigned
    kept_value :
        (s : State) (t : Var) (v : ℤ) (e : Env) (op : LinExp)
        → t.name ≡ (get s).0
        → IsPlain (view op)
        → IsKnown (known s) (view op)
        → exp_value (set_int t v e).ints op ≡ exp_value e.ints op
    kept_value s t v e op h p k =
        same_by_view (update t.name v e.ints) e.ints (view op) _ _ p
          (view-ViewHolds (update t.name v e.ints) op) (view-ViewHolds e.ints op) (go (view op) k)
      where
        go : (w : View) → IsKnown (known s) w → AgreeOn (update t.name v e.ints) e.ints w
        go (variable x) known_x = rw (h, fresh_differs s x.name known_x) refl
        go (number n) known_x = tt
        go neither known_x = tt

    new_name :
        (s : State) (n : ℕ) (t : Var)
        → t.name ≡ (get s).0
        → known s n ≡ true
        → (n == t.name) ≡ false
    new_name s n t h k = rw h (fresh_differs s n k)

    abbrev temp : ℕ → State → Var
    temp w s = record { name = (get s).0; type = record { kind = int_type; bitwidth = some w } }

    one_temp :
        (op : Opcode) (row : Row) (means : RowMeans o numbers laws op row) (w : ℕ) (lhs : Var)
        (op1 op2 : LinExp) (s : State) (e : Env)
        → IsPlain (view op2)
        → IsKnown (known s) (view op2)
        → Puts
            (assign (temp w s) op1 ∷ emitted row lhs (var_exp (temp w s)) op2)
            e
            lhs
            (meaning numbers op (exp_value e.ints op1) (exp_value e.ints op2))
            (known s)
    one_temp op row means w lhs op1 op2 s e p2 k =
        let t = temp w s in
        let v = exp_value e.ints op1 in
        let rest = emitted row lhs (var_exp t) op2 in
        assign_then t op1 rest e lhs _ (known s) (λ n. new_name s n t refl)
          (weaken rest (set_int t v e) lhs _ (known s) (
            variable-Puts op row means lhs t op2 (set_int t v e) v (exp_value e.ints op2) p2
              (temp_value t v e) (kept_value s t v e op2 refl p2 k)))

    two_temps :
        (op : Opcode) (row : Row) (means : RowMeans o numbers laws op row) (w : ℕ) (lhs : Var)
        (op1 op2 : LinExp) (s : State) (e : Env)
        → IsPlain (view op2)
        → IsKnown (known s) (view op2)
        → Puts
            (assign (temp w s) op1
              ∷ assign (temp w (get s).1) op2
              ∷ emitted row lhs (var_exp (temp w s)) (var_exp (temp w (get s).1)))
            e
            lhs
            (meaning numbers op (exp_value e.ints op1) (exp_value e.ints op2))
            (known s)
    unfolding view view_of
    two_temps op row means w lhs op1 op2 s e p2 k =
        let t = temp w s in
        let u = temp w (get s).1 in
        let v1 = exp_value e.ints op1 in
        let e1 = set_int t v1 e in
        let v2 = exp_value e1.ints op2 in
        let e2 = set_int u v2 e1 in
        let rest = emitted row lhs (var_exp t) (var_exp u) in
        let same2 = kept_value s t v1 e op2 refl p2 k in
        assign_then t op1 (assign u op2 ∷ rest) e lhs _ (known s) (λ n. new_name s n t refl)
          (assign_then u op2 rest e1 lhs _ (known s)
            (λ n h. new_name (get s).1 n u refl (still_known s n h))
            (weaken rest e2 lhs _ (known s) (
              variable-Puts op row means lhs t (var_exp u) e2 v1 (exp_value e.ints op2) tt
                (other_value t u v2 e1 (get_differs f names 0 s) ∙ temp_value t v1 e)
                (temp_value u v2 e1 ∙ same2))))

    -- doArithmetic always computes the result; new variables may change.
    pub arithmetic-Puts :
        (op : Opcode) (row : Row) (w : ℕ) (lhs : Var) (op1 op2 : LinExp) (fac : Factory State)
        (e : Env)
        → row_of op ≡ some row
        → RowMeans o numbers laws op row
        → IsPlain (view op1)
        → IsPlain (view op2)
        → IsKnown (known fac.vfac) (view op2)
        → (block : List Stmt) × (fac' : Factory State) × (arithmetic o f value_at ap' content_width
              params op w lhs op1 op2 fac
            ≡ ok (block, fac'))
          × Puts block e lhs
              (meaning numbers op (exp_value e.ints op1) (exp_value e.ints op2))
              (known fac.vfac)
    unfolding arithmetic mk_int_var new_var
    arithmetic-Puts op row w lhs op1 op2 fac e is_row means p1 p2 k =
        let s = fac.vfac in
        let kept = known s in
        let fac_1 = (mk_int_var f value_at ap' content_width params w fac).1 in
        let fac_2 = (mk_int_var f value_at ap' content_width params w fac_1).1 in
        elim (Bool-cases (is_number (view op1))) [
          | inr e1 ↦
              let whole =
                weaken (emitted row lhs op1 op2) e lhs _ kept
                  (do_bin_op-Puts op row means lhs op1 op2 e p1 p2) in
              (
                emitted row lhs op1 op2,
                fac,
                rw (e1, do_bin_op-emitted op row lhs op1 op2 is_row) refl,
                rw (precise_variable op (view op1) (view op2) p1 e1) at whole,
              )
          | inl e1 ↦ elim (Bool-cases (is_number (view op2))) [
            | inr e2 ↦ (
              assign (temp w s) op1 ∷ emitted row lhs (var_exp (temp w s)) op2,
              fac_1,
              rw (e1, e2, do_bin_op-emitted op row lhs (var_exp (temp w s)) op2 is_row) refl,
              one_temp op row means w lhs op1 op2 s e p2 k,
            )
            | inl e2 ↦ (
              assign (temp w s) op1
                  ∷ assign (temp w (get s).1) op2
                  ∷ emitted row lhs (var_exp (temp w s)) (var_exp (temp w (get s).1)),
              fac_2,
              rw
                  (
                    e1,
                    e2,
                    do_bin_op-emitted op row lhs (var_exp (temp w s)) (var_exp (temp w (get s).1))
                        is_row,
                  )
                  refl,
              two_temps op row means w lhs op1 op2 s e p2 k,
            )
          ]
        ]
