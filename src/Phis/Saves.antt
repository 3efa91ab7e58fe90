-- ===== src/Phis/Saves.antt =====
-- The first loop over the PHI nodes: the old values that are needed are kept in new variables.
use clam.Prelude.{ℕ, ◌≡◌, refl, ap, ◌∙◌, true, false, ◌||◌, List, ◌∷◌, some, ==_refl}
use clam.Region.{Region}
use clam.Lit.Values.{
  Value, Params, Var, VarType, VarFactory, VarFactoryLaws, integer_bit_width, int_type, bool_type,
  ref_type,
}
use clam.Lit.Consts.{ApInt}
use clam.Lit.Literal.{
  Checked, ok, Lit, bool_cst, bool_var, int_cst, int_var, ref_null, ref_var, get_var,
}
use clam.Lit.Factory.{Factory, new_var, mk_bool_var, mk_int_var, mk_ref_var}
use clam.Ir.{Stmt, Env, IntOps}
use clam.Phis.{Phi, Olds, save_lit}
use clam.Phis.Sets.{Sets, bool_copy-Sets, int_copy-Sets}
use clam.Phis.Emits.{Keeps, Keeps-trans, new_var-Keeps, HasType, copy_ref-Emits}

module _ (o : IntOps) (picked : Env) (f : VarFactory) (laws : VarFactoryLaws f)
    (value_at : ℕ → Value) (ap' : (w : ℕ) → ApInt w) (content_width : ℕ → ℕ) (params : Params)
    (region_of : ℕ → ℕ → Region) where
  open f use {State, get, known}

  abbrev Kept : Factory State → Factory State → Type 0
  Kept = Keeps o picked f laws value_at ap' content_width params region_of

  -- the name is new, and known afterwards
  abbrev pub Fresh : Factory State → Factory State → Var → Type 0
  Fresh fac fac' x = (known fac.vfac x.name ≡ false) × (known fac'.vfac x.name ≡ true)

  new_var-Fresh :
      (t : VarType) (fac : Factory State)
      → Fresh fac
          (new_var f value_at ap' content_width params t fac).1
          (new_var f value_at ap' content_width params t fac).0
  unfolding new_var
  new_var-Fresh t fac = (
    laws.get_new fac.vfac,
    laws.get_known fac.vfac (get fac.vfac).0
        ∙ ap (λ b. b || known fac.vfac (get fac.vfac).0) (==_refl (get fac.vfac).0),
  )

  -- the old value of the literal is kept in a new variable
  abbrev pub Saves :
      Checked (List Stmt × Olds × Factory State) → ℕ → Olds → Factory State → Env → Lit → Type 0
  Saves made v olds fac e l =
      (block : List Stmt) × (x : Var) × (fac' : Factory State) × (made
        ≡ ok (block, (v, x) ∷ olds, fac'))
      × Sets o picked block e x l
      × Fresh fac fac' x
      × Kept fac fac'

  abbrev made_of : VarType → Factory State → Var × Factory State
  made_of t fac = new_var f value_at ap' content_width params t fac

  new-Kept : (t : VarType) (fac : Factory State) → Kept fac (made_of t fac).1
  new-Kept = new_var-Keeps o picked f laws value_at ap' content_width params region_of

  pub save_lit-Saves :
      (p : Phi) (olds : Olds) (l : Lit) (y : Var) (fac : Factory State) (e : Env)
      → p.shadow_mem ≡ false
      → get_var l ≡ some y
      → HasType o picked f laws value_at ap' content_width params region_of
          (value_at p.incoming).type
          l
      → Saves
          (save_lit f value_at ap' content_width params region_of p olds (some l, fac))
          p.incoming
          olds
          fac
          e
          l
  unfolding save_lit mk_bool_var mk_int_var mk_ref_var get_var
  save_lit-Saves p olds (bool_var y') y fac e shown var typed =
      let t : VarType = record { kind = bool_type; bitwidth = some 1 } in
      let made = made_of t fac in
      rw shown (
        _,
        made.0,
        made.1,
        refl,
        bool_copy-Sets o picked e made.0 y',
        new_var-Fresh t fac,
        new-Kept t fac,
      )
  save_lit-Saves p olds (int_var y' w) y fac e shown var typed =
      let width = integer_bit_width (value_at p.incoming).type in
      let t : VarType = record { kind = int_type; bitwidth = some width } in
      let made = made_of t fac in
      rw shown (
        _,
        made.0,
        made.1,
        refl,
        int_copy-Sets o picked e made.0 y' w,
        new_var-Fresh t fac,
        new-Kept t fac,
      )
  save_lit-Saves p olds (ref_var y') y fac e shown var (h, k, r, tracked) =
      let t : VarType = record { kind = ref_type; bitwidth = some 32 } in
      let made = made_of t fac in
      let (block, fac2, copied, sets, kept) =
        copy_ref-Emits o picked f laws value_at ap' content_width params region_of made.0 y'
          p.incoming p.incoming p.incoming made.1 e tracked in
      let (new, now_known) = new_var-Fresh t fac in
      rw (shown, r, copied)
        (
          block,
          made.0,
          fac2,
          refl,
          sets,
          (new, kept.1 made.0.name now_known),
          Keeps-trans o picked f laws value_at ap' content_width params region_of fac made.1 fac2
              (new-Kept t fac) kept,
        )
  save_lit-Saves p olds (bool_cst b) y fac e shown var typed = absurd (cc var)
  save_lit-Saves p olds (int_cst n w) y fac e shown var typed = absurd (cc var)
  save_lit-Saves p olds ref_null y fac e shown var typed = absurd (cc var)
