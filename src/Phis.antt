-- ===== src/Phis.antt =====
-- lib/Clam/CfgBuilder.cc: CrabInterBlockBuilder, which turns the PHI nodes of a block into assignments
-- on an edge to it.
pub mod Sets
pub mod Emits
pub mod Saves
pub mod SaveAll
pub mod SaveLoop
pub mod AssignLoop
pub mod Laws
pub mod OnEdges
use clam.Prelude.{
  ℕ, ◌≡◌, Bool, true, false, not, ◌||◌, List, [], ◌∷◌, ◌++◌, map, Option, none, some, ◌==◌, elem,
  if◌then◌else◌,
}
use clam.Region.{Region}
use clam.Lit.Values.{
  Value, Params, Var, VarFactory, is_bool, is_integer_type, is_reference, is_tracked_type,
  integer_bit_width,
}
use clam.Lit.Consts.{ApInt}
use clam.Lit.Literal.{
  Checked, ok, clam_error, ◌>>=◌, Lit, bool_cst, bool_var, int_cst, int_var, ref_null, ref_var,
  get_var,
}
use clam.Lit.Factory.{Factory, get_lit, mk_bool_var, mk_int_var, mk_ref_var, mk_region_var}
use clam.Compare.Crab as Cst
use clam.Compare.Crab.{number_exp}
use clam.Ir.{Stmt, assign, bool_copy, comparison, havoc, assume_ref, gep_ref, mk_null}
use clam.Ops.Views.{var_exp, constant_of}

-- A PHI node of the block, its value for the edge, and whether its name is one of sea-dsa's.
pub record Phi : Type 0 where
  pub self : ℕ
  pub incoming : ℕ
  pub shadow_mem : Bool

-- old_val_map
abbrev pub Olds : Type 0
Olds = List (ℕ × Var)

unfoldable pub find_old : ℕ → Olds → Option Var
find_old v [] = none
find_old v (o ∷ os) = if o.0 == v then some o.1 else find_old v os

abbrev pub selfs : List Phi → List ℕ
selfs ps = map (λ p. p.self) ps

-- `region_of` is the region of a value as an instruction uses it.
module _ (f : VarFactory) (value_at : ℕ → Value) (ap : (w : ℕ) → ApInt w) (content_width : ℕ → ℕ)
    (params : Params) (region_of : ℕ → ℕ → Region) where
  open f use {State}

  abbrev pub lit_of : ℕ → Factory State → Option Lit × Factory State
  lit_of v fac = get_lit f value_at ap content_width params v true fac

  abbrev region_var : ℕ → ℕ → Factory State → Checked (Var × Factory State)
  region_var i v fac = mk_region_var f value_at ap content_width params (region_of i v) fac

  -- gep_ref of a reference, with the variables of the two regions
  unfoldable pub copy_ref :
      Var → Var → ℕ → ℕ → ℕ → Factory State → Checked (List Stmt × Factory State)
  unfolding mk_region_var
  copy_ref lhs x i v v' fac =
      region_var i v fac
      >>= (λ r. region_var i v' r.1 >>= (λ r'. ok (gep_ref lhs r.0 x r'.0 ∷ [], r'.1)))

  -- What the first loop emits for an old value, with the new variable and the factory.
  abbrev pub Save : Type 0
  Save = Checked (List Stmt × Olds × Factory State)

  abbrev with_old : Olds → ℕ → Var → Checked (List Stmt × Factory State) → Save
  with_old olds v lhs (ok (block, fac)) = ok (block, (v, lhs) ∷ olds, fac)
  with_old olds v lhs clam_error = clam_error

  unfoldable pub save_lit : Phi → Olds → Option Lit × Factory State → Save
  unfolding copy_ref mk_bool_var mk_int_var mk_ref_var integer_bit_width
  save_lit p olds (none, fac) = ok ([], olds, fac)
  save_lit p olds (some (bool_var y), fac) =
      let (lhs, fac') = mk_bool_var f value_at ap content_width params fac in
      if p.shadow_mem
      then ok ([], olds, fac)
      else ok (bool_copy lhs y false ∷ [], (p.incoming, lhs) ∷ olds, fac')
  save_lit p olds (some (bool_cst b), fac) =
      let (lhs, fac') = mk_bool_var f value_at ap content_width params fac in
      if p.shadow_mem
      then ok ([], olds, fac)
      else ok
          (comparison (Cst.bool_assign lhs (constant_of b)) ∷ [], (p.incoming, lhs) ∷ olds, fac')
  save_lit p olds (some (int_var y w), fac) =
      let width = integer_bit_width (value_at p.incoming).type in
      let (lhs, fac') = mk_int_var f value_at ap content_width params width fac in
      if p.shadow_mem
      then ok ([], olds, fac)
      else ok (assign lhs (var_exp y) ∷ [], (p.incoming, lhs) ∷ olds, fac')
  save_lit p olds (some (int_cst n w), fac) =
      let width = integer_bit_width (value_at p.incoming).type in
      let (lhs, fac') = mk_int_var f value_at ap content_width params width fac in
      if p.shadow_mem
      then ok ([], olds, fac)
      else ok (assign lhs (number_exp n) ∷ [], (p.incoming, lhs) ∷ olds, fac')
  save_lit p olds (some (ref_var y), fac) =
      let (lhs, fac') = mk_ref_var f value_at ap content_width params fac in
      let copied = copy_ref lhs y p.incoming p.incoming p.incoming fac' in
      if p.shadow_mem || not (is_reference (value_at p.incoming).type params)
      then ok ([], olds, fac)
      else with_old olds p.incoming lhs copied
  save_lit p olds (some ref_null, fac) =
      let (lhs, fac') = mk_ref_var f value_at ap content_width params fac in
      if p.shadow_mem || not (is_reference (value_at p.incoming).type params)
      then ok ([], olds, fac)
      else ok (assume_ref (mk_null lhs) ∷ [], (p.incoming, lhs) ∷ olds, fac')

  -- `phis` are the addresses of the PHI nodes of the block.
  unfoldable pub save_phi : List ℕ → Phi → Olds → Factory State → Save
  unfolding save_lit find_old is_tracked_type
  save_phi phis p olds fac =
      if not (is_tracked_type (value_at p.incoming).type params) || not (elem p.incoming phis)
      then ok ([], olds, fac)
      else (elim (find_old p.incoming olds) [
        | some x ↦ ok ([], olds, fac)
        | none ↦ save_lit p olds (lit_of p.incoming fac)
      ])

  unfoldable pub save_all : List ℕ → List Phi → Olds → Factory State → Save
  unfolding save_phi
  save_all phis [] olds fac = ok ([], olds, fac)
  save_all phis (p ∷ ps) olds fac =
      save_phi phis p olds fac
      >>= (λ r. save_all phis ps r.1 r.2 >>= (λ s. ok (r.0 ++ s.0, s.1, s.2)))

  abbrev pub Block : Type 0
  Block = Checked (List Stmt × Factory State)

  -- From the old value.
  unfoldable pub assign_old : Var → Var → Phi → Factory State → Block
  unfolding copy_ref is_bool is_integer_type
  assign_old lhs x p fac =
      let t = (value_at p.self).type in
      let copied = copy_ref lhs x p.self p.self p.self fac in
      if is_bool t
      then ok (bool_copy lhs x false ∷ [], fac)
      else (if is_integer_type t
          then ok (assign lhs (var_exp x) ∷ [], fac)
          else (if is_reference t params then copied else ok ([], fac)))

  -- From the literal of the value.
  unfoldable pub assign_value : Var → Phi → Option Lit × Factory State → Block
  unfolding copy_ref is_reference
  assign_value lhs p (none, fac) = ok (havoc lhs ∷ [], fac)
  assign_value lhs p (some (bool_var y), fac) = ok (bool_copy lhs y false ∷ [], fac)
  assign_value lhs p (some (bool_cst b), fac) =
      ok (comparison (Cst.bool_assign lhs (constant_of b)) ∷ [], fac)
  assign_value lhs p (some (int_var y w), fac) = ok (assign lhs (var_exp y) ∷ [], fac)
  assign_value lhs p (some (int_cst n w), fac) = ok (assign lhs (number_exp n) ∷ [], fac)
  assign_value lhs p (some (ref_var y), fac) =
      let copied = copy_ref lhs y p.self p.self p.incoming fac in
      if is_reference (value_at p.incoming).type params then copied else ok ([], fac)
  assign_value lhs p (some ref_null, fac) =
      if is_reference (value_at p.incoming).type params
      then ok (havoc lhs ∷ assume_ref (mk_null lhs) ∷ [], fac)
      else ok ([], fac)

  unfoldable pub assign_from : Option Var → Var → Phi → Factory State → Block
  unfolding assign_old assign_value
  assign_from (some x) lhs p fac = assign_old lhs x p fac
  assign_from none lhs p fac = assign_value lhs p (lit_of p.incoming fac)

  unfoldable pub assign_to : Olds → Phi → Option Lit × Factory State → Block
  unfolding assign_from find_old get_var
  assign_to olds p (none, fac) = clam_error
  assign_to olds p (some l, fac) = elim (get_var l) [
    | none ↦ clam_error
    | some lhs ↦ assign_from (find_old p.incoming olds) lhs p fac
  ]

  unfoldable pub assign_phi : Olds → Phi → Factory State → Block
  unfolding assign_to is_tracked_type
  assign_phi olds p fac =
      if not (is_tracked_type (value_at p.self).type params) || p.shadow_mem
      then ok ([], fac)
      else assign_to olds p (lit_of p.self fac)

  unfoldable pub assign_all : Olds → List Phi → Factory State → Block
  unfolding assign_phi
  assign_all olds [] fac = ok ([], fac)
  assign_all olds (p ∷ ps) fac =
      assign_phi olds p fac >>= (λ r. assign_all olds ps r.1 >>= (λ s. ok (r.0 ++ s.0, s.1)))

  -- visitBasicBlock
  unfoldable pub translate_phis : List Phi → Factory State → Block
  unfolding save_all assign_all
  translate_phis ps fac =
      save_all (selfs ps) ps [] fac >>= (λ r. assign_all r.1 ps r.2 >>= (λ s. ok (r.0 ++ s.0, s.1)))
