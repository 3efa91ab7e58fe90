-- ===== src/Phis/OnEdges.antt =====
-- buildCfg: the block of an edge with the assignments of the PHI nodes of its target.
use clam.Prelude.{
  ℕ, ◌*◌, ◌<◌, ◌≡◌, refl, ap, ◌∙◌, Bool, true, false, not, List, Option, some, ◌==◌, if◌then◌else◌,
  Bool-cases, inl, inr,
}
use clam.Region.{Region}
use clam.Llvm.{Icmp, IcmpLaws}
use clam.Lit.Values.{Value, Params, Var, VarFactory, VarFactoryLaws}
use clam.Lit.Consts.{ApInt}
use clam.Lit.Literal.{ok, Lit, get_var}
use clam.Lit.Factory.{Factory}
use clam.Compare.Crab.{CstTests}
use clam.Compare.InstsLaws.{negate_if}
use clam.Ir.{RefCst, ref_holds, Stmt, Env, IntOps, exec}
use clam.Uses.{Users}
use clam.Edges.{Condition, edge_block, with_phis}
use clam.Ir.Runs.{guard, and_then, exec-++}
use clam.Edges.Guards.{asks_for, edge_block-Guards}
use clam.Edges.Guards as Conditions
use clam.Phis.{Phi, translate_phis}
use clam.Phis.Sets.{SameAt}
use clam.Phis.Laws.{Reads, NoTwice, Assigned, IsOther, translate_phis-Assigned}

guard_then :
    (asked right : Bool) (e e' : Env) (k : Env → Option Env)
    → k e ≡ some e'
    → and_then (guard asked right e) k ≡ guard asked right e'
guard_then true true e e' k h = h
guard_then true false e e' k h = refl
guard_then false right e e' k h = h

module _ (o : IntOps) (picked : Env) {half : ℕ} (m : Icmp half) (icmp_laws : IcmpLaws m)
    (f : VarFactory) (laws : VarFactoryLaws f) (value_at : ℕ → Value) (ap' : (w : ℕ) → ApInt w)
    (content_width : ℕ → ℕ) (params : Params) (tests : CstTests) (negate : RefCst → RefCst)
    (uses_of : ℕ → Users) (region_of : ℕ → ℕ → Region) (bits : ℕ → ℕ)
    (below : (v : ℕ) → bits v < 2 * half) (lit : ℕ → Lit) (var_of : ℕ → Var)
    (nulls : (n : ℕ) → picked.refs n ≡ 0)
    (distinct : (a b : ℕ) (x y : Var)
      → get_var (lit a) ≡ some x
      → get_var (lit b) ≡ some y
      → x.name ≡ y.name
      → a ≡ b)
    (e : Env)
    (negate_law : (c : RefCst) → ref_holds e.refs (negate c) ≡ not (ref_holds e.refs c)) where
  open f use {State, known}

  -- Under the conditions of the theorems on the two parts, the block of an edge between two different
  -- blocks lets a state through if the branch goes that way in it, if anything is assumed of the
  -- condition, and then assigns the PHI nodes at once. On a self-loop the assignments come first, and
  -- the condition is assumed of the state after them.
  pub with_phis-Transfers :
      (c : Condition) (negated b : Bool) (src dst : ℕ) (ps : List Phi) (fac fac1 : Factory State)
      → Conditions.Reads o picked m icmp_laws f value_at ap' content_width params tests negate
          uses_of bits below e negate_law c b fac fac1
      → Reads o picked f laws value_at ap' content_width params region_of lit var_of nulls distinct
          ps fac1 e
      → NoTwice o picked f laws value_at ap' content_width params region_of lit var_of nulls
          distinct ps fac1 e
      → (assumes phis : List Stmt) × (fac2 : Factory State) × (e' : Env) × (edge_block m f value_at
            ap' content_width params tests negate uses_of c
            (not negated)
            negated
            fac
          ≡ ok (assumes, fac1))
        × (translate_phis f value_at ap' content_width params region_of ps fac1 ≡ ok (phis, fac2))
        × (exec o picked (with_phis src dst phis assumes) e ≡ (
            if src == dst
            then exec o picked assumes e'
            else guard
                (asks_for o picked m icmp_laws f value_at ap' content_width params tests negate
                  uses_of bits below e negate_law c)
                (negate_if negated b)
                e'))
        × ((n : ℕ)
            → known fac1.vfac n ≡ true
            → IsOther o picked f laws value_at ap' content_width params region_of lit var_of nulls
                distinct ps fac1 e n
            → SameAt e e' n)
        × Assigned o picked f laws value_at ap' content_width params region_of lit var_of nulls
            distinct ps fac1 e e'
  unfolding with_phis
  with_phis-Transfers c negated b src dst ps fac fac1 condition reads dup =
      let (assumes, made, run) =
        edge_block-Guards o picked m icmp_laws f value_at ap' content_width params tests negate
          uses_of bits below e negate_law c negated b fac fac1 condition in
      let (phis, fac2, e', made', run', same, right) =
        translate_phis-Assigned o picked f laws value_at ap' content_width params region_of lit
          var_of nulls distinct ps fac1 e reads dup in
      let asked =
        asks_for o picked m icmp_laws f value_at ap' content_width params tests negate uses_of bits
          below e negate_law c in
      (
        assumes,
        phis,
        fac2,
        e',
        made,
        made',
        elim (Bool-cases (src == dst)) [
          | inl loop ↦
              rw loop (
                exec-++ o picked phis assumes e ∙ ap (λ r. and_then r (exec o picked assumes)) run')
          | inr other ↦ rw other (
              exec-++ o picked assumes phis e
              ∙ (ap (λ r. and_then r (exec o picked phis)) run
                  ∙ guard_then asked (negate_if negated b) e e' (exec o picked phis) run'))
        ],
        same,
        right,
      )
