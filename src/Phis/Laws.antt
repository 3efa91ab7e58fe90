-- ===== src/Phis/Laws.antt =====
-- visitBasicBlock of CrabInterBlockBuilder: the PHI nodes of a block are assigned at once.
use clam.Prelude.{
  ℕ, ◌≡◌, refl, ap, ◌∙◌, Bool, true, false, ◌||◌, List, [], ◌∷◌, ◌++◌, some, ◌==◌, elem, ==_refl,
  All,
}
use clam.Region.{Region}
use clam.Lit.Values.{Value, Params, Var, VarFactory, VarFactoryLaws}
use clam.Lit.Consts.{ApInt}
use clam.Lit.Literal.{ok, Lit, get_var}
use clam.Lit.Factory.{Factory}
use clam.Ir.{Stmt, Env, IntOps, exec}
use clam.Ir.Runs.{exec-++, and_then}
use clam.Phis.{Phi, Olds, find_old, selfs, translate_phis}
use clam.Phis.Sets.{SameAt, same_here, SameAt_trans}
use clam.Phis.SaveAll.{IsRead, Inv, lit_value-SameAt}
use clam.Phis.SaveLoop.{save_all-Steps}
use clam.Phis.AssignLoop.{OperandGood, NotOf, NoDup, Right, assign_all-Right}

or_true : (b : Bool) → (b || true) ≡ true
or_true true = refl
or_true false = refl

elem-selfs_more :
    (p : Phi) (ps qs : List Phi)
    → All (λ q. elem q.self (selfs ps) ≡ true) qs
    → All (λ q. elem q.self (selfs (p ∷ ps)) ≡ true) qs
elem-selfs_more p ps [] h = tt
elem-selfs_more p ps (q ∷ qs) (h, hs) =
    (ap (λ b. q.self == p.self || b) h ∙ or_true (q.self == p.self), elem-selfs_more p ps qs hs)

elem-selfs : (ps : List Phi) → All (λ q. elem q.self (selfs ps) ≡ true) ps
elem-selfs [] = tt
elem-selfs (p ∷ ps) = (
  ap (λ b. b || elem p.self (selfs ps)) (==_refl p.self),
  elem-selfs_more p ps ps (elem-selfs ps),
)

module _ (o : IntOps) (picked : Env) (f : VarFactory) (laws : VarFactoryLaws f)
    (value_at : ℕ → Value) (ap' : (w : ℕ) → ApInt w) (content_width : ℕ → ℕ) (params : Params)
    (region_of : ℕ → ℕ → Region) (lit : ℕ → Lit) (var_of : ℕ → Var)
    (nulls : (n : ℕ) → picked.refs n ≡ 0)
    (distinct : (a b : ℕ) (x y : Var)
      → get_var (lit a) ≡ some x
      → get_var (lit b) ≡ some y
      → x.name ≡ y.name
      → a ≡ b)
    (ps : List Phi) (fac : Factory f.State) (e : Env) where
  open f use {State, known}

  abbrev pub Reads : Type 0
  Reads =
      All
        (IsRead o picked f laws value_at ap' content_width params region_of (selfs ps) lit var_of
          fac.lit_cache (known fac.vfac) e)
        ps

  abbrev pub NoTwice : Type 0
  NoTwice =
      NoDup o picked f laws value_at ap' content_width params region_of (selfs ps) lit var_of
        fac.lit_cache (known fac.vfac) e nulls distinct ps

  abbrev pub Assigned : Env → Type 0
  Assigned e' =
      All
        (Right o picked f laws value_at ap' content_width params region_of (selfs ps) lit var_of
          fac.lit_cache (known fac.vfac) e nulls distinct e')
        ps

  abbrev pub IsOther : ℕ → Type 0
  IsOther =
      NotOf o picked f laws value_at ap' content_width params region_of (selfs ps) lit var_of
        fac.lit_cache (known fac.vfac) e nulls distinct ps

  operands_at_start :
      (olds : Olds) (qs : List Phi) (fac1 : Factory State) (e1 : Env)
      → All
          (IsRead o picked f laws value_at ap' content_width params region_of
            (selfs ps)
            lit
            var_of
            fac.lit_cache
            (known fac.vfac)
            e)
          qs
      → Inv o picked f laws value_at ap' content_width params region_of
          (selfs ps)
          lit
          var_of
          fac.lit_cache
          (known fac.vfac)
          e
          olds
          fac1
          e1
      → All
          (OperandGood o picked f laws value_at ap' content_width params region_of
            (selfs ps)
            lit
            var_of
            fac.lit_cache
            (known fac.vfac)
            e
            nulls
            distinct
            olds
            e1)
          qs
  operands_at_start olds [] fac1 e1 reads inv = tt
  operands_at_start olds (q ∷ qs) fac1 e1 (read, reads) inv = (
    λ no_old. lit_value-SameAt (known fac.vfac) e e1 (lit q.incoming) read.value_known inv.same,
    operands_at_start olds qs fac1 e1 reads inv,
  )

  -- Assume that the PHI nodes and their operands are tracked, that no node is one of sea-dsa's, that
  -- their literals are in the cache and have the types of the values, that each value has its own
  -- variable, that no node stands twice, and that havoc picks null for references. Then the block
  -- that is emitted for an edge assigns all nodes at once: afterwards the variable of every node has
  -- the value that its operand had before the block, also where the operand is another node of the
  -- block, and every other name that was known has the value it had.
  pub translate_phis-Assigned :
      Reads
      → NoTwice
      → (block : List Stmt) × (fac' : Factory State) × (e' : Env) × (translate_phis f value_at ap'
            content_width params region_of ps fac
          ≡ ok (block, fac'))
        × (exec o picked block e ≡ some e')
        × ((n : ℕ) → known fac.vfac n ≡ true → IsOther n → SameAt e e' n)
        × Assigned e'
  unfolding translate_phis find_old
  translate_phis-Assigned reads dup =
      let inv0 : Inv o picked f laws value_at ap' content_width params region_of (selfs ps) lit
          var_of fac.lit_cache (known fac.vfac) e [] fac e =
        record {
          same_cache = refl;
          more = λ n h. h;
          same = λ n h. same_here e n;
          good = λ v x h. absurd (cc h);
        } in
      let (block1, olds, fac1, e1, made1, run1, inv, _, has) =
        save_all-Steps o picked f laws value_at ap' content_width params region_of (selfs ps) lit
          var_of fac.lit_cache (known fac.vfac) e ps [] fac e reads inv0 in
      let (block2, fac2, e2, made2, run2, same2, right) =
        assign_all-Right o picked f laws value_at ap' content_width params region_of (selfs ps) lit
          var_of fac.lit_cache (known fac.vfac) e nulls distinct olds ps fac1 e1 reads dup
          (elem-selfs ps) has inv.same_cache
          (λ v x h. let (new, _, value) = inv.good v x h in (new, value))
          (operands_at_start olds ps fac1 e1 reads inv) in
      (
        block1 ++ block2,
        fac2,
        e2,
        rw (made1, made2) refl,
        exec-++ o picked block1 block2 e
            ∙ (ap (λ r. and_then r (exec o picked block2)) run1 ∙ run2),
        λ n h other. SameAt_trans e e1 e2 n (inv.same n h) (same2 n other),
        right,
      )
