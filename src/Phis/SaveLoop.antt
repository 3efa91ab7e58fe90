-- ===== src/Phis/SaveLoop.antt =====
-- The first loop over the PHI nodes keeps every old value that the second one needs.
use clam.Prelude.{
  ℕ, ◌≡◌, refl, ap, ◌∙◌, Bool, List, [], ◌∷◌, ◌++◌, none, some, ◌==◌, elem, Option-cases,
  Bool-cases, inl, inr, ==_refl, ==_iff, All,
}
use clam.Region.{Region}
use clam.Lit.Values.{Value, Params, Var, VarFactory, VarFactoryLaws}
use clam.Lit.Consts.{ApInt}
use clam.Lit.Literal.{Checked, ok, Lit}
use clam.Lit.Factory.{Factory, LitEntry, find_lit}
use clam.Ir.{Stmt, Env, IntOps, exec}
use clam.Ir.Runs.{exec-++, and_then}
use clam.Phis.{Phi, Olds, find_old, save_lit, save_phi, save_all}
use clam.Phis.Saves.{save_lit-Saves}
use clam.Phis.SaveAll.{get_lit-hit, IsRead, Inv, HasOld, Steps, saved-Inv}

module _ (o : IntOps) (picked : Env) (f : VarFactory) (laws : VarFactoryLaws f)
    (value_at : ℕ → Value) (ap' : (w : ℕ) → ApInt w) (content_width : ℕ → ℕ) (params : Params)
    (region_of : ℕ → ℕ → Region) (phis : List ℕ) (lit : ℕ → Lit) (var_of : ℕ → Var)
    (cache : List LitEntry) (known0 : ℕ → Bool) (e0 : Env) where
  open f use {State, known}

  abbrev Read : Phi → Type 0
  Read =
      IsRead o picked f laws value_at ap' content_width params region_of phis lit var_of cache
        known0 e0

  abbrev Invariant : Olds → Factory State → Env → Type 0
  Invariant =
      Inv o picked f laws value_at ap' content_width params region_of phis lit var_of cache known0
        e0

  abbrev StepsTo :
      Checked (List Stmt × Olds × Factory State) → (Olds → Type 0) → Olds → Env → Type 0
  StepsTo =
      Steps o picked f laws value_at ap' content_width params region_of phis lit var_of cache known0
        e0

  abbrev Old : Olds → ℕ → Type 0
  Old =
      HasOld o picked f laws value_at ap' content_width params region_of phis lit var_of cache
        known0 e0

  abbrev save : Phi → Olds → Factory State → Checked (List Stmt × Olds × Factory State)
  save = save_phi f value_at ap' content_width params region_of phis

  find_old_more :
      (v v' : ℕ) (x y : Var) (olds : Olds)
      → find_old v olds ≡ none
      → find_old v' olds ≡ some y
      → find_old v' ((v, x) ∷ olds) ≡ some y
  unfolding find_old
  find_old_more v v' x y olds h k = elim (Bool-cases (v == v')) [
    | inr e ↦ rw e k
    | inl e ↦
        let there : find_old v olds ≡ some y = ap (λ u. find_old u olds) ((==_iff v v').0 e) ∙ k in
        absurd (cc (h, there))
  ]

  find_old_first : (v : ℕ) (x : Var) (olds : Olds) → find_old v ((v, x) ∷ olds) ≡ some x
  unfolding find_old
  find_old_first v x olds = rw (==_refl v) refl

  -- a node whose value needs no new variable
  unsaved :
      (p : Phi) (olds : Olds) (fac : Factory State) (e : Env)
      → Invariant olds fac e
      → Old olds p.incoming
      → save p olds fac ≡ ok ([], olds, fac)
      → StepsTo (save p olds fac) (λ olds'. Old olds' p.incoming) olds e
  unfolding exec
  unsaved p olds fac e inv has made = ([], olds, fac, e, made, refl, inv, λ v x h. h, has)

  save_phi-Steps :
      (p : Phi) (olds : Olds) (fac : Factory State) (e : Env)
      → Read p
      → Invariant olds fac e
      → StepsTo (save p olds fac) (λ olds'. Old olds' p.incoming) olds e
  unfolding save_phi
  save_phi-Steps p olds fac e read inv = elim (Bool-cases (elem p.incoming phis)) [
    | inr out ↦
        unsaved p olds fac e inv (λ h. absurd (cc (out, h)))
          (rw (read.value_tracked, out, save_phi) refl)
    | inl in_block ↦ elim (Option-cases (find_old p.incoming olds)) [
      | inr (x, has) ↦
          unsaved p olds fac e inv (λ h. (x, has))
            (rw (read.value_tracked, in_block, has, save_phi) refl)
      | inl fresh ↦
          let l = lit p.incoming in
          let hit =
            get_lit-hit o picked f laws value_at ap' content_width params region_of p.incoming l fac
              (ap (find_lit p.incoming) inv.same_cache ∙ read.value_lit) in
          let (y, is_var) = read.phi_var in_block in
          let (block, x, fac', made, (e', run, others, value), (new, now), (same_cache, more)) =
            save_lit-Saves o picked f laws value_at ap' content_width params region_of p olds l y
              fac e read.shown is_var read.value_type in
          (
            block,
            (p.incoming, x) ∷ olds,
            fac',
            e',
            rw (read.value_tracked, in_block, fresh, save_phi)
                (ap (save_lit f value_at ap' content_width params region_of p olds) hit ∙ made),
            run,
            saved-Inv o picked f laws value_at ap' content_width params region_of phis lit var_of
                cache known0 e0 p.incoming x olds fac fac' e e' inv read.value_known new now
                same_cache more others value,
            λ v z h. find_old_more p.incoming v x z olds fresh h,
            λ h. (x, find_old_first p.incoming x olds),
          )
    ]
  ]

  pub save_all-Steps :
      (ps : List Phi) (olds : Olds) (fac : Factory State) (e : Env)
      → All Read ps
      → Invariant olds fac e
      → StepsTo
          (save_all f value_at ap' content_width params region_of phis ps olds fac)
          (λ olds'. All (λ p. Old olds' p.incoming) ps)
          olds
          e
  unfolding save_all exec
  save_all-Steps [] olds fac e read inv = ([], olds, fac, e, refl, refl, inv, λ v x h. h, tt)
  save_all-Steps (p ∷ ps) olds fac e (read, reads) inv =
      let (block1, olds1, fac1, e1, made1, run1, inv1, grows1, has1) =
        save_phi-Steps p olds fac e read inv in
      let (block2, olds2, fac2, e2, made2, run2, inv2, grows2, has2) =
        save_all-Steps ps olds1 fac1 e1 reads inv1 in
      (
        block1 ++ block2,
        olds2,
        fac2,
        e2,
        rw (made1, made2) refl,
        exec-++ o picked block1 block2 e
            ∙ (ap (λ r. and_then r (exec o picked block2)) run1 ∙ run2),
        inv2,
        λ v x h. grows2 v x (grows1 v x h),
        (λ h. let (x, found) = has1 h in (x, grows2 p.incoming x found), has2),
      )
