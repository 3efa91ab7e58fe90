-- ===== src/Phis/AssignLoop.antt =====
-- The second loop over the PHI nodes: every node gets the value that its operand had at the start.
use clam.Prelude.{
  ℕ, ◌≡◌, refl, sym, ap, ◌∙◌, Bool, true, false, List, [], ◌∷◌, ◌++◌, none, some, ◌==◌, elem,
  if◌then◌else◌, Option-cases, Bool-cases, inl, inr, ==_iff, All,
}
use clam.Region.{Region}
use clam.Lit.Values.{Value, Params, Var, VarFactory, VarFactoryLaws}
use clam.Lit.Consts.{ApInt}
use clam.Lit.Literal.{ok, Lit, bool_cst, bool_var, int_cst, int_var, ref_null, ref_var, get_var}
use clam.Lit.Factory.{Factory, LitEntry, find_lit}
use clam.Ir.{Stmt, Env, IntOps, exec}
use clam.Ir.Runs.{exec-++, and_then}
use clam.Phis.{
  Phi, Olds, find_old, lit_of, assign_from, assign_to, assign_value, assign_phi, assign_all,
}
use clam.Phis.Sets.{
  bool_val, int_val, ref_val, var_value, lit_value, as_var-value, var_value_class, SameAt,
  same_here, SameAt_trans, var_value-SameAt,
}
use clam.Phis.Emits.{assign_old-Emits, assign_value-Emits}
use clam.Phis.SaveAll.{get_lit-hit, IsRead, HasOld}

lit_value_at :
    (a b : Env) (l : Lit)
    → ((y : Var) → get_var l ≡ some y → SameAt a b y.name)
    → lit_value b l ≡ lit_value a l
unfolding get_var
lit_value_at a b (bool_cst c) same = refl
lit_value_at a b (bool_var y) same = let (i, b', r) = same y refl in ap bool_val b'
lit_value_at a b (int_cst n w) same = refl
lit_value_at a b (int_var y w) same = let (i, b', r) = same y refl in ap int_val i
lit_value_at a b ref_null same = refl
lit_value_at a b (ref_var y) same = let (i, b', r) = same y refl in ap ref_val r

module _ (o : IntOps) (picked : Env) (f : VarFactory) (laws : VarFactoryLaws f)
    (value_at : ℕ → Value) (ap' : (w : ℕ) → ApInt w) (content_width : ℕ → ℕ) (params : Params)
    (region_of : ℕ → ℕ → Region) (phis : List ℕ) (lit : ℕ → Lit) (var_of : ℕ → Var)
    (cache : List LitEntry) (known0 : ℕ → Bool) (e0 : Env) (nulls : (n : ℕ) → picked.refs n ≡ 0)
    (distinct : (a b : ℕ) (x y : Var)
      → get_var (lit a) ≡ some x
      → get_var (lit b) ≡ some y
      → x.name ≡ y.name
      → a ≡ b) where
  open f use {State, known}

  abbrev pub Read : Phi → Type 0
  Read =
      IsRead o picked f laws value_at ap' content_width params region_of phis lit var_of cache
        known0 e0

  abbrev target : Phi → Var
  target p = var_of p.self

  -- the value of the node is the one that its operand had at the start
  abbrev pub Right : Env → Phi → Type 0
  Right e p = var_value e (lit p.incoming) (target p) ≡ lit_value e0 (lit p.incoming)

  abbrev pub NotOf : List Phi → ℕ → Type 0
  NotOf qs n = All (λ q. (n == (target q).name) ≡ false) qs

  abbrev Others : Phi → List Phi → Type 0
  Others p qs = All (λ q. ¬ (q.self ≡ p.self)) qs

  -- no two nodes are the same
  abbrev pub NoDup : List Phi → Type 0
  NoDup [] = Unit
  NoDup (p ∷ ps) = Others p ps × NoDup ps

  NotOf-Others :
      (p : Phi) (qs : List Phi) → Read p → All Read qs → Others p qs → NotOf qs (target p).name
  NotOf-Others p [] read reads others = tt
  NotOf-Others p (q ∷ qs) read (r, reads) (ne, others) = (
    elim (Bool-cases ((target p).name == (target q).name)) [
      | inr e ↦ e
      | inl e ↦ absurd (
          ne (
            distinct q.self p.self (target q) (target p) r.is_var read.is_var
              (sym ((==_iff (target p).name (target q).name).0 e))))
    ],
    NotOf-Others p qs read reads others,
  )

  module _ (olds : Olds) where
    abbrev Old : Olds → ℕ → Type 0
    Old =
        HasOld o picked f laws value_at ap' content_width params region_of phis lit var_of cache
          known0 e0

    -- the old variables, and the operands without one, still have their values
    abbrev pub OldsGood : Env → Type 0
    OldsGood e =
        (v : ℕ) (x : Var)
        → find_old v olds ≡ some x
        → (known0 x.name ≡ false) × (var_value e (lit v) x ≡ lit_value e0 (lit v))

    abbrev pub OperandGood : Env → Phi → Type 0
    OperandGood e q =
        find_old q.incoming olds ≡ none
        → lit_value e (lit q.incoming) ≡ lit_value e0 (lit q.incoming)

    -- one node: its variable gets the value, and nothing else changes
    assign_phi-Emits :
        (p : Phi) (fac : Factory State) (e : Env)
        → Read p
        → fac.lit_cache ≡ cache
        → OldsGood e
        → OperandGood e p
        → (block : List Stmt) × (fac' : Factory State) × (e' : Env) × (assign_phi f value_at ap'
              content_width params region_of olds p fac
            ≡ ok (block, fac'))
          × (exec o picked block e ≡ some e')
          × (fac'.lit_cache ≡ cache)
          × ((n : ℕ) → (n == (target p).name) ≡ false → SameAt e e' n)
          × Right e' p
    unfolding assign_phi assign_to assign_from
    assign_phi-Emits p fac e read same_cache olds_good operand_good =
        let l = lit p.incoming in
        let lhs = target p in
        let hit =
          get_lit-hit o picked f laws value_at ap' content_width params region_of p.self
            (lit p.self) fac (ap (find_lit p.self) same_cache ∙ read.self_lit) in
        let call = assign_phi f value_at ap' content_width params region_of olds p fac in
        let reaches : call
            ≡ assign_from f value_at ap' content_width params region_of (find_old p.incoming olds)
                lhs p fac =
          let to = assign_to f value_at ap' content_width params region_of olds p in
          rw (read.tracked, assign_phi)
            (ap
                (λ b.
                  if b
                  then ok ([], fac)
                  else to (lit_of f value_at ap' content_width params region_of p.self fac))
                read.shown
              ∙ (ap to hit ∙ rw (read.is_var, assign_to) refl)) in
        elim (Option-cases (find_old p.incoming olds)) [
          | inr (x, has) ↦
              let (block, fac', made, (e', run, others, value), kept) =
                assign_old-Emits o picked f laws value_at ap' content_width params region_of lhs x p
                  l fac e read.self_type in
              (
                block,
                fac',
                e',
                reaches
                    ∙ (ap
                          (λ v.
                            assign_from f value_at ap' content_width params region_of v lhs p fac)
                          has
                        ∙ made),
                run,
                kept.0 ∙ same_cache,
                others,
                sym (var_value_class e' l x lhs)
                    ∙ (value ∙ (as_var-value e l x ∙ (olds_good p.incoming x has).1)),
              )
          | inl no_old ↦
              let hit' =
                get_lit-hit o picked f laws value_at ap' content_width params region_of p.incoming l
                  fac (ap (find_lit p.incoming) same_cache ∙ read.value_lit) in
              let (block, fac', made, (e', run, others, value), kept) =
                assign_value-Emits o picked f laws value_at ap' content_width params region_of lhs p
                  l fac e read.value_type nulls in
              (
                block,
                fac',
                e',
                reaches
                    ∙ (ap
                          (λ v.
                            assign_from f value_at ap' content_width params region_of v lhs p fac)
                          no_old
                        ∙ (ap (assign_value f value_at ap' content_width params region_of lhs p)
                              hit'
                            ∙ made)),
                run,
                kept.0 ∙ same_cache,
                others,
                value ∙ operand_good no_old,
              )
        ]

    -- the assignment of a node leaves the operands of the others good
    operands_good :
        (p : Phi) (qs : List Phi) (e e' : Env)
        → Read p
        → elem p.self phis ≡ true
        → All (λ q. Old olds q.incoming) qs
        → ((n : ℕ) → (n == (target p).name) ≡ false → SameAt e e' n)
        → All (OperandGood e) qs
        → All (OperandGood e') qs
    operands_good p [] e e' read here has same good = tt
    operands_good p (q ∷ qs) e e' read here (has, hass) same (g, good) = (
      λ no_old.
          lit_value_at e e' (lit q.incoming) (λ y is_var. same y.name (not_target y is_var no_old))
          ∙ g no_old,
      operands_good p qs e e' read here hass same good,
    )
      where
        not_target :
            (y : Var)
            → get_var (lit q.incoming) ≡ some y
            → find_old q.incoming olds ≡ none
            → (y.name == (target p).name) ≡ false
        not_target y is_var no_old = elim (Bool-cases (y.name == (target p).name)) [
          | inr e ↦ e
          | inl e ↦
              let same_value : q.incoming ≡ p.self =
                distinct q.incoming p.self y (target p) is_var read.is_var
                  ((==_iff y.name (target p).name).0 e) in
              let (x, found) = has (ap (λ a. elem a phis) same_value ∙ here) in
              absurd (cc (found, no_old))
        ]

    OldsGood-after :
        (p : Phi) (e e' : Env)
        → Read p
        → ((n : ℕ) → (n == (target p).name) ≡ false → SameAt e e' n)
        → OldsGood e
        → OldsGood e'
    OldsGood-after p e e' read same good v x found =
        let (new, value) = good v x found in
        let ne : (x.name == (target p).name) ≡ false =
          elim (Bool-cases (x.name == (target p).name)) [
            | inr e ↦ e
            | inl e ↦
                let one : x.name ≡ (target p).name = (==_iff x.name (target p).name).0 e in
                let k = read.var_known in absurd (cc (one, new, k))
          ] in
        (new, var_value-SameAt e e' (lit v) x (same x.name ne) ∙ value)

    pub assign_all-Right :
        (ps : List Phi) (fac : Factory State) (e : Env)
        → All Read ps
        → NoDup ps
        → All (λ p. elem p.self phis ≡ true) ps
        → All (λ p. Old olds p.incoming) ps
        → fac.lit_cache ≡ cache
        → OldsGood e
        → All (OperandGood e) ps
        → (block : List Stmt) × (fac' : Factory State) × (e' : Env) × (assign_all f value_at ap'
              content_width params region_of olds ps fac
            ≡ ok (block, fac'))
          × (exec o picked block e ≡ some e')
          × ((n : ℕ) → NotOf ps n → SameAt e e' n)
          × All (Right e') ps
    unfolding assign_all exec
    assign_all-Right [] fac e reads dup here has cached good operands =
        ([], fac, e, refl, refl, λ n h. same_here e n, tt)
    assign_all-Right (p ∷ ps) fac e (read, reads) (others, dup) (here, heres) (has, hass) cached
          good (operand, operands) =
        let (block1, fac1, e1, made1, run1, cached1, same1, right1) =
          assign_phi-Emits p fac e read cached good operand in
        let (block2, fac2, e2, made2, run2, same2, right2) =
          assign_all-Right ps fac1 e1 reads dup heres hass cached1
            (OldsGood-after p e e1 read same1 good)
            (operands_good p ps e e1 read here hass same1 operands) in
        (
          block1 ++ block2,
          fac2,
          e2,
          rw (made1, made2) refl,
          exec-++ o picked block1 block2 e
              ∙ (ap (λ r. and_then r (exec o picked block2)) run1 ∙ run2),
          λ n h. SameAt_trans e e1 e2 n (same1 n h.0) (same2 n h.1),
          (
            var_value-SameAt e1 e2 (lit p.incoming) (target p)
                  (same2 (target p).name (NotOf-Others p ps read reads others))
                ∙ right1,
            right2,
          ),
        )
