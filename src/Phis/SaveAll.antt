-- ===== src/Phis/SaveAll.antt =====
-- The invariant of the first loop over the PHI nodes.
use clam.Prelude.{
  ℕ, ◌≡◌, refl, ap, subst, ◌∙◌, ◌⊎◌, Bool, true, false, List, ◌∷◌, some, ◌==◌, elem, Bool-cases,
  inl, inr, ==_iff, some_inv,
}
use clam.Region.{Region}
use clam.Lit.Values.{Value, Params, Var, VarFactory, VarFactoryLaws, is_tracked_type}
use clam.Lit.Consts.{ApInt}
use clam.Lit.Literal.{
  Checked, ok, Lit, bool_cst, bool_var, int_cst, int_var, ref_null, ref_var, get_var,
}
use clam.Lit.Factory.{Factory, LitEntry, find_lit, get_lit}
use clam.Ir.{Stmt, Env, IntOps, exec}
use clam.Phis.{Phi, Olds, find_old}
use clam.Phis.Sets.{
  bool_val, int_val, ref_val, var_value, lit_value, SameAt, SameAt_trans, var_value-SameAt,
}
use clam.Phis.Emits.{HasType}

-- the names that a literal reads
abbrev pub Named : (ℕ → Bool) → Lit → Type 0
Named known (bool_var y) = known y.name ≡ true
Named known (int_var y w) = known y.name ≡ true
Named known (ref_var y) = known y.name ≡ true
Named known _ = Unit

pub lit_value-SameAt :
    (known : ℕ → Bool) (a b : Env) (l : Lit)
    → Named known l
    → ((n : ℕ) → known n ≡ true → SameAt a b n)
    → lit_value b l ≡ lit_value a l
lit_value-SameAt known a b (bool_cst c) h same = refl
lit_value-SameAt known a b (bool_var y) h same = let (i, b', r) = same y.name h in ap bool_val b'
lit_value-SameAt known a b (int_cst n w) h same = refl
lit_value-SameAt known a b (int_var y w) h same = let (i, b', r) = same y.name h in ap int_val i
lit_value-SameAt known a b ref_null h same = refl
lit_value-SameAt known a b (ref_var y) h same = let (i, b', r) = same y.name h in ap ref_val r

pub apart : (known : ℕ → Bool) (n m : ℕ) → known n ≡ true → known m ≡ false → (n == m) ≡ false
apart known n m h k = elim (Bool-cases (n == m)) [
  | inr e ↦ e
  | inl e ↦ let same : n ≡ m = (==_iff n m).0 e in absurd (cc (h, k, same))
]

module _ (o : IntOps) (picked : Env) (f : VarFactory) (laws : VarFactoryLaws f)
    (value_at : ℕ → Value) (ap' : (w : ℕ) → ApInt w) (content_width : ℕ → ℕ) (params : Params)
    (region_of : ℕ → ℕ → Region) where
  open f use {State, known}

  -- a literal in the cache is given again
  pub get_lit-hit :
      (a : ℕ) (l : Lit) (fac : Factory State)
      → find_lit a fac.lit_cache ≡ some l
      → get_lit f value_at ap' content_width params a true fac ≡ (some l, fac)
  unfolding get_lit
  get_lit-hit a l fac h = rw (h, get_lit) refl

  module _ (phis : List ℕ) (lit : ℕ → Lit) (var_of : ℕ → Var) (cache : List LitEntry)
      (known0 : ℕ → Bool) (e0 : Env) where
    -- A PHI node whose literal, a variable, and the one of its value are in the cache, with the types
    -- of the values; it is tracked and not one of sea-dsa's.
    pub record IsRead (p : Phi) : Type 0 where
      pub tracked : is_tracked_type (value_at p.self).type params ≡ true
      pub value_tracked : is_tracked_type (value_at p.incoming).type params ≡ true
      pub shown : p.shadow_mem ≡ false
      pub self_lit : find_lit p.self cache ≡ some (lit p.self)
      pub value_lit : find_lit p.incoming cache ≡ some (lit p.incoming)
      pub self_type :
          HasType o picked f laws value_at ap' content_width params region_of
            (value_at p.self).type
            (lit p.incoming)
      pub value_type :
          HasType o picked f laws value_at ap' content_width params region_of
            (value_at p.incoming).type
            (lit p.incoming)
      pub is_var : get_var (lit p.self) ≡ some (var_of p.self)
      pub var_known : known0 (var_of p.self).name ≡ true
      pub value_known : Named known0 (lit p.incoming)
      pub phi_var : elem p.incoming phis ≡ true → (y : Var) × (get_var (lit p.incoming) ≡ some y)

    -- the old variables hold the values of the start, and the names of the start are as they were
    pub record Inv (olds : Olds) (fac : Factory State) (e : Env) : Type 0 where
      pub same_cache : fac.lit_cache ≡ cache
      pub more : (n : ℕ) → known0 n ≡ true → known fac.vfac n ≡ true
      pub same : (n : ℕ) → known0 n ≡ true → SameAt e0 e n
      pub good :
          (v : ℕ) (x : Var)
          → find_old v olds ≡ some x
          → (known0 x.name ≡ false)
            × (known fac.vfac x.name ≡ true)
            × (var_value e (lit v) x ≡ lit_value e0 (lit v))

    abbrev pub HasOld : Olds → ℕ → Type 0
    HasOld olds v = elem v phis ≡ true → (x : Var) × (find_old v olds ≡ some x)

    abbrev pub Grows : Olds → Olds → Type 0
    Grows olds olds' = (v : ℕ) (x : Var) → find_old v olds ≡ some x → find_old v olds' ≡ some x

    -- what a part of the loop does
    abbrev pub Steps :
        Checked (List Stmt × Olds × Factory State) → (Olds → Type 0) → Olds → Env → Type 0
    Steps made wanted olds e =
        (block : List Stmt) × (olds' : Olds) × (fac' : Factory State) × (e' : Env) × (made
          ≡ ok (block, olds', fac'))
        × (exec o picked block e ≡ some e')
        × Inv olds' fac' e'
        × Grows olds olds'
        × wanted olds'

    find_old_new :
        (v v' : ℕ) (x y : Var) (olds : Olds)
        → find_old v' ((v, x) ∷ olds) ≡ some y
        → ((v ≡ v') × (x ≡ y)) ⊎ (find_old v' olds ≡ some y)
    unfolding find_old
    find_old_new v v' x y olds h = elim (Bool-cases (v == v')) [
      | inl e ↦ inl ((==_iff v v').0 e, some_inv (rw e at h))
      | inr e ↦ inr (rw e at h)
    ]

    pub saved-Inv :
        (v : ℕ) (x : Var) (olds : Olds) (fac fac' : Factory State) (e e' : Env)
        → Inv olds fac e
        → Named known0 (lit v)
        → known fac.vfac x.name ≡ false
        → known fac'.vfac x.name ≡ true
        → fac'.lit_cache ≡ fac.lit_cache
        → ((n : ℕ) → known fac.vfac n ≡ true → known fac'.vfac n ≡ true)
        → ((n : ℕ) → (n == x.name) ≡ false → SameAt e e' n)
        → var_value e' (lit v) x ≡ lit_value e (lit v)
        → Inv ((v, x) ∷ olds) fac' e'
    saved-Inv v x olds fac fac' e e' inv named new now same_cache more same value = record {
      same_cache = same_cache ∙ inv.same_cache;
      more = λ n h. more n (inv.more n h);
      same = λ n h.
          SameAt_trans e0 e e' n (inv.same n h)
            (same n (apart (known fac.vfac) n x.name (inv.more n h) new));
      good = λ v' y h. elim (find_old_new v v' x y olds h) [
        | inl (same_v, same_x) ↦
            subst (λ u. Good u y) same_v
              (subst (Good v) same_x
                (not_known0, now, value ∙ lit_value-SameAt known0 e0 e (lit v) named inv.same))
        | inr old ↦
            let (g0, g1, g2) = inv.good v' y old in
            (
              g0,
              more y.name g1,
              var_value-SameAt e e' (lit v') y
                    (same y.name (apart (known fac.vfac) y.name x.name g1 new))
                  ∙ g2,
            )
      ];
    }
      where
        Good : ℕ → Var → Type 0
        Good u w =
            (known0 w.name ≡ false)
            × (known fac'.vfac w.name ≡ true)
            × (var_value e' (lit u) w ≡ lit_value e0 (lit u))

        not_known0 : known0 x.name ≡ false
        not_known0 = elim (Bool-cases (known0 x.name)) [
          | inr h ↦ h
          | inl h ↦ let k : known fac.vfac x.name ≡ true = inv.more x.name h in absurd (cc (k, new))
        ]
