-- ===== src/Phis/Emits.antt =====
-- The statements that the two loops over the PHI nodes emit for one node.
use clam.Prelude.{
  ℕ, ◌≡◌, refl, ap, ◌∙◌, Bool, true, false, ◌||◌, List, [], ◌∷◌, some, ◌==◌, Option-cases, inl, inr,
}
use clam.Region.{Region}
use clam.Lit.Values.{
  Ty, Value, Params, Var, VarType, VarFactory, VarFactoryLaws, is_bool, is_integer_type,
  is_reference, track_memory,
}
use clam.Lit.Consts.{ApInt}
use clam.Lit.Literal.{Checked, ok, Lit, bool_cst, bool_var, int_cst, int_var, ref_null, ref_var}
use clam.Lit.Factory.{
  Factory, find_rgn, region_type_to_crab_type, new_var, cached_var, mk_region_var,
}
use clam.Ir.{Stmt, gep_ref, Env, IntOps}
use clam.Phis.{Phi, copy_ref, assign_old, assign_value}
use clam.Phis.Sets.{
  as_var, Sets, bool_copy-Sets, bool_constant-Sets, int_copy-Sets, int_constant-Sets, gep_ref-Sets,
  null-Sets,
}

module _ (o : IntOps) (picked : Env) (f : VarFactory) (laws : VarFactoryLaws f)
    (value_at : ℕ → Value) (ap' : (w : ℕ) → ApInt w) (content_width : ℕ → ℕ) (params : Params)
    (region_of : ℕ → ℕ → Region) where
  open f use {State, get, known}

  -- the literals stay in the cache, and the names stay known
  abbrev pub Keeps : Factory State → Factory State → Type 0
  Keeps fac fac' =
      (fac'.lit_cache ≡ fac.lit_cache)
      × ((n : ℕ) → known fac.vfac n ≡ true → known fac'.vfac n ≡ true)

  pub Keeps-refl : (fac : Factory State) → Keeps fac fac
  Keeps-refl fac = (refl, λ n h. h)

  pub Keeps-trans : (a b c : Factory State) → Keeps a b → Keeps b c → Keeps a c
  Keeps-trans a b c (h, k) (h', k') = (h' ∙ h, λ n known_n. k' n (k n known_n))

  pub new_var-Keeps :
      (t : VarType) (fac : Factory State)
      → Keeps fac (new_var f value_at ap' content_width params t fac).1
  unfolding new_var
  new_var-Keeps t fac = (
    refl,
    λ n h. laws.get_known fac.vfac n ∙ (ap (λ b. (n == (get fac.vfac).0) || b) h ∙ or_true _),
  )
    where
      or_true : (b : Bool) → (b || true) ≡ true
      or_true true = refl
      or_true false = refl

  mk_region_var-Keeps :
      (r : Region) (fac : Factory State)
      → track_memory params ≡ true
      → (x : Var) × (fac' : Factory State) × (mk_region_var f value_at ap' content_width params r
            fac
          ≡ ok (x, fac'))
        × Keeps fac fac'
  unfolding mk_region_var cached_var
  mk_region_var-Keeps r fac tracked = elim (Option-cases (find_rgn r fac.rgn_cache)) [
    | inr (x, e) ↦ (x, fac, rw (tracked, e, cached_var) refl, Keeps-refl fac)
    | inl e ↦
        let t = region_type_to_crab_type r.info r.info.region_type in
        let made = new_var f value_at ap' content_width params t fac in
        let fac' = record made.1 {
          rgn_cache = record { region = r; var = made.0 } ∷ made.1.rgn_cache;
        } in
        (made.0, fac', rw (tracked, e, cached_var) refl, new_var-Keeps t fac)
  ]

  -- the statements of a block that give a variable the value of a literal
  abbrev pub Emits : Checked (List Stmt × Factory State) → Factory State → Env → Var → Lit → Type 0
  Emits made fac e x l =
      (block : List Stmt) × (fac' : Factory State) × (made ≡ ok (block, fac'))
      × Sets o picked block e x l
      × Keeps fac fac'

  pub copy_ref-Emits :
      (lhs x : Var) (i v v' : ℕ) (fac : Factory State) (e : Env)
      → track_memory params ≡ true
      → Emits
          (copy_ref f value_at ap' content_width params region_of lhs x i v v' fac)
          fac
          e
          lhs
          (ref_var x)
  unfolding copy_ref
  copy_ref-Emits lhs x i v v' fac e tracked =
      let (r, fac1, made, kept) = mk_region_var-Keeps (region_of i v) fac tracked in
      let (r', fac2, made', kept') = mk_region_var-Keeps (region_of i v') fac1 tracked in
      (
        gep_ref lhs r x r' ∷ [],
        fac2,
        rw (made, made') refl,
        gep_ref-Sets o picked e lhs x r r',
        Keeps-trans fac fac1 fac2 kept kept',
      )

  -- the type of a value is the one of its literal
  abbrev pub HasType : Ty → Lit → Type 0
  HasType t (bool_cst b) = is_bool t ≡ true
  HasType t (bool_var x) = is_bool t ≡ true
  HasType t (int_cst n w) = (is_bool t ≡ false) × (is_integer_type t ≡ true)
  HasType t (int_var x w) = (is_bool t ≡ false) × (is_integer_type t ≡ true)
  HasType t ref_null =
      (is_bool t ≡ false)
      × (is_integer_type t ≡ false)
      × (is_reference t params ≡ true)
      × (track_memory params ≡ true)
  HasType t (ref_var x) =
      (is_bool t ≡ false)
      × (is_integer_type t ≡ false)
      × (is_reference t params ≡ true)
      × (track_memory params ≡ true)

  pub assign_old-Emits :
      (lhs x : Var) (p : Phi) (l : Lit) (fac : Factory State) (e : Env)
      → HasType (value_at p.self).type l
      → Emits
          (assign_old f value_at ap' content_width params region_of lhs x p fac)
          fac
          e
          lhs
          (as_var l x)
  unfolding assign_old
  assign_old-Emits lhs x p (bool_cst b) fac e h =
      rw h (_, fac, refl, bool_copy-Sets o picked e lhs x, Keeps-refl fac)
  assign_old-Emits lhs x p (bool_var y) fac e h =
      rw h (_, fac, refl, bool_copy-Sets o picked e lhs x, Keeps-refl fac)
  assign_old-Emits lhs x p (int_cst n w) fac e (h, k) =
      rw (h, k) (_, fac, refl, int_copy-Sets o picked e lhs x w, Keeps-refl fac)
  assign_old-Emits lhs x p (int_var y w) fac e (h, k) =
      rw (h, k) (_, fac, refl, int_copy-Sets o picked e lhs x w, Keeps-refl fac)
  assign_old-Emits lhs x p ref_null fac e (h, k, r, tracked) =
      rw (h, k, r) (copy_ref-Emits lhs x p.self p.self p.self fac e tracked)
  assign_old-Emits lhs x p (ref_var y) fac e (h, k, r, tracked) =
      rw (h, k, r) (copy_ref-Emits lhs x p.self p.self p.self fac e tracked)

  pub assign_value-Emits :
      (lhs : Var) (p : Phi) (l : Lit) (fac : Factory State) (e : Env)
      → HasType (value_at p.incoming).type l
      → ((n : ℕ) → picked.refs n ≡ 0)
      → Emits
          (assign_value f value_at ap' content_width params region_of lhs p (some l, fac))
          fac
          e
          lhs
          l
  unfolding assign_value
  assign_value-Emits lhs p (bool_cst b) fac e h nulls =
      (_, fac, refl, bool_constant-Sets o picked e lhs b, Keeps-refl fac)
  assign_value-Emits lhs p (bool_var y) fac e h nulls =
      (_, fac, refl, bool_copy-Sets o picked e lhs y, Keeps-refl fac)
  assign_value-Emits lhs p (int_cst n w) fac e h nulls =
      (_, fac, refl, int_constant-Sets o picked e lhs n w, Keeps-refl fac)
  assign_value-Emits lhs p (int_var y w) fac e h nulls =
      (_, fac, refl, int_copy-Sets o picked e lhs y w, Keeps-refl fac)
  assign_value-Emits lhs p ref_null fac e (h, k, r, tracked) nulls =
      rw r (_, fac, refl, null-Sets o picked e lhs (nulls lhs.name), Keeps-refl fac)
  assign_value-Emits lhs p (ref_var y) fac e (h, k, r, tracked) nulls =
      rw r (copy_ref-Emits lhs y p.self p.self p.incoming fac e tracked)
