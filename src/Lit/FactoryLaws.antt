-- ===== src/Lit/FactoryLaws.antt =====
-- The literal cache: what getLit gives, and that it gives it again.
use clam.Prelude.{
  ℕ, ◌≡◌, refl, subst, ◌∙◌, Bool, true, ◌∷◌, Option, none, some, ◌==◌, Bool-cases, Option-cases,
  inl, inr, ==_refl, ==_iff, some_inv,
}
use clam.Lit.Values.{
  Ty, ValueKind, constant_int, constant_null, constant_expr, undef, plain, Value, Params, is_bool,
  is_integer, is_pointer_type, integer_bit_width, VarFactory,
}
use clam.Lit.Consts.{ApInt, get_int_constant}
use clam.Lit.Literal.{Lit, bool_cst, bool_var, int_cst, int_var, ref_null, ref_var}
use clam.Lit.Factory.{
  Factory, find_lit, bool_lit_of, int_lit_of, ref_lit_of, get_bool_lit, get_int_lit, get_ref_lit,
  cache_lit, make_lit, get_lit,
}

-- The class of a literal is the one of the type, and an integer has the width of the type.
abbrev pub Fits : Ty → Lit → Type 0
Fits t (bool_cst b) = is_bool t ≡ true
Fits t (bool_var x) = is_bool t ≡ true
Fits t (int_cst n w) = (is_integer t ≡ true) × (w ≡ integer_bit_width t)
Fits t (int_var x w) = (is_integer t ≡ true) × (w ≡ integer_bit_width t)
Fits t ref_null = is_pointer_type t ≡ true
Fits t (ref_var x) = is_pointer_type t ≡ true

module _ (f : VarFactory) (value_at : ℕ → Value) (ap' : (w : ℕ) → ApInt w) (content_width : ℕ → ℕ)
    (params : Params) where
  open f use {State}

  -- every cached literal fits the type of its value
  abbrev pub CacheFits : Factory State → Type 0
  CacheFits fac = (a : ℕ) (l : Lit) → find_lit a fac.lit_cache ≡ some l → Fits (value_at a).type l

  abbrev Made : Ty → Option Lit × State → Type 0
  Made t (none, s) = Unit
  Made t (some l, s) = Fits t l

  module _ (t : Ty) (a : ℕ) (s : State) where
    bool_lit_of-Made :
        (k : ValueKind)
        → is_bool t ≡ true
        → Made t (bool_lit_of f value_at ap' content_width params k a s)
    unfolding bool_lit_of
    bool_lit_of-Made (constant_int n) h = h
    bool_lit_of-Made constant_null h = h
    bool_lit_of-Made constant_expr h = tt
    bool_lit_of-Made undef h = h
    bool_lit_of-Made plain h = h

    int_lit_of-Made :
        (k : ValueKind) (as_signed : Bool)
        → is_integer t ≡ true
        → Made t
            (int_lit_of f value_at ap' content_width params k (integer_bit_width t) a as_signed s)
    unfolding int_lit_of
    int_lit_of-Made (constant_int n) as_signed h =
        elim (Bool-cases (get_int_constant (ap' (integer_bit_width t)) n params as_signed).1) [
          | inl e ↦ rw e tt
          | inr e ↦ rw e (h, refl)
        ]
    int_lit_of-Made constant_null as_signed h = (h, refl)
    int_lit_of-Made constant_expr as_signed h = tt
    int_lit_of-Made undef as_signed h = (h, refl)
    int_lit_of-Made plain as_signed h = (h, refl)

  ref_lit-Made :
      (a : ℕ) (s : State) (k : ValueKind)
      → (value_at a).kind ≡ k
      → is_pointer_type (value_at a).type ≡ true
      → Made (value_at a).type (get_ref_lit f value_at ap' content_width params a s)
  unfolding get_ref_lit ref_lit_of
  ref_lit-Made a s constant_null e h = rw (e, get_ref_lit) h
  ref_lit-Made a s constant_expr e h = rw (e, h, get_ref_lit) tt
  ref_lit-Made a s (constant_int n) e h = rw (e, h, get_ref_lit) h
  ref_lit-Made a s undef e h = rw (e, h, get_ref_lit) h
  ref_lit-Made a s plain e h = rw (e, h, get_ref_lit) h

  -- What a call gives: a literal that fits, in the cache now, or none and the same cache.
  abbrev Gives : ℕ → Factory State → Option Lit × Factory State → Type 0
  Gives a fac (none, fac') = fac'.lit_cache ≡ fac.lit_cache
  Gives a fac (some l, fac') =
      Fits (value_at a).type l × (fac'.lit_cache ≡ record { address = a; lit = l } ∷ fac.lit_cache)

  cache_lit-Gives :
      (a : ℕ) (fac : Factory State) (r : Option Lit × State)
      → Made (value_at a).type r
      → Gives a fac (cache_lit f value_at ap' content_width params a fac r)
  unfolding cache_lit
  cache_lit-Gives a fac (none, s) h = refl
  cache_lit-Gives a fac (some l, s) h = (h, refl)

  make_lit-Gives :
      (a : ℕ) (as_signed : Bool) (fac : Factory State)
      → Gives a fac (make_lit f value_at ap' content_width params a as_signed fac)
  unfolding make_lit get_bool_lit get_int_lit
  make_lit-Gives a as_signed fac =
      let t = (value_at a).type in
      let kind = (value_at a).kind in
      elim (Bool-cases (is_bool t)) [
        | inl b ↦ rw b (cache_lit-Gives a fac _ (bool_lit_of-Made t a fac.vfac kind b))
        | inr b ↦ elim (Bool-cases (is_integer t)) [
          | inl i ↦
              rw (b, i) (cache_lit-Gives a fac _ (int_lit_of-Made t a fac.vfac kind as_signed i))
          | inr i ↦ elim (Bool-cases (is_pointer_type t)) [
            | inl p ↦ rw (b, i, p) (cache_lit-Gives a fac _ (ref_lit-Made a fac.vfac kind refl p))
            | inr p ↦ rw (b, i, p) refl
          ]
        ]
      ]

  made-cached :
      (a : ℕ) (fac : Factory State) (l : Lit) (r : Option Lit × Factory State)
      → CacheFits fac
      → Gives a fac r
      → r.0 ≡ some l
      → Fits (value_at a).type l × CacheFits r.1 × (find_lit a r.1.lit_cache ≡ some l)
  unfolding find_lit
  made-cached a fac l (none, fac') old g h = absurd (cc h)
  made-cached a fac l (some l', fac') old g h =
      let same : l' ≡ l = some_inv h in
      let fits : Fits (value_at a).type l = subst (Fits (value_at a).type) same g.0 in
      (
        fits,
        λ b k found. elim (Bool-cases (a == b)) [
          | inl e ↦
              let here : some l' ≡ some k = rw (g.1, e) at found in
              let at : a ≡ b = (==_iff a b).0 e in
              subst (λ c. Fits (value_at c).type k) at
                (subst (Fits (value_at a).type) (some_inv here) g.0)
          | inr e ↦ old b k (rw (g.1, e) at found)
        ],
        rw g.1 (rw (==_refl a) h),
      )

  get_lit-found :
      (a : ℕ) (as_signed : Bool) (fac : Factory State) (l : Lit)
      → find_lit a fac.lit_cache ≡ some l
      → get_lit f value_at ap' content_width params a as_signed fac ≡ (some l, fac)
  unfolding get_lit
  get_lit-found a as_signed fac l h = rw (h, get_lit) refl

  get_lit-missing :
      (a : ℕ) (as_signed : Bool) (fac : Factory State)
      → find_lit a fac.lit_cache ≡ none
      → get_lit f value_at ap' content_width params a as_signed fac
        ≡ make_lit f value_at ap' content_width params a as_signed fac
  unfolding get_lit
  get_lit-missing a as_signed fac h = rw (h, get_lit) refl

  -- getLit gives a literal whose class and width are those of the type of the value, and the cache
  -- stays so. Called again for the value that it gave a literal for, it gives the same literal and
  -- changes nothing, whether constants are then asked for as signed or as unsigned.
  pub get_lit-cached :
      (a : ℕ) (as_signed : Bool) (fac : Factory State) (l : Lit)
      → CacheFits fac
      → (get_lit f value_at ap' content_width params a as_signed fac).0 ≡ some l
      → let fac' = (get_lit f value_at ap' content_width params a as_signed fac).1 in
        Fits (value_at a).type l
        × CacheFits fac'
        × ((asked : Bool)
            → get_lit f value_at ap' content_width params a asked fac' ≡ (some l, fac'))
  get_lit-cached a as_signed fac l old h = elim (Option-cases (find_lit a fac.lit_cache)) [
    | inr (k, e) ↦
        let same = get_lit-found a as_signed fac k e in
        let k_is_l : some k ≡ some l = rw same at h in
        let e' : find_lit a fac.lit_cache ≡ some l = e ∙ k_is_l in
        rw same (old a l e', old, λ asked. get_lit-found a asked fac l e')
    | inl e ↦
        let same = get_lit-missing a as_signed fac e in
        let r = make_lit f value_at ap' content_width params a as_signed fac in
        let made = made-cached a fac l r old (make_lit-Gives a as_signed fac) (rw same at h) in
        rw same (made.0, made.1, λ asked. get_lit-found a asked r.1 l made.2)
  ]
