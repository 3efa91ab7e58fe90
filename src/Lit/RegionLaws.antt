-- ===== src/Lit/RegionLaws.antt =====
-- The region cache: regions that share a key share a variable.
use clam.Prelude.{ℕ, ◌≡◌, refl, ◌∙◌, true, List, [], ◌∷◌, some, arith, Option-cases, inl, inr}
use clam.Region.{Region, region_compare, same_key}
use clam.Lit.Values.{Value, Params, track_memory, VarType, Var, VarFactory}
use clam.Lit.Consts.{ApInt}
use clam.Lit.Literal.{Checked, ok}
use clam.Lit.Factory.{
  RgnEntry, Factory, find_rgn, region_type_to_crab_type, new_var, cached_var, mk_region_var,
}

same_key_trans : (q r s : Region) → same_key r s ≡ true → same_key q r ≡ same_key q s
unfolding same_key region_compare
same_key_trans q r s h = ground arith

same_key_refl : (r : Region) → same_key r r ≡ true
unfolding same_key region_compare
same_key_refl r = ground arith

find_rgn-same_key :
    (r s : Region) (es : List RgnEntry) → same_key r s ≡ true → find_rgn s es ≡ find_rgn r es
unfolding find_rgn
find_rgn-same_key r s [] h = refl
find_rgn-same_key r s (e ∷ es) h =
    rw (same_key_trans e.region r s h, find_rgn-same_key r s es h) refl

module _ (f : VarFactory) (value_at : ℕ → Value) (ap' : (w : ℕ) → ApInt w) (content_width : ℕ → ℕ)
    (params : Params) where
  open f use {State}

  abbrev cached : Region → Checked VarType → Factory State → Checked (Var × Factory State)
  cached = cached_var f value_at ap' content_width params

  -- the variable is in the cache afterwards
  cached_var-find :
      (r : Region) (t : VarType) (fac : Factory State)
      → (x : Var) × (fac' : Factory State) × (cached r (ok t) fac ≡ ok (x, fac'))
        × (find_rgn r fac'.rgn_cache ≡ some x)
  unfolding cached_var find_rgn
  cached_var-find r t fac = elim (Option-cases (find_rgn r fac.rgn_cache)) [
    | inr (x, e) ↦ (x, fac, rw (e, cached_var) refl, e)
    | inl e ↦
        let made = new_var f value_at ap' content_width params t fac in
        let fac' = record made.1 {
          rgn_cache = record { region = r; var = made.0 } ∷ made.1.rgn_cache;
        } in
        (made.0, fac', rw (e, cached_var) refl, rw (same_key_refl r) refl)
  ]

  cached_var-found :
      (r : Region) (t : Checked VarType) (fac : Factory State) (x : Var)
      → find_rgn r fac.rgn_cache ≡ some x
      → cached r t fac ≡ ok (x, fac)
  unfolding cached_var
  cached_var-found r t fac x h = rw (h, cached_var) refl

  -- With all memory tracked, mkRegionVar gives a variable for every region. Called again for a
  -- region with the same key, whose other flags may differ, it gives the same variable and changes
  -- nothing.
  pub mk_region_var-again :
      (r s : Region) (fac : Factory State)
      → track_memory params ≡ true
      → same_key r s ≡ true
      → (x : Var) × (fac' : Factory State) × (mk_region_var f value_at ap' content_width params r
            fac
          ≡ ok (x, fac'))
        × (mk_region_var f value_at ap' content_width params s fac' ≡ ok (x, fac'))
  unfolding mk_region_var
  mk_region_var-again r s fac tracked h =
      let (x, fac', made, found) =
        cached_var-find r (region_type_to_crab_type r.info r.info.region_type) fac in
      let found' = find_rgn-same_key r s fac'.rgn_cache h ∙ found in
      (
        x,
        fac',
        rw tracked made,
        rw tracked (
            cached_var-found s (ok (region_type_to_crab_type s.info s.info.region_type)) fac' x
              found'),
      )
