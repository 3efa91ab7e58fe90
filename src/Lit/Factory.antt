-- ===== src/Lit/Factory.antt =====
-- lib/Clam/CfgBuilderLit.cc: crabLitFactoryImpl, with its caches of literals and of regions.
use clam.Prelude.{ℕ, Bool, true, List, [], ◌∷◌, Option, none, some, ◌==◌, leb, if◌then◌else◌}
use clam.Prelude.Int.{pos, ltb_ℤ}
use clam.Region.{
  RegionType, untyped_region, bool_region, int_region, ptr_region, RegionInfo, Region, same_key,
}
use clam.Lit.Values.{
  ValueKind, constant_int, constant_null, constant_expr, undef, Value, Params, track_memory,
  track_only_singleton_memory, is_bool, is_integer, is_pointer_type, is_reference,
  integer_bit_width, bool_type, int_type, ref_type, arr_bool_type, arr_int_type, reg_bool_type,
  reg_int_type, reg_ref_type, reg_unknown_type, VarType, Var, VarFactory,
}
use clam.Lit.Consts.{ApInt, get_int_constant}
use clam.Lit.Literal.{
  Checked, ok, clam_error, Lit, bool_cst, bool_var, int_cst, int_var, ref_null, ref_var,
}

pub record LitEntry : Type 0 where
  pub address : ℕ
  pub lit : Lit

pub record RgnEntry : Type 0 where
  pub region : Region
  pub var : Var

pub record Factory (S : Type 0) : Type 0 where
  pub vfac : S
  pub lit_cache : List LitEntry
  pub rgn_cache : List RgnEntry

unfoldable pub find_lit : ℕ → List LitEntry → Option Lit
find_lit a [] = none
find_lit a (e ∷ es) = if e.address == a then some e.lit else find_lit a es

unfoldable pub find_rgn : Region → List RgnEntry → Option Var
find_rgn r [] = none
find_rgn r (e ∷ es) = if same_key e.region r then some e.var else find_rgn r es

unfoldable pub region_type_to_crab_type : RegionInfo → RegionType → VarType
region_type_to_crab_type i int_region = record { kind = reg_int_type; bitwidth = some i.bitwidth }
region_type_to_crab_type i bool_region = record { kind = reg_bool_type; bitwidth = some 1 }
region_type_to_crab_type i ptr_region = record { kind = reg_ref_type; bitwidth = some 32 }
region_type_to_crab_type i untyped_region = record { kind = reg_unknown_type; bitwidth = none }

-- The switch of mkArrayVar; its default is an error.
unfoldable pub array_type : RegionType → Checked VarType
array_type int_region = ok (record { kind = arr_int_type; bitwidth = none })
array_type bool_region = ok (record { kind = arr_bool_type; bitwidth = none })
array_type _ = clam_error

-- The switch of mkScalarVar, for the bit width of the global's content.
unfoldable pub scalar_type : RegionType → ℕ → Checked VarType
scalar_type int_region w =
    if leb w 1 then clam_error else ok (record { kind = int_type; bitwidth = some w })
scalar_type bool_region w = ok (record { kind = bool_type; bitwidth = some 1 })
scalar_type _ w = clam_error

-- `value_at` is what stands at an address, `ap` is LLVM's APInt, and `content_width` the integer
-- bit width of what a global holds.
module _ (f : VarFactory) (value_at : ℕ → Value) (ap : (w : ℕ) → ApInt w) (content_width : ℕ → ℕ)
    (params : Params) where
  open f use {State, get, index}

  -- a new name or the name of the value, for undef and any other value
  unfoldable pub name_of : ValueKind → ℕ → State → ℕ × State
  name_of undef a s = get s
  name_of _ a s = index a s

  unfoldable pub bool_lit_of : ValueKind → ℕ → State → Option Lit × State
  unfolding name_of get_int_constant
  bool_lit_of (constant_int n) a s =
      let (z, too_big) = get_int_constant (ap 1) n params true in
      if too_big then (none, s) else (some (bool_cst (ltb_ℤ (pos 0) z)), s)
  bool_lit_of constant_expr a s = (none, s)
  bool_lit_of k a s =
      let (n, s') = name_of k a s in
      (
        some
            (bool_var (record { name = n; type = record { kind = bool_type; bitwidth = some 1 } })),
        s',
      )

  unfoldable pub int_lit_of : ValueKind → ℕ → ℕ → Bool → State → Option Lit × State
  unfolding name_of get_int_constant
  int_lit_of (constant_int n) w a as_signed s =
      let (z, too_big) = get_int_constant (ap w) n params as_signed in
      if too_big then (none, s) else (some (int_cst z w), s)
  int_lit_of constant_expr w a as_signed s = (none, s)
  int_lit_of k w a as_signed s =
      let (n, s') = name_of k a s in
      (
        some
            (int_var (record { name = n; type = record { kind = int_type; bitwidth = some w } }) w),
        s',
      )

  unfoldable pub ref_lit_of : ValueKind → ℕ → State → Option Lit × State
  unfolding name_of
  ref_lit_of constant_null a s = (some ref_null, s)
  ref_lit_of constant_expr a s = (none, s)
  ref_lit_of k a s =
      let (n, s') = name_of k a s in
      (some (ref_var (record { name = n; type = record { kind = ref_type; bitwidth = none } })), s')

  unfoldable pub get_bool_lit : ℕ → State → Option Lit × State
  unfolding bool_lit_of
  get_bool_lit a s =
      if is_bool (value_at a).type then bool_lit_of (value_at a).kind a s else (none, s)

  unfoldable pub get_int_lit : ℕ → Bool → State → Option Lit × State
  unfolding int_lit_of
  get_int_lit a as_signed s =
      let v = value_at a in
      if is_integer v.type
      then int_lit_of v.kind (integer_bit_width v.type) a as_signed s
      else (none, s)

  -- Null is checked before the type.
  unfoldable pub get_ref_lit : ℕ → State → Option Lit × State
  unfolding ref_lit_of
  get_ref_lit a s = elim (value_at a).kind [
    | constant_null ↦ (some ref_null, s)
    | k ↦ if is_pointer_type (value_at a).type then ref_lit_of k a s else (none, s)
  ]

  -- A literal that was made is put in the cache.
  unfoldable pub cache_lit : ℕ → Factory State → Option Lit × State → Option Lit × Factory State
  cache_lit a fac (none, s) = (none, record fac { vfac = s })
  cache_lit a fac (some l, s) =
      (some l, record fac { vfac = s; lit_cache = record { address = a; lit = l } ∷ fac.lit_cache })

  unfoldable pub make_lit : ℕ → Bool → Factory State → Option Lit × Factory State
  unfolding get_bool_lit get_int_lit get_ref_lit cache_lit
  make_lit a as_signed fac =
      let t = (value_at a).type in
      if is_bool t
      then cache_lit a fac (get_bool_lit a fac.vfac)
      else if is_integer t
      then cache_lit a fac (get_int_lit a as_signed fac.vfac)
      else if is_pointer_type t
      then cache_lit a fac (get_ref_lit a fac.vfac)
      else (none, fac)

  unfoldable pub get_lit : ℕ → Bool → Factory State → Option Lit × Factory State
  unfolding find_lit make_lit
  get_lit a as_signed fac = elim (find_lit a fac.lit_cache) [
    | some l ↦ (some l, fac)
    | none ↦ make_lit a as_signed fac
  ]

  -- A variable with a new name.
  unfoldable pub new_var : VarType → Factory State → Var × Factory State
  new_var t fac =
      let (n, s) = get fac.vfac in (record { name = n; type = t }, record fac { vfac = s })

  unfoldable pub mk_int_var : ℕ → Factory State → Var × Factory State
  unfolding new_var
  mk_int_var w = new_var (record { kind = int_type; bitwidth = some w })

  unfoldable pub mk_bool_var : Factory State → Var × Factory State
  unfolding new_var
  mk_bool_var = new_var (record { kind = bool_type; bitwidth = some 1 })

  unfoldable pub mk_ref_var : Factory State → Var × Factory State
  unfolding new_var
  mk_ref_var = new_var (record { kind = ref_type; bitwidth = some 32 })

  unfoldable pub mk_var : ℕ → Factory State → Option Var × Factory State
  unfolding mk_bool_var mk_int_var mk_ref_var
  mk_var a fac =
      let t = (value_at a).type in
      let b = mk_bool_var fac in
      let i = mk_int_var (integer_bit_width t) fac in
      let r = mk_ref_var fac in
      if is_bool t
      then (some b.0, b.1)
      else if is_integer t
      then (some i.0, i.1)
      else if is_reference t params
      then (some r.0, r.1)
      else (none, fac)

  -- A variable of a region: the one in the cache, or a new one that is put there.
  unfoldable pub cached_var :
      Region → Checked VarType → Factory State → Checked (Var × Factory State)
  unfolding find_rgn new_var
  cached_var r t fac = elim (find_rgn r fac.rgn_cache) [
    | some x ↦ ok (x, fac)
    | none ↦ elim t [
      | clam_error ↦ clam_error
      | ok t' ↦
          let (x, fac') = new_var t' fac in
          ok (x, record fac' { rgn_cache = record { region = r; var = x } ∷ fac'.rgn_cache })
    ]
  ]

  unfoldable pub mk_array_var : Region → Factory State → Checked (Var × Factory State)
  unfolding cached_var array_type
  mk_array_var r fac =
      if track_only_singleton_memory params
      then cached_var r (array_type r.info.region_type) fac
      else clam_error

  unfoldable pub mk_region_var : Region → Factory State → Checked (Var × Factory State)
  unfolding cached_var region_type_to_crab_type
  mk_region_var r fac =
      if track_memory params
      then cached_var r (ok (region_type_to_crab_type r.info r.info.region_type)) fac
      else clam_error

  unfoldable pub mk_scalar_var : Region → Factory State → Checked (Var × Factory State)
  unfolding cached_var scalar_type
  mk_scalar_var r fac = elim r.singleton [
    | none ↦ cached_var r clam_error fac
    | some g ↦ cached_var r (scalar_type r.info.region_type (content_width g)) fac
  ]

  -- The versions for a RegionInfo always make a new variable.
  unfoldable pub mk_array_var_of : RegionInfo → Factory State → Checked (Var × Factory State)
  unfolding array_type new_var
  mk_array_var_of i fac =
      if track_only_singleton_memory params
      then elim (array_type i.region_type) [ ok t ↦ ok (new_var t fac) | clam_error ↦ clam_error ]
      else clam_error

  unfoldable pub mk_region_var_of : RegionInfo → Factory State → Checked (Var × Factory State)
  unfolding region_type_to_crab_type new_var
  mk_region_var_of i fac =
      if track_memory params
      then ok (new_var (region_type_to_crab_type i i.region_type) fac)
      else clam_error
