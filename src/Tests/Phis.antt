-- ===== src/Tests/Phis.antt =====
-- Two PHI nodes that swap their values.
use clam.Prelude.{
  ℕ, ◌≡◌, refl, sym, ap, ◌∙◌, true, false, List, [], ◌∷◌, none, some, some_inv, arith,
}
use clam.Region.{Region, untyped_region}
use clam.Lit.Values.{Var, int_type, is_bool, is_integer_type, is_tracked_type}
use clam.Lit.Literal.{Lit, ok, int_var, get_var}
use clam.Lit.Factory.{Factory, find_lit}
use clam.Ir.{Stmt, Env, exec}
use clam.Phis.{Phi, selfs, translate_phis}
use clam.Phis.Sets.{SameAt}
use clam.Phis.SaveAll.{IsRead}
use clam.Phis.Laws.{IsOther, Assigned, translate_phis-Assigned}
use clam.Tests.Lit.{bits_of, plain_params}
use clam.Tests.Compare.{
  list_factory, list_factory_laws, plain_values, ints_at, bits_at, bits_at-below, no_tests,
  all_false,
}
use clam.Tests.Numbers.{int_ops}
use clam.Tests.Ops.{negate_cst, negate_cst_law}
use clam.Tests.Lower.{i8, reference_laws}
use clam.Uses.{Users, no_uses}
use clam.Edges.{constant_int, edge_block, with_phis}
use clam.Phis.OnEdges.{with_phis-Transfers}

abbrev no_users : ℕ → Users
no_users a = no_uses

abbrev no_region : ℕ → ℕ → Region
no_region i v = record {
  info = record {
    region_type = untyped_region;
    bitwidth = 0;
    is_sequence = false;
    is_heap = false;
    is_cyclic = false;
  };
  id = 0;
  singleton = none;
}

abbrev byte_var : ℕ → Var
byte_var a = record { name = a; type = record { kind = int_type; bitwidth = some 8 } }

abbrev byte_lit : ℕ → Lit
byte_lit a = int_var (byte_var a) 8

-- x := y and y := x
abbrev swapped : List Phi
swapped =
    record { self = 2; incoming = 3; shadow_mem = false }
    ∷ record { self = 3; incoming = 2; shadow_mem = false }
    ∷ []

abbrev both_cached : Factory (List ℕ)
both_cached = record {
  vfac = 2 ∷ 3 ∷ [];
  lit_cache =
      record { address = 2; lit = byte_lit 2 } ∷ record { address = 3; lit = byte_lit 3 } ∷ [];
  rgn_cache = [];
}

abbrev start : Env
start = record { ints = ints_at; bools = all_false; refs = λ n. 0 }

same_name :
    (a b : ℕ) (x y : Var)
    → get_var (byte_lit a) ≡ some x
    → get_var (byte_lit b) ≡ some y
    → x.name ≡ y.name
    → a ≡ b
unfolding get_var
same_name a b x y h k e =
    let hx = ap (λ v. v.name) (some_inv h) in
    let ky = ap (λ v. v.name) (some_inv k) in hx ∙ (e ∙ sym ky)

x-IsRead :
    IsRead int_ops start list_factory list_factory_laws plain_values bits_of
      (λ g. 8)
      plain_params
      no_region
      (selfs swapped)
      byte_lit
      byte_var
      both_cached.lit_cache
      (list_factory.known both_cached.vfac)
      start
      (record { self = 2; incoming = 3; shadow_mem = false })
unfolding get_var find_lit is_bool is_integer_type is_tracked_type
x-IsRead = record {
  tracked = refl;
  value_tracked = refl;
  shown = refl;
  self_lit = refl;
  value_lit = refl;
  self_type = (refl, refl);
  value_type = (refl, refl);
  is_var = refl;
  var_known = refl;
  value_known = refl;
  phi_var = λ h. (byte_var 3, refl);
}

y-IsRead :
    IsRead int_ops start list_factory list_factory_laws plain_values bits_of
      (λ g. 8)
      plain_params
      no_region
      (selfs swapped)
      byte_lit
      byte_var
      both_cached.lit_cache
      (list_factory.known both_cached.vfac)
      start
      (record { self = 3; incoming = 2; shadow_mem = false })
unfolding get_var find_lit is_bool is_integer_type is_tracked_type
y-IsRead = record {
  tracked = refl;
  value_tracked = refl;
  shown = refl;
  self_lit = refl;
  value_lit = refl;
  self_type = (refl, refl);
  value_type = (refl, refl);
  is_var = refl;
  var_known = refl;
  value_known = refl;
  phi_var = λ h. (byte_var 2, refl);
}

translate_phis-Assigned_example :
    (block : List Stmt) × (fac' : Factory (List ℕ)) × (e' : Env) × (translate_phis list_factory
        plain_values bits_of
        (λ g. 8)
        plain_params
        no_region
        swapped
        both_cached
      ≡ ok (block, fac'))
    × (exec int_ops start block start ≡ some e')
    × ((n : ℕ)
        → list_factory.known both_cached.vfac n ≡ true
        → IsOther int_ops start list_factory list_factory_laws plain_values bits_of
            (λ g. 8)
            plain_params
            no_region
            byte_lit
            byte_var
            (λ n. refl)
            same_name
            swapped
            both_cached
            start
            n
        → SameAt start e' n)
    × Assigned int_ops start list_factory list_factory_laws plain_values bits_of
        (λ g. 8)
        plain_params
        no_region
        byte_lit
        byte_var
        (λ n. refl)
        same_name
        swapped
        both_cached
        start
        e'
unfolding get_var find_lit is_bool is_integer_type is_tracked_type
translate_phis-Assigned_example =
    translate_phis-Assigned int_ops start list_factory list_factory_laws plain_values bits_of
      (λ g. 8) plain_params no_region byte_lit byte_var (λ n. refl) same_name swapped both_cached
      start (x-IsRead, (y-IsRead, tt)) ((λ h. absurd (cc h), tt), (tt, tt))

-- The edge from block 5 to block 10 of a branch on true.
with_phis-Transfers_example :
    (assumes phis : List Stmt) × (fac2 : Factory (List ℕ)) × (e' : Env) × (edge_block i8
        list_factory plain_values bits_of
        (λ g. 8)
        plain_params
        no_tests
        negate_cst
        no_users
        (constant_int 1)
        true
        false
        both_cached
      ≡ ok (assumes, both_cached))
    × (translate_phis list_factory plain_values bits_of
          (λ g. 8)
          plain_params
          no_region
          swapped
          both_cached
        ≡ ok (phis, fac2))
    × (exec int_ops start (with_phis 5 10 phis assumes) start ≡ some e')
    × ((n : ℕ)
        → list_factory.known both_cached.vfac n ≡ true
        → IsOther int_ops start list_factory list_factory_laws plain_values bits_of
            (λ g. 8)
            plain_params
            no_region
            byte_lit
            byte_var
            (λ n. refl)
            same_name
            swapped
            both_cached
            start
            n
        → SameAt start e' n)
    × Assigned int_ops start list_factory list_factory_laws plain_values bits_of
        (λ g. 8)
        plain_params
        no_region
        byte_lit
        byte_var
        (λ n. refl)
        same_name
        swapped
        both_cached
        start
        e'
with_phis-Transfers_example =
    with_phis-Transfers int_ops start i8 (reference_laws 128) list_factory list_factory_laws
      plain_values bits_of (λ g. 8) plain_params no_tests negate_cst no_users no_region bits_at
      bits_at-below byte_lit byte_var (λ n. refl) same_name start (negate_cst_law start.refs)
      (constant_int 1) false true 5 10 swapped both_cached both_cached (omega arith, refl, refl)
      (x-IsRead, (y-IsRead, tt)) ((λ h. absurd (cc h), tt), (tt, tt))
