-- ===== src/Tests/Lit.antt =====
-- Regions and literals at concrete inputs: an i8 value, a constant of 8 bits, and a factory that
-- counts its names.
use clam.Prelude.{
  ℕ, ◌+◌, ◌*◌, ◌-◌, ◌≡◌, ◌↔◌, refl, Bool, true, false, not, [], Option, none, some, ltb, arith,
}
use clam.Prelude.Int.{negsuc, ltb_ℤ, ◌-ℤ◌}
use clam.Llvm.{signed}
use clam.Region.{
  int_region, ptr_region, RegionInfo, Region, has_same_type, region_compare, same_key,
  region_compare_order,
}
use clam.Lit.Values.{
  integer, constant_int, Value, Params, num, VarFactory, Var, is_bool, is_integer,
  integer_bit_width, mem, track_memory,
}
use clam.Lit.Consts.{ApInt, ApIntLaws, half_of, get_int_constant, get_int_constant_lem}
use clam.Lit.Literal.{Lit, int_cst, ok}
use clam.Lit.Factory.{Factory, find_lit, get_lit, mk_region_var}
use clam.Lit.RegionLaws.{mk_region_var-again}
use clam.Lit.FactoryLaws.{Fits, CacheFits, get_lit-cached}

abbrev i32_region : RegionInfo
i32_region = record {
  region_type = int_region;
  bitwidth = 32;
  is_sequence = false;
  is_heap = false;
  is_cyclic = false;
}

abbrev first : Region
first = record { id = 1; info = i32_region; singleton = none }

abbrev second : Region
second = record { id = 2; info = i32_region; singleton = none }

abbrev first_ptr : Region
first_ptr = record {
  id = 1;
  info = record i32_region { region_type = ptr_region };
  singleton = none;
}

region_compare_order_example :
    (region_compare first first ≡ false)
    × (region_compare first first_ptr ≡ true
        → region_compare first_ptr second ≡ true
        → region_compare first second ≡ true)
    × ((same_key first first_ptr ≡ true)
        ↔ ((first.id ≡ first_ptr.id) × (has_same_type first.info first_ptr.info ≡ true)))
region_compare_order_example = region_compare_order first first_ptr second

-- APInt by its two's complement.
abbrev pub bits_of : (w : ℕ) → ApInt w
bits_of w = record {
  is_negative = λ a. not (ltb a (half_of w));
  abs = λ a. 2 * half_of w - a;
  sgt = λ a b. ltb_ℤ (signed (half_of w) b) (signed (half_of w) a);
  slt = λ a b. ltb_ℤ (signed (half_of w) a) (signed (half_of w) b);
  from_int64 = λ z. 0;
}

byte_laws : ApIntLaws (bits_of 8)
byte_laws = record {
  is_negative_law = λ a. refl;
  abs_law = λ a h. refl;
  sgt_law = λ a b. refl;
  slt_law = λ a b. refl;
  max_law = λ h. absurd (omega arith);
  min_law = λ h. absurd (omega arith);
}

abbrev pub plain_params : Params
plain_params = record {
  precision_level = num;
  include_useless_havoc = true;
  enable_bignums = false;
  lower_unsigned_icmp = false;
}

get_int_constant_lem_example :
    ((get_int_constant (bits_of 8) 250 plain_params true).0 ≡ negsuc 5)
    × ((get_int_constant (bits_of 8) 250 plain_params true).1 ≡ false)
get_int_constant_lem_example =
    get_int_constant_lem (bits_of 8) byte_laws 250 plain_params true (omega arith) (omega arith)

abbrev counter : VarFactory
counter = record { State = ℕ; get = λ s. (s, 1 + s); index = λ v s. (v, s); known = λ s n. ltb n s }

-- 250 of 8 bits stands at every address.
abbrev constants_at : ℕ → Value
constants_at a = record { type = integer 8; kind = constant_int 250 }

abbrev empty_factory : Factory ℕ
empty_factory = record { vfac = 0; lit_cache = []; rgn_cache = [] }

abbrev lit_call : Bool → Factory ℕ → Option Lit × Factory ℕ
lit_call = get_lit counter constants_at bits_of (λ g. 8) plain_params 7

get_lit-cached_example :
    Fits (integer 8) (int_cst (negsuc 5) 8)
    × CacheFits counter constants_at bits_of (λ g. 8) plain_params (lit_call true empty_factory).1
    × ((asked : Bool)
        → lit_call asked (lit_call true empty_factory).1
          ≡ (some (int_cst (negsuc 5) 8), (lit_call true empty_factory).1))
unfolding find_lit get_lit get_int_constant is_bool is_integer integer_bit_width ◌-ℤ◌
get_lit-cached_example =
    get_lit-cached counter constants_at bits_of (λ g. 8) plain_params 7 true empty_factory
      (int_cst (negsuc 5) 8) (λ a l h. absurd (cc h)) refl

abbrev mem_params : Params
mem_params = record plain_params { precision_level = mem }

-- the same region, found to be in the heap
abbrev first_heap : Region
first_heap = record { id = 1; info = record i32_region { is_heap = true }; singleton = none }

mk_region_var-again_example :
    (x : Var) × (fac' : Factory ℕ) × (mk_region_var counter constants_at bits_of
        (λ g. 8)
        mem_params
        first
        empty_factory
      ≡ ok (x, fac'))
    × (mk_region_var counter constants_at bits_of (λ g. 8) mem_params first_heap fac'
        ≡ ok (x, fac'))
unfolding track_memory same_key
mk_region_var-again_example =
    mk_region_var-again counter constants_at bits_of (λ g. 8) mem_params first first_heap
      empty_factory refl refl
