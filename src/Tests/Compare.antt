-- ===== src/Tests/Compare.antt =====
-- The translated comparisons at concrete inputs: x is 200 and y is 3, of 8 bits.
use clam.Prelude.{
  ℕ, ◌+◌, ◌<◌, ◌≡◌, ◌↔◌, refl, Bool, true, false, List, [], ◌∷◌, some, ◌==◌, elem, if◌then◌else◌,
  arith, Bool-cases, inl, inr,
}
use clam.Prelude.Int.{ℤ, pos, ◌+ℤ◌}
use clam.Llvm.{icmp_sgt, icmp_ult, signed}
use clam.Lit.Values.{
  integer, plain, Value, Var, int_type, bool_type, VarFactory, VarFactoryLaws, is_bool, is_integer,
  integer_bit_width,
}
use clam.Lit.Literal.{LinExp, ok, get_exp}
use clam.Lit.Factory.{Factory, get_lit}
use clam.Compare.Crab.{Stmt, exec, CstTests, CstTestsLaws, exp_value}
use clam.Compare.SignOnesLaws.{
  emitted, unsigned_cmp_into_sign_ones-signed, unsigned_cmp_into_sign_ones-agree,
}
use clam.Compare.Insts.{
  CmpInst, normalize_inst, interpret_as_signed, operand_exps, cmp_inst_to_crab_int,
  cmp_inst_to_crab_bool,
}
use clam.Compare.InstsLaws.{Translates, cmp_inst_to_crab_int-Translates}
use clam.Compare.BoolLaws.{cmp_inst_to_crab_bool-Emits}
use clam.Tests.Lower.{i8, reference_laws}
use clam.Tests.Lit.{bits_of, plain_params}

-- The names given so far; a new one is larger than their sum.
abbrev total : List ℕ → ℕ
total [] = 0
total (n ∷ ns) = n + total ns

abbrev pub list_factory : VarFactory
list_factory = record {
  State = List ℕ;
  get = λ s. (1 + total s, (1 + total s) ∷ s);
  index = λ v s. (v, v ∷ s);
  known = λ s n. elem n s;
}

elem-total : (n : ℕ) (s : List ℕ) → total s < n → elem n s ≡ false
elem-total n [] h = refl
elem-total n (m ∷ s) h =
    let ne : (n == m) ≡ false = ground arith in rw ne (elem-total n s (omega (arith, h)))

pub list_factory_laws : VarFactoryLaws list_factory
list_factory_laws = record {
  get_new = λ s. elem-total (1 + total s) s (omega arith);
  get_known = λ s n. refl;
  index_known = λ v s n. refl;
}

-- Tests that never decide.
abbrev pub no_tests : CstTests
no_tests = record { is_tautology = λ c. false; is_contradiction = λ c. false }

pub no_tests_laws : CstTestsLaws no_tests
no_tests_laws = record {
  tautology_law = λ ints c h. absurd (cc h);
  contradiction_law = λ ints c h. absurd (cc h);
}

-- address 1 is the comparison, and the others are integers of 8 bits
abbrev pub plain_values : ℕ → Value
plain_values a = record { type = if a == 1 then integer 1 else integer 8; kind = plain }

abbrev pub bits_at : ℕ → ℕ
bits_at n = if n == 2 then 200 else 3

pub bits_at-below : (n : ℕ) → bits_at n < 256
bits_at-below n = elim (Bool-cases (n == 2)) [
  | inl e ↦ rw e (omega arith)
  | inr e ↦ rw e (omega arith)
]

abbrev pub ints_at : ℕ → ℤ
ints_at n = signed 128 (bits_at n)

abbrev pub new_factory : Factory (List ℕ)
new_factory = record { vfac = []; lit_cache = []; rgn_cache = [] }

abbrev pub int_of : ℕ → LinExp
int_of n = record {
  var = some (record { name = n; type = record { kind = int_type; bitwidth = some 8 } });
  constant = pos 0;
}

abbrev pub result_var : Var
result_var = record { name = 1; type = record { kind = bool_type; bitwidth = some 1 } }

abbrev pub all_false : ℕ → Bool
all_false n = false

unsigned_cmp_into_sign_ones-signed_example :
    exec all_false ints_at
      (emitted list_factory plain_values bits_of
        (λ g. 8)
        plain_params
        no_tests
        list_factory_laws
        no_tests_laws
        all_false
        ints_at
        all_false
        result_var
        (int_of 2)
        (int_of 3)
        false
        false
        new_factory)
      all_false
      1
    ≡ true
unfolding exp_value ◌+ℤ◌
unsigned_cmp_into_sign_ones-signed_example =
    unsigned_cmp_into_sign_ones-signed list_factory plain_values bits_of (λ g. 8) plain_params
      no_tests list_factory_laws no_tests_laws all_false ints_at all_false result_var (int_of 2)
      (int_of 3) false false new_factory

unsigned_cmp_into_sign_ones-agree_example :
    (exec all_false ints_at
        (emitted list_factory plain_values bits_of
          (λ g. 8)
          plain_params
          no_tests
          list_factory_laws
          no_tests_laws
          all_false
          ints_at
          all_false
          result_var
          (int_of 2)
          (int_of 3)
          false
          false
          new_factory)
        all_false
        1
      ≡ false)
    ↔ (false ≡ true)
unfolding exp_value ◌+ℤ◌
unsigned_cmp_into_sign_ones-agree_example =
    unsigned_cmp_into_sign_ones-agree list_factory plain_values bits_of (λ g. 8) plain_params
      no_tests list_factory_laws no_tests_laws all_false ints_at all_false result_var (int_of 2)
      (int_of 3) false false new_factory 128 200 3 refl refl (omega arith) (omega arith)

-- x sgt y, which is read as y slt x
abbrev x_sgt_y : CmpInst
x_sgt_y = record { self = 1; pred = icmp_sgt; v0 = 2; v1 = 3 }

abbrev after_ints : Factory (List ℕ)
after_ints =
    (operand_exps i8 list_factory plain_values bits_of (λ g. 8) plain_params no_tests
      (normalize_inst i8 x_sgt_y) true new_factory).1

cmp_inst_to_crab_int-Translates_example :
    Translates i8
      (reference_laws 128)
      list_factory
      plain_values
      bits_of
      (λ g. 8)
      plain_params
      no_tests
      ints_at
      bits_at
      x_sgt_y
      true
      (cmp_inst_to_crab_int i8 list_factory plain_values bits_of
        (λ g. 8)
        plain_params
        no_tests
        x_sgt_y
        true
        new_factory).0
unfolding exp_value ◌+ℤ◌ operand_exps normalize_inst get_lit is_bool is_integer integer_bit_width
    get_exp
cmp_inst_to_crab_int-Translates_example =
    cmp_inst_to_crab_int-Translates i8 (reference_laws 128) list_factory plain_values bits_of
      (λ g. 8) plain_params no_tests x_sgt_y true ints_at bits_at (int_of 3, int_of 2) new_factory
      after_ints bits_at-below (refl, refl, refl)

-- x ult y
abbrev inst_x_ult_y : CmpInst
inst_x_ult_y = record { self = 1; pred = icmp_ult; v0 = 2; v1 = 3 }

abbrev after_self : Factory (List ℕ)
after_self =
    (get_lit list_factory plain_values bits_of (λ g. 8) plain_params
      (normalize_inst i8 inst_x_ult_y).self true new_factory).1

abbrev after_operands : Factory (List ℕ)
after_operands =
    (operand_exps i8 list_factory plain_values bits_of (λ g. 8) plain_params no_tests
      (normalize_inst i8 inst_x_ult_y) false after_self).1

cmp_inst_to_crab_bool-Emits_example :
    (block : List Stmt) × (fac' : Factory (List ℕ)) × (cmp_inst_to_crab_bool i8 list_factory
        plain_values bits_of
        (λ g. 8)
        plain_params
        no_tests
        inst_x_ult_y
        true
        new_factory
      ≡ ok (block, fac'))
    × (exec all_false ints_at block all_false 1 ≡ true)
unfolding exp_value ◌+ℤ◌ operand_exps normalize_inst get_lit is_bool is_integer integer_bit_width
    get_exp interpret_as_signed
cmp_inst_to_crab_bool-Emits_example =
    cmp_inst_to_crab_bool-Emits i8 (reference_laws 128) list_factory plain_values bits_of (λ g. 8)
      plain_params no_tests list_factory_laws no_tests_laws all_false ints_at all_false bits_at
      inst_x_ult_y true (int_of 2, int_of 3) result_var new_factory after_self after_operands
      bits_at-below refl (refl, refl, refl)
