-- ===== src/Tests/Lower.antt =====
-- The lowering passes at concrete inputs, over 8-bit integers.
use clam.Prelude.{
  ℕ, ◌≡◌, ◌↔◌, refl, Bool, true, false, not, some, ltb, leb, ◌==◌, arith, if◌then◌else◌,
}
use clam.Prelude.Int.{ltb_ℤ}
use clam.Llvm.{
  Predicate, icmp_eq, icmp_ne, icmp_ugt, icmp_uge, icmp_ult, icmp_ule, icmp_sgt, icmp_sge, icmp_slt,
  icmp_sle, Icmp, IcmpLaws, constant, variable, Cmp, signed, of_bool, value_of, eval_cmp, run,
}
use clam.Lower.UnsignedIcmp.{
  signed_cmp, lower_constant, lower_general, process_unsigned_icmp, normalize_cmp_inst,
}
use clam.Lower.UnsignedIcmpLaws.{
  process_unsigned_icmp-signed, process_unsigned_icmp-agree, normalize_cmp_inst-keeps, IsNormal,
}
use clam.Lower.Select.{process_select_inst, process_select_inst-run}

-- LLVM's comparisons and tables of predicates.
abbrev icmp_of : ℕ → Predicate → ℕ → ℕ → Bool
icmp_of half icmp_eq a b = a == b
icmp_of half icmp_ne a b = not (a == b)
icmp_of half icmp_ugt a b = ltb b a
icmp_of half icmp_uge a b = leb b a
icmp_of half icmp_ult a b = ltb a b
icmp_of half icmp_ule a b = leb a b
icmp_of half icmp_sgt a b = ltb_ℤ (signed half b) (signed half a)
icmp_of half icmp_sge a b = not (ltb_ℤ (signed half a) (signed half b))
icmp_of half icmp_slt a b = ltb_ℤ (signed half a) (signed half b)
icmp_of half icmp_sle a b = not (ltb_ℤ (signed half b) (signed half a))

abbrev swapped_of : Predicate → Predicate
swapped_of icmp_ugt = icmp_ult
swapped_of icmp_uge = icmp_ule
swapped_of icmp_ult = icmp_ugt
swapped_of icmp_ule = icmp_uge
swapped_of icmp_sgt = icmp_slt
swapped_of icmp_sge = icmp_sle
swapped_of icmp_slt = icmp_sgt
swapped_of icmp_sle = icmp_sge
swapped_of icmp_eq = icmp_eq
swapped_of icmp_ne = icmp_ne

abbrev signed_of_table : Predicate → Predicate
signed_of_table icmp_ult = icmp_slt
signed_of_table icmp_ule = icmp_sle
signed_of_table icmp_ugt = icmp_sgt
signed_of_table icmp_uge = icmp_sge
signed_of_table p = p

abbrev pub reference : (half : ℕ) → Icmp half
reference half = record { icmp = icmp_of half; swapped = swapped_of; signed_of = signed_of_table }

swapped_of_law :
    (half : ℕ) (p : Predicate) (a b : ℕ) → icmp_of half (swapped_of p) b a ≡ icmp_of half p a b
swapped_of_law half icmp_eq a b = ground arith
swapped_of_law half icmp_ne a b = ground arith
swapped_of_law half _ a b = refl

pub reference_laws : (half : ℕ) → IcmpLaws (reference half)
reference_laws half = record {
  eq_law = λ a b. refl;
  ne_law = λ a b. refl;
  ult_law = λ a b. refl;
  ule_law = λ a b. refl;
  slt_law = λ a b. refl;
  sle_law = λ a b. refl;
  sge_law = λ a b. refl;
  swapped_law = swapped_of_law half;
  swapped_ugt = refl;
  swapped_uge = refl;
  swapped_sgt = refl;
  swapped_sge = refl;
  signed_ult = refl;
  signed_ule = refl;
}

abbrev pub i8 : Icmp 128
i8 = reference 128

-- x ult y, with 200 for x and 3 for y
abbrev x_ult_y : Cmp
x_ult_y = record { pred = icmp_ult; lhs = variable 0; rhs = variable 1 }

abbrev far_apart : ℕ → ℕ
far_apart x = if x == 0 then 200 else 3

-- x ult 10
abbrev x_ult_10 : Cmp
x_ult_10 = record { pred = icmp_ult; lhs = variable 0; rhs = constant 10 }

process_unsigned_icmp-signed_example :
    run i8 far_apart (lower_general i8 x_ult_y)
    ≡ some (of_bool (eval_cmp i8 far_apart (signed_cmp i8 x_ult_y)))
unfolding value_of process_unsigned_icmp
process_unsigned_icmp-signed_example =
    process_unsigned_icmp-signed i8 (reference_laws 128) far_apart x_ult_y
      (unfold clam.Lower.UnsignedIcmp.is_unsigned_less in refl) (omega arith, omega arith)
      (lower_general i8 x_ult_y) refl

process_unsigned_icmp-agree_example :
    (run i8 far_apart (lower_constant i8 x_ult_10 true)
      ≡ some (of_bool (eval_cmp i8 far_apart x_ult_10)))
    ↔ (false ≡ true)
unfolding value_of process_unsigned_icmp
process_unsigned_icmp-agree_example =
    process_unsigned_icmp-agree i8 (reference_laws 128) far_apart x_ult_10
      (unfold clam.Lower.UnsignedIcmp.is_unsigned_less in refl) (omega arith, omega arith)
      (lower_constant i8 x_ult_10 true) refl

normalize_cmp_inst-keeps_example :
    (eval_cmp i8 far_apart (normalize_cmp_inst i8 (record x_ult_y { pred = icmp_sgt }))
      ≡ eval_cmp i8 far_apart (record x_ult_y { pred = icmp_sgt }))
    × IsNormal (normalize_cmp_inst i8 (record x_ult_y { pred = icmp_sgt })).pred
normalize_cmp_inst-keeps_example =
    normalize_cmp_inst-keeps i8 (reference_laws 128) far_apart (record x_ult_y { pred = icmp_sgt })

process_select_inst-run_example :
    run i8 far_apart (
      process_select_inst
        (record { condition = constant 1; true_value = variable 0; false_value = constant 9 }))
    ≡ some 200
unfolding value_of
process_select_inst-run_example =
    process_select_inst-run i8 far_apart
      (record { condition = constant 1; true_value = variable 0; false_value = constant 9 })
