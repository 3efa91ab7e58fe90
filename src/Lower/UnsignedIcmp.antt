-- ===== src/Lower/UnsignedIcmp.antt =====
-- lib/Transforms/LowerUnsignedICmp.cc: ULT and ULE by signed comparisons and branches.
use clam.Prelude.{
  ℕ, Bool, true, false, ◌&&◌, ◌||◌, List, [], ◌∷◌, ◌++◌, Option, none, some, if◌then◌else◌, ltb,
}
use clam.Llvm.{
  Predicate, icmp_ugt, icmp_uge, icmp_ult, icmp_ule, icmp_sgt, icmp_sge, Icmp, Operand, constant,
  variable, Cmp, Label, cur, bb1, bb2, bb3, bb4, cont, br, br_cmp, Block, get_true, get_false,
  of_block, Fragment,
}

-- mkNonNegative: V sge 0
unfoldable pub mk_non_negative : Operand → Cmp
mk_non_negative v = record { pred = icmp_sge; lhs = v; rhs = constant 0 }

-- isNonNegIntCst
unfoldable pub is_non_neg_int_cst : ℕ → Operand → Bool
is_non_neg_int_cst half (constant k) = ltb k half
is_non_neg_int_cst half (variable x) = false

module _ {half : ℕ} (m : Icmp half) where
  -- I->swapOperands()
  unfoldable pub swap_operands : Cmp → Cmp
  swap_operands c = record { pred = m.swapped c.pred; lhs = c.rhs; rhs = c.lhs }

  -- normalizeCmpInst, by its predicate
  unfoldable pub normalize_by : Predicate → Cmp → Cmp
  unfolding swap_operands
  normalize_by icmp_ugt c = swap_operands c
  normalize_by icmp_sgt c = swap_operands c
  normalize_by icmp_uge c = swap_operands c
  normalize_by icmp_sge c = swap_operands c
  normalize_by _ c = c

  unfoldable pub normalize_cmp_inst : Cmp → Cmp
  unfolding normalize_by
  normalize_cmp_inst c = normalize_by c.pred c

  -- The signed comparison that stands in for the unsigned one.
  unfoldable pub signed_cmp : Cmp → Cmp
  signed_cmp c = record c { pred = m.signed_of c.pred }

  -- One operand is a constant that is not negative: bb1 is tt and bb2 is ff.
  unfoldable pub constant_block : Cmp → Bool → Label → Option Block
  unfolding mk_non_negative signed_cmp
  constant_block c nonneg2 cur = some (record {
    result = none;
    term = br_cmp (mk_non_negative (if nonneg2 then c.lhs else c.rhs)) bb1 bb2;
  })
  constant_block c nonneg2 bb1 = some (record { result = some (signed_cmp c); term = br cont })
  constant_block c nonneg2 bb2 = some (record { result = none; term = br cont })
  constant_block c nonneg2 _ = none

  unfoldable pub lower_constant : Cmp → Bool → Fragment
  unfolding constant_block
  lower_constant c nonneg2 = record {
    block = constant_block c nonneg2;
    phi =
        record { value = of_block; from = bb1 }
        ∷ record { value = if nonneg2 then get_true else get_false; from = bb2 }
        ∷ [];
  }

  -- Both operands are checked.
  unfoldable pub general_block : Cmp → Label → Option Block
  unfolding mk_non_negative signed_cmp
  general_block c cur =
      some (record { result = none; term = br_cmp (mk_non_negative c.lhs) bb1 bb2 })
  general_block c bb1 =
      some (record { result = none; term = br_cmp (mk_non_negative c.rhs) bb3 cont })
  general_block c bb2 =
      some (record { result = none; term = br_cmp (mk_non_negative c.rhs) cont bb4 })
  general_block c bb3 = some (record { result = some (signed_cmp c); term = br cont })
  general_block c bb4 = some (record { result = some (signed_cmp c); term = br cont })
  general_block c cont = none

  unfoldable pub lower_general : Cmp → Fragment
  unfolding general_block
  lower_general c = record {
    block = general_block c;
    phi =
        record { value = get_false; from = bb1 }
        ∷ record { value = get_true; from = bb2 }
        ∷ record { value = of_block; from = bb3 }
        ∷ record { value = of_block; from = bb4 }
        ∷ [];
  }

  -- processUnsignedICmp; none where it returns with nothing changed but the split of the block.
  unfoldable pub process_unsigned_icmp : Cmp → Option Fragment
  unfolding is_non_neg_int_cst lower_constant lower_general
  process_unsigned_icmp c =
      let nonneg1 = is_non_neg_int_cst half c.lhs in
      let nonneg2 = is_non_neg_int_cst half c.rhs in
      if nonneg2 && nonneg1
      then none
      else if nonneg2 || nonneg1
      then some (lower_constant c nonneg2)
      else some (lower_general c)

-- The instructions of a function: a comparison, with whether both its operands have integer type.
pub data Inst : Type 0 where
  cmp_inst : Bool → Cmp → Inst
  other_inst : Inst

unfoldable pub is_unsigned_less : Predicate → Bool
is_unsigned_less icmp_ult = true
is_unsigned_less icmp_ule = true
is_unsigned_less _ = false

module _ {half : ℕ} (m : Icmp half) where
  -- The first loop of runOnFunction normalizes the comparisons in place, and collects those to
  -- lower.
  unfoldable pub normalized : List Inst → List Inst
  unfolding normalize_cmp_inst
  normalized [] = []
  normalized (other_inst ∷ is) = other_inst ∷ normalized is
  normalized (cmp_inst true c ∷ is) = cmp_inst true (normalize_cmp_inst m c) ∷ normalized is
  normalized (cmp_inst false c ∷ is) = cmp_inst false c ∷ normalized is

  unfoldable pub worklist : List Inst → List Cmp
  unfolding normalize_cmp_inst is_unsigned_less
  worklist [] = []
  worklist (other_inst ∷ is) = worklist is
  worklist (cmp_inst true c ∷ is) =
      let c' = normalize_cmp_inst m c in
      let rest = worklist is in if is_unsigned_less c'.pred then c' ∷ rest else rest
  worklist (cmp_inst false c ∷ is) = worklist is

  -- The second loop takes the worklist from its back.
  unfoldable pub process_all : List Cmp → List (Option Fragment)
  unfolding process_unsigned_icmp
  process_all [] = []
  process_all (c ∷ cs) = process_all cs ++ (process_unsigned_icmp m c ∷ [])

  unfoldable pub is_change : List Cmp → Bool
  is_change [] = false
  is_change (c ∷ cs) = true

  -- runOnFunction: the instructions, the fragments in the order they are made, and the result.
  unfoldable pub run_on_function : List Inst → List Inst × List (Option Fragment) × Bool
  unfolding normalized worklist process_all is_change
  run_on_function is = (normalized is, process_all (worklist is), is_change (worklist is))
