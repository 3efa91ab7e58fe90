-- ===== src/Lit/Values.antt =====
-- The values of LLVM as the builder asks about them, the parameters of the builder, and the
-- variables of Crab.
use clam.Prelude.{ℕ, ◌≡◌, Bool, true, false, ◌&&◌, ◌||◌, not, Option, ◌==◌}

-- The answers of llvm::Type: an integer of some width, a pointer, or any other type.
pub data Ty : Type 0 where
  integer : ℕ → Ty
  pointer : Ty
  other_type : Ty

-- The answers of dyn_cast and isa: a ConstantInt with its bits, null, a ConstantExpr, undef, or
-- any other value.
pub data ValueKind : Type 0 where
  constant_int : ℕ → ValueKind
  constant_null constant_expr undef plain : ValueKind

-- What a value is; values are known by their addresses.
pub record Value : Type 0 where
  pub type : Ty
  pub kind : ValueKind

pub data Precision : Type 0 where
  num singleton_mem mem : Precision

-- The fields of CrabBuilderParams that the literals and the translation of instructions read.
pub record Params : Type 0 where
  pub precision_level : Precision
  pub include_useless_havoc : Bool
  pub enable_bignums : Bool
  pub lower_unsigned_icmp : Bool

unfoldable pub is_mem : Precision → Bool
is_mem mem = true
is_mem _ = false

unfoldable pub is_singleton_mem : Precision → Bool
is_singleton_mem singleton_mem = true
is_singleton_mem _ = false

unfoldable pub track_memory : Params → Bool
unfolding is_mem
track_memory p = is_mem p.precision_level

unfoldable pub track_only_singleton_memory : Params → Bool
unfolding is_singleton_mem
track_only_singleton_memory p = is_singleton_mem p.precision_level

unfoldable pub is_bool : Ty → Bool
is_bool (integer w) = w == 1
is_bool pointer = false
is_bool other_type = false

unfoldable pub is_integer_type : Ty → Bool
is_integer_type (integer w) = true
is_integer_type _ = false

unfoldable pub is_integer : Ty → Bool
unfolding is_bool is_integer_type
is_integer t = is_integer_type t && not (is_bool t)

unfoldable pub is_pointer_type : Ty → Bool
is_pointer_type pointer = true
is_pointer_type _ = false

unfoldable pub is_reference : Ty → Params → Bool
unfolding track_memory is_pointer_type
is_reference t p = is_pointer_type t && track_memory p

unfoldable pub is_tracked_type : Ty → Params → Bool
unfolding is_reference is_integer_type
is_tracked_type t p = is_reference t p || is_integer_type t

-- getIntegerBitWidth
unfoldable pub integer_bit_width : Ty → ℕ
integer_bit_width (integer w) = w
integer_bit_width _ = 0

-- The kinds of crab::variable_type that the code makes.
pub data VarKind : Type 0 where
  bool_type int_type ref_type arr_bool_type arr_int_type : VarKind
  reg_bool_type reg_int_type reg_ref_type reg_unknown_type : VarKind

-- A type of Crab; `none` where the code gives no bit width.
pub record VarType : Type 0 where
  pub kind : VarKind
  pub bitwidth : Option ℕ

-- A variable of Crab: its name and its type.
pub record Var : Type 0 where
  pub name : ℕ
  pub type : VarType

-- Crab's variable factory: `get` makes a name that is new, and `index` gives the name of a value.
-- `known` says which names it has given out.
pub record VarFactory : Type 1 where
  pub State : Type 0
  pub get : State → ℕ × State
  pub index : ℕ → State → ℕ × State
  pub known : State → ℕ → Bool

pub record VarFactoryLaws (f : VarFactory) : Type 0 where
  pub get_new : (s : f.State) → f.known s (f.get s).0 ≡ false
  pub get_known : (s : f.State) (n : ℕ) → f.known (f.get s).1 n ≡ (n == (f.get s).0 || f.known s n)
  pub index_known :
      (v : ℕ) (s : f.State) (n : ℕ)
      → f.known (f.index v s).1 n ≡ (n == (f.index v s).0 || f.known s n)
