-- ===== src/Linux/Values.antt =====
-- linux/hardware_simulator_plugin.cc: the arguments of a method call, and its responses.
--
-- Arguments come from the Flutter engine. A value is what the code can tell apart of an `FlValue`;
-- doubles are an abstract type. The texts of error messages are left out, their codes are kept.
use hardware_simulator.Prelude.{
  ℕ, ◌-◌, ◌%◌, ◌^◌, Bool, false, Option, none, some, List, [], ◌∷◌, ltb, if◌then◌else◌,
}
use hardware_simulator.Prelude.Int.{ℤ, pos, negsuc}
use Prim.Native.String.{String}
use text.Mathlib.Text.{◌==◌ as str_eq}

-- Doubles, as far as the code computes with them. `round` is `static_cast<int>(std::round(x))`, or
-- the same by `std::lround`.
pub record Doubles : Type 1 where
  pub D : Type 0
  pub of_int : ℤ → D
  pub is_finite : D → Bool
  pub zero_d : D
  pub one_d : D
  pub min_d : D → D → D
  pub max_d : D → D → D
  pub clamp_d : D → D → D → D
  pub add_d : D → D → D
  pub mul_d : D → D → D
  pub is_zero : D → Bool
  pub round : D → ℤ

pub data Value (D : Type 0) : Type 0 where
  null_value : Value D
  bool_value : Bool → Value D
  int_value : ℤ → Value D
  float_value : D → Value D
  string_value : List ℕ → Value D
  other_value : Value D

-- The argument pointer: null, a value that is no map, or a map by its entries.
pub data Args (D : Type 0) : Type 0 where
  no_args : Args D
  not_a_map : Args D
  arg_map : List (String × Value D) → Args D

abbrev pub find_entry : {D : Type 0} → String → List (String × Value D) → Option (Value D)
find_entry k [] = none
find_entry k ((j, v) ∷ m) = let rest = find_entry k m in if str_eq j k then some v else rest

-- `fl_value_lookup_string`; on a value that is no map it answers null.
abbrev pub lookup_string : {D : Type 0} → Args D → String → Option (Value D)
lookup_string no_args k = none
lookup_string not_a_map k = none
lookup_string (arg_map m) k = find_entry k m

-- `static_cast<int>` of a 64-bit value.
abbrev pub to_int32 : ℤ → ℤ
to_int32 (pos n) = let r = n % 2 ^ 32 in if ltb r (2 ^ 31) then pos r else negsuc (2 ^ 32 - r - 1)
to_int32 (negsuc n) =
    let r = n % 2 ^ 32 in if ltb r (2 ^ 31) then negsuc r else pos (2 ^ 32 - r - 1)

abbrev pub int_of_value : {D : Type 0} → Option (Value D) → Bool → ℤ × Bool
int_of_value (some (int_value z)) ok = (to_int32 z, ok)
int_of_value _ ok = (pos 0, false)

-- The readers return the value and the new `*ok`.
unfoldable pub get_int_arg : {D : Type 0} → Args D → String → Bool → ℤ × Bool
get_int_arg args key ok = int_of_value (lookup_string args key) ok

abbrev pub bool_of_value : {D : Type 0} → Option (Value D) → Bool → Bool × Bool
bool_of_value (some (bool_value b)) ok = (b, ok)
bool_of_value _ ok = (false, false)

unfoldable pub get_bool_arg : {D : Type 0} → Args D → String → Bool → Bool × Bool
get_bool_arg args key ok = bool_of_value (lookup_string args key) ok

module _ (d : Doubles) where
  open d use {D, of_int, zero_d}

  abbrev pub double_of_value : Option (Value D) → Bool → D × Bool
  double_of_value (some (float_value x)) ok = (x, ok)
  double_of_value (some (int_value z)) ok = (of_int z, ok)
  double_of_value _ ok = (zero_d, false)

  unfoldable pub get_double_arg : Args D → String → Bool → D × Bool
  get_double_arg args key ok = double_of_value (lookup_string args key) ok

pub data ErrorCode : Type 0 where
  bad_args unsupported display_unavailable uinput_unavailable : ErrorCode
  pointer_capture_failed text_input_unavailable : ErrorCode

pub data Response : Type 0 where
  success_null : Response
  success_bool : Bool → Response
  success_int : ℤ → Response
  error : ErrorCode → Response
  not_implemented : Response
