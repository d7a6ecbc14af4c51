-- ===== src/DataType.antt =====
-- catalog/data_type.rs: Arrow types as the code tells them apart, and the schema evolution rules.
-- `other` stands for every Arrow type that the rules do not name, numbered.
pub mod Order
pub mod Widening
pub mod Codec
use planar.Base.{
  ℕ, String, Bool, true, false, not, ◌&&◌, Option, none, some, ltb, ◌==◌, if◌then◌else◌,
}
use planar.Base.Int.{ℤ, eq_ℤ}
use text.Mathlib.Text.{◌==◌ as str_eq}

pub data TimeUnit : Type 0 where
  second millisecond microsecond nanosecond : TimeUnit

pub data DataType : Type 0 where
  int8 int16 int32 int64 : DataType
  uint8 uint16 uint32 uint64 : DataType
  float32 float64 : DataType
  date32 date64 : DataType
  timestamp : TimeUnit → Option String → DataType
  decimal128 : ℕ → ℤ → DataType
  decimal256 : ℕ → ℤ → DataType
  other : ℕ → DataType

unit_eq : TimeUnit → TimeUnit → Bool
unit_eq second second = true
unit_eq millisecond millisecond = true
unit_eq microsecond microsecond = true
unit_eq nanosecond nanosecond = true
unit_eq _ _ = false

timezone_eq : Option String → Option String → Bool
timezone_eq none none = true
timezone_eq (some a) (some b) = str_eq a b
timezone_eq _ _ = false

-- `==` on Arrow types compares the constructors and their fields.
data_type_eq : DataType → DataType → Bool
unfolding unit_eq timezone_eq
data_type_eq int8 int8 = true
data_type_eq int16 int16 = true
data_type_eq int32 int32 = true
data_type_eq int64 int64 = true
data_type_eq uint8 uint8 = true
data_type_eq uint16 uint16 = true
data_type_eq uint32 uint32 = true
data_type_eq uint64 uint64 = true
data_type_eq float32 float32 = true
data_type_eq float64 float64 = true
data_type_eq date32 date32 = true
data_type_eq date64 date64 = true
data_type_eq (timestamp u tz) (timestamp v tz') = unit_eq u v && timezone_eq tz tz'
data_type_eq (decimal128 p s) (decimal128 q t) = p == q && eq_ℤ s t
data_type_eq (decimal256 p s) (decimal256 q t) = p == q && eq_ℤ s t
data_type_eq (other n) (other m) = n == m
data_type_eq _ _ = false

-- The `matches!` on the two units of a timestamp.
finer : TimeUnit → TimeUnit → Bool
finer second millisecond = true
finer second microsecond = true
finer second nanosecond = true
finer millisecond microsecond = true
finer millisecond nanosecond = true
finer microsecond nanosecond = true
finer _ _ = false

-- The `match` on two different types.
evolves : DataType → DataType → Bool
unfolding timezone_eq finer
evolves int8 int16 = true
evolves int8 int32 = true
evolves int8 int64 = true
evolves int16 int32 = true
evolves int16 int64 = true
evolves int32 int64 = true
evolves uint8 uint16 = true
evolves uint8 uint32 = true
evolves uint8 uint64 = true
evolves uint16 uint32 = true
evolves uint16 uint64 = true
evolves uint32 uint64 = true
evolves float32 float64 = true
evolves date32 date64 = true
evolves (timestamp from_unit from_tz) (timestamp to_unit to_tz) =
    if not (timezone_eq from_tz to_tz) then false else finer from_unit to_unit
evolves (decimal128 from_precision from_scale) (decimal128 to_precision to_scale) =
    eq_ℤ from_scale to_scale && ltb from_precision to_precision
evolves (decimal256 from_precision from_scale) (decimal256 to_precision to_scale) =
    eq_ℤ from_scale to_scale && ltb from_precision to_precision
evolves _ _ = false

unfoldable pub can_evolve_to : DataType → DataType → Bool
unfolding data_type_eq evolves
can_evolve_to from_type to_type =
    if data_type_eq from_type to_type then true else evolves from_type to_type
