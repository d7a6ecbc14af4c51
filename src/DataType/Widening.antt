-- ===== src/DataType/Widening.antt =====
-- Evolution keeps values: what a column may hold, it may hold after the evolution.
use planar.Base.{ℕ, ◌+◌, ◌*◌, ◌%◌, ◌^◌, ◌<◌, ◌≡◌, String, Option}
use planar.Base.Int.{ℤ, pos, negsuc, pos_part, neg_part, ◌≤ℤ◌}
use planar.DataType.Order.{Family, instant}
use planar.DataType.{
  TimeUnit, second, millisecond, microsecond, nanosecond, DataType, int8, int16, int32, int64,
  uint8, uint16, uint32, uint64, float32, float64, date32, date64, timestamp, decimal128,
  decimal256, other,
}

-- What a field of a column stands for: an integer; a finite binary number, as an integer times a
-- power of two; a day, counted from the epoch; a moment, in nanoseconds from the epoch, with its
-- timezone; a decimal number, as an integer and its scale; or a value of a type that the rules do
-- not name.
pub data Meaning : Type 0 where
  integer day : ℤ → Meaning
  binary : ℤ → ℤ → Meaning
  moment : ℤ → Option String → Meaning
  decimal : ℤ → ℤ → Meaning
  unnamed : ℕ → Meaning

abbrev magnitude : ℤ → ℕ
magnitude v = pos_part v + neg_part v

-- Two's complement with `k` bits below the sign.
abbrev InSigned : ℕ → ℤ → Type 0
InSigned k (pos n) = n < 2 ^ k
InSigned k (negsuc n) = n < 2 ^ k

abbrev InUnsigned : ℕ → ℤ → Type 0
InUnsigned k (pos n) = n < 2 ^ k
InUnsigned k (negsuc n) = ⊥

-- A day in milliseconds.
abbrev InMilliseconds : ℤ → Type 0
InMilliseconds d = magnitude d * 86_400_000 < 2 ^ 63

abbrev nanoseconds : TimeUnit → ℕ
nanoseconds second = 1_000_000_000
nanoseconds millisecond = 1_000_000
nanoseconds microsecond = 1_000
nanoseconds nanosecond = 1

-- What a column of a type can hold. A float has a significand of 24 or 53 bits and a bounded
-- exponent; an unscaled decimal has at most `p` digits; a timestamp is a whole number of its units,
-- and no range is put on it.
abbrev pub Holds : DataType → Meaning → Type 0
Holds int8 (integer v) = InSigned 7 v
Holds int16 (integer v) = InSigned 15 v
Holds int32 (integer v) = InSigned 31 v
Holds int64 (integer v) = InSigned 63 v
Holds uint8 (integer v) = InUnsigned 8 v
Holds uint16 (integer v) = InUnsigned 16 v
Holds uint32 (integer v) = InUnsigned 32 v
Holds uint64 (integer v) = InUnsigned 64 v
Holds float32 (binary m e) = (magnitude m < 2 ^ 24) × (negsuc 148 ≤ℤ e) × (e ≤ℤ pos 104)
Holds float64 (binary m e) = (magnitude m < 2 ^ 53) × (negsuc 1073 ≤ℤ e) × (e ≤ℤ pos 971)
Holds date32 (day d) = InSigned 31 d
Holds date64 (day d) = InMilliseconds d
Holds (timestamp u tz) (moment t place) = (tz ≡ place) × (magnitude t % nanoseconds u ≡ 0)
Holds (decimal128 p s) (decimal v scale) = (s ≡ scale) × (magnitude v < 10 ^ p)
Holds (decimal256 p s) (decimal v scale) = (s ≡ scale) × (magnitude v < 10 ^ p)
Holds (other n) (unnamed m) = n ≡ m
Holds _ _ = ⊥

timezone_of : Option String → Family → Option String
timezone_of default (instant tz) = tz
timezone_of default _ = default
