-- ===== src/DataType/Order.antt =====
-- The evolution rules as an order: types fall into families, and inside a family a type evolves
-- exactly to the types of a higher rank.
use planar.Base.{ℕ, ◌≤◌, String, ◌≡◌, ◌↔◌, true, Option, some, arith}
use planar.Base.Int.{ℤ, eq_ℤ→eq, eq_ℤ_refl}
use text.Mathlib.TextEquality.{eq_iff}
use planar.DataType.{
  TimeUnit, second, millisecond, microsecond, nanosecond, DataType, int8, int16, int32, int64,
  uint8, uint16, uint32, uint64, float32, float64, date32, date64, timestamp, decimal128,
  decimal256, other, can_evolve_to,
}

-- What never changes in an evolution.
pub data Family : Type 0 where
  signed unsigned floating date : Family
  instant : Option String → Family
  fixed128 fixed256 : ℤ → Family
  fixed_type : ℕ → Family

abbrev pub family : DataType → Family
family int8 = signed
family int16 = signed
family int32 = signed
family int64 = signed
family uint8 = unsigned
family uint16 = unsigned
family uint32 = unsigned
family uint64 = unsigned
family float32 = floating
family float64 = floating
family date32 = date
family date64 = date
family (timestamp u tz) = instant tz
family (decimal128 p s) = fixed128 s
family (decimal256 p s) = fixed256 s
family (other n) = fixed_type n

abbrev unit_rank : TimeUnit → ℕ
unit_rank second = 0
unit_rank millisecond = 3
unit_rank microsecond = 6
unit_rank nanosecond = 9

-- Width in bits, decimal digits of a second, or digits of precision.
abbrev pub rank : DataType → ℕ
rank int8 = 8
rank int16 = 16
rank int32 = 32
rank int64 = 64
rank uint8 = 8
rank uint16 = 16
rank uint32 = 32
rank uint64 = 64
rank float32 = 32
rank float64 = 64
rank date32 = 32
rank date64 = 64
rank (timestamp u tz) = unit_rank u
rank (decimal128 p s) = p
rank (decimal256 p s) = p
rank (other n) = 0

-- The type is fixed by its family and its rank.
family-rank : (a b : DataType) → family a ≡ family b → rank a ≡ rank b → a ≡ b
family-rank int8 b f r = ground arith
family-rank a b f r = ground arith

forth : (a b : DataType) → can_evolve_to a b ≡ true → (family a ≡ family b) × (rank a ≤ rank b)
unfolding can_evolve_to
forth (timestamp second (some x)) (timestamp v (some y)) h = ground (arith, eq_iff x y)
forth (timestamp u (some x)) (timestamp v (some y)) h = ground (arith, eq_iff x y)
forth (decimal128 p s) (decimal128 q t) h = ground (arith, eq_ℤ→eq s t)
forth (decimal256 p s) (decimal256 q t) h = ground (arith, eq_ℤ→eq s t)
forth a b h = ground arith

back : (a b : DataType) → family a ≡ family b → rank a ≤ rank b → can_evolve_to a b ≡ true
unfolding can_evolve_to
back (timestamp u (some x)) (timestamp v (some y)) f r = ground (arith, eq_iff x y)
back (decimal128 p s) (decimal128 q t) f r = ground (arith, eq_ℤ_refl s)
back (decimal256 p s) (decimal256 q t) f r = ground (arith, eq_ℤ_refl s)
back a b f r = ground arith

-- A type can evolve to another exactly when both are of one family and the rank does not fall.
pub can_evolve_to_iff :
    (a b : DataType) → (can_evolve_to a b ≡ true) ↔ ((family a ≡ family b) × (rank a ≤ rank b))
can_evolve_to_iff a b = (forth a b, λ h. back a b h.0 h.1)

-- Two evolutions in a row are an allowed evolution.
pub can_evolve_to_trans :
    (a b c : DataType)
    → can_evolve_to a b ≡ true
    → can_evolve_to b c ≡ true
    → can_evolve_to a c ≡ true
can_evolve_to_trans a b c h k =
    back a c (cc ((forth a b h).0, (forth b c k).0)) (omega (arith, forth a b h, forth b c k))

-- Types that evolve to each other are the same: no evolution is undone by another one.
pub can_evolve_to_antisym :
    (a b : DataType) → can_evolve_to a b ≡ true → can_evolve_to b a ≡ true → a ≡ b
can_evolve_to_antisym a b h k =
    family-rank a b (forth a b h).0 (omega (arith, forth a b h, forth b a k))
