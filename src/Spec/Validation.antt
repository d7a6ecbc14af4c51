-- ===== src/Spec/Validation.antt =====
-- What the validation of catalog/models.rs accepts.
use planar.Base.{
  ◌%◌, ◌^◌, ◌≤◌, ◌<◌, String, ◌≡◌, refl, ◌↔◌, false, not, List, [], ◌∷◌, map, arith, All, length,
  leb, ltb,
}
use planar.Base.Int.{as_u32}
use planar.Base.Eq.{nat_eq, string_eq, contains, Distinct, unseen-cons, unseen_join, unseen-nil}
use planar.Base.Except.{ok, guard-eq-ok}
use planar.Limits.{max_columns_per_schema}
use planar.Spec.{ColumnSpec, SchemaSpec, is_blank, validate_columns, validate_schema}

abbrev pub names : List ColumnSpec → List String
names = map (λ c. c.name)

columns_forth :
    (seen : List String) (columns : List ColumnSpec)
    → validate_columns seen columns ≡ ok tt
    → All (λ c. is_blank c.name ≡ false) columns
      × All (λ x. contains seen x ≡ false) (names columns)
      × Distinct (names columns)
unfolding validate_columns
columns_forth seen [] h = (tt, tt, tt)
columns_forth seen (c ∷ rest) h =
    let (clean, h') = guard-eq-ok (not (is_blank c.name)) _ _ h in
    let (new, h'') = guard-eq-ok (not (contains seen c.name)) _ _ h' in
    let (all_clean, unseen, distinct) = columns_forth (c.name ∷ seen) rest h'' in
    let (fresh, others) = unseen-cons c.name seen (names rest) unseen in
    ((ground arith, all_clean), (ground arith, others), (fresh, distinct))

columns_back :
    (seen : List String) (columns : List ColumnSpec)
    → All (λ c. is_blank c.name ≡ false) columns
    → All (λ x. contains seen x ≡ false) (names columns)
    → Distinct (names columns)
    → validate_columns seen columns ≡ ok tt
unfolding validate_columns
columns_back seen [] b u d = refl
columns_back seen (c ∷ rest) b u d =
    rw (b.0, u.0)
      (columns_back (c.name ∷ seen) rest b.1 (unseen_join c.name seen (names rest) d.0 u.1) d.1)

-- A schema is accepted exactly when it has at least one column, its number of columns modulo 2^32
-- is within the limit, no name is blank, and no two names are equal.
pub validate_schema_iff :
    (spec : SchemaSpec)
    → (validate_schema spec ≡ ok tt) ↔ (
        (0 < length spec.columns)
        × (length spec.columns % 2 ^ 32 ≤ max_columns_per_schema)
        × All (λ c. is_blank c.name ≡ false) spec.columns
        × Distinct (names spec.columns))
unfolding validate_schema
validate_schema_iff spec = (
  λ h.
      let (some_column, h') = guard-eq-ok (ltb 0 (length spec.columns)) _ _ h in
      let (few, h'') =
        guard-eq-ok (leb (as_u32 (length spec.columns)) max_columns_per_schema) _ _ h' in
      let (clean, _, distinct) = columns_forth [] spec.columns h'' in
      (ground arith, ground arith, clean, distinct),
  λ h. ground (arith, columns_back [] spec.columns h.2 (unseen-nil (names spec.columns)) h.3),
)
