-- ===== src/Error.antt =====
-- catalog/error.rs: the errors of the catalog.
use planar.Base.{String}
use planar.Base.Int.{ℤ}
use planar.Base.Except.{Except}

-- What the database refuses (`sqlx::Error`), for the statements that the catalog sends.
pub data DbError : Type 0 where
  unique_violation foreign_key_violation row_not_found column_decode : DbError

-- A message is the source's text, with `{}` where it formats a value.
pub data CatalogError : Type 0 where
  not_found conflict limit_exceeded invalid_argument : String → CatalogError
  -- The operation, the table, the version of the client, and the version that the table requires.
  protocol_version_incompatible : String → String → ℤ → ℤ → CatalogError
  not_yet_implemented : String → CatalogError
  storage : DbError → CatalogError
  arrow : String → CatalogError

abbrev pub Result {ℓ} : Type ℓ → Type ℓ
Result A = Except CatalogError A
