-- ===== src/Catalog.antt =====
-- catalog/mod.rs: what the operations share. Each operation is a module below: a function from the
-- database to the new database and a result, or to an error, which rolls the transaction back.
pub mod Columns
pub mod Create
pub mod Append
pub mod Delete
pub mod Evolve
pub mod Commit
pub mod Chain
pub mod Rows
pub mod Read
use planar.Base.{ℕ, String, not, Option}
use planar.Base.Int.{ℤ, pos, ltb_ℤ}
use planar.Base.Except.{guard}
use planar.Error.{Result, protocol_version_incompatible}
use planar.Json.{Json}
use planar.DataType.Codec.{ArrowIpc}
use planar.Limits.{DbKind}
use planar.Storage.{TextOps}
use planar.Db.{Db}
use planar.Spec.{Uuid, TxnId, TableIdent}
use Prim.Native.String.{◌++◌}

-- The libraries that the catalog calls.
pub record Libraries (Value Map : Type 0) : Type 0 where
  pub json : Json Value Map
  pub ipc : ArrowIpc
  pub text : TextOps

-- `ProtocolVersions`
pub record ProtocolVersions : Type 0 where
  pub reader : ℤ
  pub writer : ℤ

unfoldable pub default_versions : ProtocolVersions
default_versions = record { reader = pos 1; writer = pos 1 }

-- `SqlCatalog`: the backend and the versions that it is bound to.
pub record SqlCatalog : Type 0 where
  pub db_kind : DbKind
  pub client_protocol : ProtocolVersions

-- `SqlCatalog::new_with_protocol_versions`, with the database of the pool
abbrev pub new_with_protocol_versions : DbKind → ProtocolVersions → SqlCatalog
new_with_protocol_versions kind protocol = record { db_kind = kind; client_protocol = protocol }

-- `SqlCatalog::new`
unfoldable pub new : DbKind → SqlCatalog
unfolding default_versions
new kind = new_with_protocol_versions kind default_versions

-- What one call draws from outside: `next_transaction_id`, the clock, and the results of
-- `Uuid::new_v4`, in the order of the draws.
pub record Env : Type 0 where
  pub transaction_id : TxnId
  pub now : ℕ
  pub new_v4 : ℕ → Uuid

-- `TableIdent` as text.
unfoldable pub to_string : TableIdent → String
to_string ident = ident.namespace ++ "." ++ ident.name

unfoldable pub ensure_reader_protocol_compatible : SqlCatalog → TableIdent → ℤ → Result (Unit {0})
unfolding to_string
ensure_reader_protocol_compatible catalog ident required_min_version =
    let client_version = catalog.client_protocol.reader in
    guard (not (ltb_ℤ client_version required_min_version))
      (protocol_version_incompatible "read" (to_string ident) client_version required_min_version)

unfoldable pub ensure_writer_protocol_compatible : SqlCatalog → TableIdent → ℤ → Result (Unit {0})
unfolding to_string
ensure_writer_protocol_compatible catalog ident required_min_version =
    let client_version = catalog.client_protocol.writer in
    guard (not (ltb_ℤ client_version required_min_version))
      (protocol_version_incompatible "write" (to_string ident) client_version required_min_version)

-- The variables of `commit` that its loop changes.
pub record Work (Map : Type 0) : Type 0 where
  pub db : Db
  pub properties_value : Map
  pub new_schema_uuid : Option Uuid
  -- The UUIDs drawn so far.
  pub drawn : ℕ
