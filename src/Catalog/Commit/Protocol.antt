-- ===== src/Catalog/Commit/Protocol.antt =====
-- Which clients `commit` lets write.
use planar.Base.{◌≡◌, sym, ◌∙◌, some, some-injective, arith}
use mathlib.Core.Path.{subst}
use planar.Base.Int.{◌≤ℤ◌, ℤ}
use planar.Base.Except.{ok}
use planar.Spec.{TxnId, TableIdent, Mutation, validate_mutation}
use planar.Db.{Db, TableRow, find_table}
use planar.Catalog.{Libraries, SqlCatalog, Env, ensure_writer_protocol_compatible}
use planar.Catalog.Commit.{commit}
use planar.Catalog.Commit.Effect.{commit_lem}

ensure_writer_lem :
    (catalog : SqlCatalog) (ident : TableIdent) (required : ℤ)
    → ensure_writer_protocol_compatible catalog ident required ≡ ok tt
    → required ≤ℤ catalog.client_protocol.writer
unfolding ensure_writer_protocol_compatible
ensure_writer_lem catalog ident required h = ground arith

module _ {Value Map : Type 0} (lib : Libraries Value Map) (catalog : SqlCatalog) (env : Env) where
  -- A successful commit comes from a client whose writer version is at least the one that the table
  -- requires, and its mutation is valid.
  pub commit-min_writer_version :
      (ident : TableIdent) (base : TxnId) (mutation : Mutation Value Map) (db db' : Db) (id : TxnId)
      (row : TableRow)
      → find_table ident db ≡ some row
      → commit lib catalog env ident base mutation db ≡ ok (db', id)
      → (row.min_writer_version ≤ℤ catalog.client_protocol.writer)
        × (validate_mutation mutation ≡ ok tt)
  commit-min_writer_version ident base mutation db db' id row found ran =
      let c = (commit_lem lib catalog env ident base mutation db ran).0 in
      let same : c.row ≡ row = some-injective (sym c.found ∙ found) in
      (
        subst (λ (r : TableRow). r.min_writer_version ≤ℤ catalog.client_protocol.writer) same
            (ensure_writer_lem catalog ident c.row.min_writer_version c.allowed),
        c.valid,
      )
