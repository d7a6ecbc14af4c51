-- ===== src/Backends/Sqlite.antt =====
-- catalog/mod.rs: `SqlCatalog<Sqlite>`, its implementation of the trait. The
-- model of each operation in the modules under Catalog, and in Events, is its model here.
use planar.Base.{none}
use planar.Base.Except.{ok, ◌>>=◌}
use planar.Limits.{sqlite}
use planar.Db.{Db}
use planar.Catalog.{Libraries, ProtocolVersions, new_with_protocol_versions}
use planar.Catalog.Create.{create_table}
use planar.Catalog.Commit.{commit}
use planar.Catalog.Read.{load_table, list_tables, drop_table, current_transaction_id, read_table}
use planar.Events.{list_transaction_events, diff_table}
use planar.Backends.{Catalog}

module _ {Value Map : Type 0} (lib : Libraries Value Map) (protocol : ProtocolVersions) where
  -- `impl Catalog for SqlCatalog<sqlx::Sqlite>`
  unfoldable pub sqlite_catalog : Catalog Db Value Map
  sqlite_catalog =
      let self = new_with_protocol_versions sqlite protocol in
      record {
        create_table = λ env ident location schema properties db.
            create_table lib self env ident location schema properties db >>= λ db'.
            ok (db', ident);
        load_table = λ ident db. ok (load_table ident db);
        list_tables = list_tables;
        drop_table = drop_table;
        current_transaction_id = current_transaction_id;
        list_transaction_events = list_transaction_events lib self;
        read_table = read_table lib self;
        diff_table = diff_table lib self;
        commit = λ env ident base mutation db.
            commit lib self env ident base mutation db >>= λ (db', id).
            ok (db', record { transaction_id = id; table_view = none });
      }
