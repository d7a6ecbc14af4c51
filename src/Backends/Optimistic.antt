-- ===== src/Backends/Optimistic.antt =====
-- The SQLite implementation keeps what the trait promises.
use planar.Base.{◌≡◌, ap, ◌∙◌}
use planar.Base.Except.{ok, >>=-eq-ok, ok-injective}
use planar.Spec.{TxnId}
use planar.Db.{Db}
use planar.Limits.{sqlite}
use planar.Catalog.{Libraries, ProtocolVersions, new_with_protocol_versions}
use planar.Catalog.Commit.{commit}
use planar.Catalog.Commit.Effect.{commit_lem}
use planar.Catalog.Commit.Conflict.{commit-current_transaction_id}
use planar.Backends.{CommitResult, IsOptimistic}
use planar.Backends.Sqlite.{sqlite_catalog}

module _ {Value Map : Type 0} (lib : Libraries Value Map) (protocol : ProtocolVersions) where
  -- A commit succeeds only on the current transaction of its table, and then makes the transaction
  -- that it returns the current one.
  pub sqlite_catalog-IsOptimistic : IsOptimistic (sqlite_catalog lib protocol)
  unfolding sqlite_catalog
  sqlite_catalog-IsOptimistic =
      let catalog = new_with_protocol_versions sqlite protocol in
      record {
        commit-head = λ env ident base mutation db db' result ran.
            let ((db₁, id), ran₁, e) =
              >>=-eq-ok (commit lib catalog env ident base mutation db) _ ran in
            let (c, is_id) = commit_lem lib catalog env ident base mutation db ran₁ in
            let (before, after, history) =
              commit-current_transaction_id lib catalog env ident base mutation db db₁ id c.row
                c.found ran₁ in
            let same = ok-injective e in
            let is_db : db₁ ≡ db' = ap (λ (p : Db × CommitResult Value Map). p.0) same in
            let is_result : id ≡ result.transaction_id =
              ap (λ (p : Db × CommitResult Value Map). p.1.transaction_id) same in
            (before, rw (← is_db) (after ∙ ap (λ (t : TxnId). ok t) is_result));
      }
