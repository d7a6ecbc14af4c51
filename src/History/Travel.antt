-- ===== src/History/Travel.antt =====
-- What a run of calls leaves of the past.
use planar.Base.{◌≡◌, ap, sym, ◌∙◌, List, ◌++◌, map, false, any, not, filter, arith}
use planar.Base.Except.{ok, guard-eq-ok, >>=-eq-ok, ok-injective}
use planar.Base.Eq.{nat_eq}
use planar.Spec.{Uuid, TxnId, TableIdent}
use planar.Db.{Db, TableRow, TransactionRow, has_ident, referenced, delete_table}
use planar.Catalog.{Libraries}
use planar.Catalog.Rows.{files_at}
use planar.Catalog.Read.{drop_table}
use planar.Catalog.Commit.Snapshot.{content}

-- A successful drop deletes the rows of the identifier, to which no row refers.
pub record Dropped (ident : TableIdent) (db db' : Db) : Type 0 where
  pub unreferenced : any (referenced db) (filter (has_ident ident) db.tables) ≡ false
  pub db_is : db' ≡ record db { tables = filter (λ t. not (has_ident ident t)) db.tables }

pub drop_table_lem :
    (ident : TableIdent) (db : Db) {db' : Db} → drop_table ident db ≡ ok db' → Dropped ident db db'
unfolding drop_table delete_table
drop_table_lem ident db h =
    let deleted = filter (has_ident ident) db.tables in
    let (result, ran, h₁) = >>=-eq-ok (delete_table ident db) _ h in
    let (_, h₂) = guard-eq-ok _ _ _ h₁ in
    let (free, e) = guard-eq-ok (not (any (referenced db) deleted)) _ _ ran in
    record {
      unreferenced = ground arith;
      db_is = sym (ok-injective h₂) ∙ sym (ap (λ (r : Db × List TableRow). r.0) (ok-injective e));
    }

-- The history has grown at its end.
pub record Extends (db db' : Db) : Type 0 where
  pub more : List TransactionRow
  pub transactions : db'.transactions ≡ db.transactions ++ more

module _ {Value Map : Type 0} (lib : Libraries Value Map) where
  -- The past as it was at `start`: the history has only grown, and the files at `t` are the same.
  record Past (tbl : Uuid) (t : TxnId) (start db : Db) : Type 0 where
    extends : Extends start db
    files : map content (files_at tbl t db) ≡ map content (files_at tbl t start)
