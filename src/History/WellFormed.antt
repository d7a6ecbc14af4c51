-- ===== src/History/WellFormed.antt =====
-- The invariant of the database: the history of every table is sound, and every row refers to rows
-- that exist.
use planar.Base.{
  ◌≡◌, ap, ◌<◌, Bool, true, ◌&&◌, some, List, [], ◌∷◌, ◌++◌, map, any, All, All-append, All-mono,
  ◌==◌,
}
use planar.Base.Eq.{nat_eq}
use planar.Base.Search.{any-append-left, any-map}
use planar.Spec.{Uuid, TxnId}
use planar.Db.{Db, TableRow, TransactionRow, SchemaRow, FileRow, table_with}
use planar.Catalog.Commit.Refinement.{Settled}
use planar.History.{no_rows}

abbrev pub transaction_of : Uuid → TxnId → TransactionRow → Bool
transaction_of table_uuid id r = r.table_uuid == table_uuid && r.transaction_id == id

abbrev pub schema_with : Uuid → SchemaRow → Bool
schema_with uuid s = s.schema_uuid == uuid

-- The parent of the transaction is an earlier one of the same table.
abbrev pub Rooted : List TransactionRow → TransactionRow → Type 0
Rooted history t =
    (parent : TxnId)
    → t.parent_transaction_id ≡ some parent
    → (parent < t.transaction_id) × (any (transaction_of t.table_uuid parent) history ≡ true)

-- The table has a head in its history, and no file of it is newer.
pub record Headed (history : List TransactionRow) (files : List FileRow) (t : TableRow)
    : Type 0 where
  pub head : TxnId
  pub is_head : t.current_transaction_id ≡ some head
  pub present : any (transaction_of t.table_uuid head) history ≡ true
  pub settled : Settled t.table_uuid head files

abbrev pub Owned : List TableRow → Uuid → Type 0
Owned tables uuid = any (table_with uuid) tables ≡ true

-- Schemas and files belong to tables, and columns to schemas.
pub record Refers (db : Db) : Type 0 where
  pub schemas : All (λ s. Owned db.tables s.table_uuid) db.schemas
  pub columns : All (λ c. any (schema_with c.schema_uuid) db.schemas ≡ true) db.columns
  pub files : All (λ f. Owned db.tables f.table_uuid) db.files

pub record WellFormed (db : Db) : Type 0 where
  pub tables : All (Headed db.transactions db.files) db.tables
  pub history : All (Rooted db.transactions) db.transactions
  pub refers : Refers db

pub no_rows-WellFormed : WellFormed no_rows
no_rows-WellFormed = record {
  tables = tt;
  history = tt;
  refers = record { schemas = tt; columns = tt; files = tt };
}

pub Rooted-append :
    (history : List TransactionRow) (new : TransactionRow)
    → All (Rooted history) history
    → Rooted history new
    → All (Rooted (history ++ new ∷ [])) (history ++ new ∷ [])
Rooted-append history new old rooted =
    let more : (t : TransactionRow) → Rooted history t → Rooted (history ++ new ∷ []) t =
      λ t h parent is.
        let (earlier, there) = h parent is in
        (earlier, any-append-left (transaction_of t.table_uuid parent) history (new ∷ []) there) in
    All-append (Rooted (history ++ new ∷ [])) history (new ∷ []) (All-mono more history old)
      (more new rooted, tt)

-- A table's owner stays the owner when rows change but for their UUIDs, and rows are added.
pub Owned-map :
    (f : TableRow → TableRow)
    → ((t : TableRow) → (f t).table_uuid ≡ t.table_uuid)
    → (tables : List TableRow) (uuid : Uuid) → Owned tables uuid
    → Owned (map f tables) uuid
Owned-map f same tables uuid h =
    rw
      (any-map (table_with uuid) f (table_with uuid) tables
        (λ t. ap (λ (u : Uuid). u == uuid) (same t)))
      h
