-- ===== src/Catalog/Create/RoundTrip.antt =====
-- `create_table` and `read_table`, there and back.
use planar.Base.{
  String, ◌≡◌, ◌≢◌, ◌<◌, ◌^◌, refl, Option, some, none, List, [], ◌∷◌, map, arith, Bool, true,
  false, ◌&&◌, filter-none, ◌==◌, ==_of_ne, ==_refl, length, All, All-mono,
}
use planar.Base.Int.{ltb_ℤ}
use planar.Base.Eq.{nat_eq}
use planar.Base.Except.{ok}
use planar.Json.{parse_table_properties}
use planar.Json.Bounds.{parse_table_properties-serialize}
use planar.DataType.Codec.{IpcRoundTrips}
use planar.Spec.{TxnId, TableIdent, SchemaSpec}
use planar.Db.{Db, TableRow, find_table, SchemaRow, FileRow, find, is_none, update_table}
use planar.Db.Laws.{find-append}
use planar.Catalog.{Libraries, SqlCatalog, Env, ensure_reader_protocol_compatible}
use planar.Catalog.Rows.{
  Column, load_columns, schema_visible, schema_at, file_visible, files_at, load_files, read_files,
}
use planar.Catalog.Create.Reading.{numbered, load_columns-column_rows}
use planar.Spec.Validation.{validate_schema_iff}
use planar.Json.{Json, serialize_json}
use planar.Catalog.Create.{unwrap_or_default, first_schema, create_table}
use planar.Catalog.Create.Effect.{created, created_row, find_table-created, create_table_lem}
use planar.Catalog.Read.{TableView, read_table, check_history}

-- A row that no other row hides is found.
find-none :
    {A : Type 0} (p : A → Bool) (xs : List A)
    → All (λ x. p x ≡ false) xs
    → is_none (find p xs) ≡ true
unfolding find
find-none p [] h = refl
find-none p (x ∷ xs) h = ground (arith, find-none p xs h.1)

module _ {Value Map : Type 0} (lib : Libraries Value Map) (catalog : SqlCatalog) (env : Env)
    (ident : TableIdent) (location : String) (schema : SchemaSpec) where
  -- The identifiers drawn are new: no row of the tables uses them.
  pub record DrawsNew (db : Db) : Type 0 where
    pub schemas : All (λ s. s.table_uuid ≢ env.new_v4 0) db.schemas
    pub columns : All (λ c. c.schema_uuid ≢ env.new_v4 1) db.columns
    pub files : All (λ f. f.table_uuid ≢ env.new_v4 0) db.files

  -- What a reader of the new table should see.
  abbrev pub first_view : Option Map → Db → TableView Value Map
  first_view properties db = record {
    ident = ident;
    table_uuid = env.new_v4 0;
    transaction_id = env.transaction_id;
    schema = record {
      row = first_schema lib catalog env;
      columns = numbered lib.ipc env.new_v4 (env.new_v4 1) 2 1 schema.columns;
    };
    files = [];
    properties = unwrap_or_default lib catalog env properties;
    stats =
        find (λ s. s.table_uuid == env.new_v4 0 && s.transaction_id == env.transaction_id)
          db.table_stats;
  }

  hidden_schema :
      (s : SchemaRow)
      → s.table_uuid ≢ env.new_v4 0
      → schema_visible (env.new_v4 0) env.transaction_id s ≡ false
  unfolding schema_visible
  hidden_schema s ne = ground (arith, ==_of_ne s.table_uuid (env.new_v4 0) ne)

  hidden_file :
      (f : FileRow)
      → f.table_uuid ≢ env.new_v4 0
      → file_visible (env.new_v4 0) env.transaction_id f ≡ false
  unfolding file_visible
  hidden_file f ne = ground (arith, ==_of_ne f.table_uuid (env.new_v4 0) ne)

  first_visible :
      schema_visible (env.new_v4 0) env.transaction_id (first_schema lib catalog env) ≡ true
  unfolding schema_visible
  first_visible = ground arith

  schema_at-created :
      (text : String) (db : Db)
      → DrawsNew db
      → schema_at
          (env.new_v4 0)
          env.transaction_id
          (created lib catalog env ident location schema text db)
        ≡ some (first_schema lib catalog env)
  unfolding schema_at update_table
  schema_at-created text db new =
      find-append (schema_visible (env.new_v4 0) env.transaction_id) db.schemas
        (first_schema lib catalog env)
        (find-none (schema_visible (env.new_v4 0) env.transaction_id) db.schemas
          (All-mono hidden_schema db.schemas new.schemas))
        first_visible

  files_at-created :
      (text : String) (db : Db)
      → DrawsNew db
      → files_at
          (env.new_v4 0)
          env.transaction_id
          (created lib catalog env ident location schema text db)
        ≡ []
  unfolding files_at update_table
  files_at-created text db new =
      filter-none (file_visible (env.new_v4 0) env.transaction_id) db.files
        (All-mono hidden_file db.files new.files)

-- The JSON library reads the object of one map as it writes it, and the object is its map. For
-- serde_json this is a condition on the values: its parser stops at a depth of 128, and may read
-- another floating-point number than the one that was written.
pub record JsonRoundTrips {Value Map : Type 0} (json : Json Value Map) (map : Map) : Type 0 where
  pub from_str-to_string :
      (text : String)
      → json.to_string (json.object map) ≡ some text
      → json.from_str text ≡ some (json.object map)
  pub as_object-object : json.as_object (json.object map) ≡ some map

serialize_json-to_string :
    {Value Map : Type 0} (json : Json Value Map) (value : Value) (text : String)
    → serialize_json json value ≡ ok text
    → json.to_string value ≡ some text
unfolding serialize_json
serialize_json-to_string json value text h = ground arith

module _ {Value Map : Type 0} (lib : Libraries Value Map) (catalog : SqlCatalog) (env : Env) where
  own_version :
      (catalog : SqlCatalog)
      → ltb_ℤ catalog.client_protocol.reader catalog.client_protocol.reader ≡ false
  own_version catalog = ground arith

  -- A read of the current transaction, part by part.
  read_table_lem :
      (ident : TableIdent) (db : Db) (row : TableRow) (map : Map) (t : TxnId) (s : SchemaRow)
      (columns : List Column)
      → find_table ident db ≡ some row
      → parse_table_properties lib.json row.properties ≡ ok map
      → ltb_ℤ catalog.client_protocol.reader row.min_reader_version ≡ false
      → row.current_transaction_id ≡ some t
      → schema_at row.table_uuid t db ≡ some s
      → load_columns lib.ipc "column count exceeds limit of {}" s.schema_uuid db ≡ ok columns
      → files_at row.table_uuid t db ≡ []
      → read_table lib catalog ident none db
        ≡ ok (record {
          ident = ident;
          table_uuid = row.table_uuid;
          transaction_id = t;
          schema = record { row = s; columns = columns };
          files = [];
          properties = map;
          stats =
              find (λ s. s.table_uuid == row.table_uuid && s.transaction_id == t) db.table_stats;
        })
  unfolding read_table check_history load_files read_files ensure_reader_protocol_compatible
  read_table_lem ident db row map t s columns found parsed allowed head schema loaded no_files =
      rw (found, parsed, allowed, head, schema, loaded, no_files, ==_refl t) refl

  -- A table that was created can be read by the client that created it. If the identifiers drawn are
  -- new, the schema has fewer than 2^32 columns, the IPC library reads the
  -- types of the columns as it wrote them, and the JSON library reads the properties as it writes them,
  -- then after a successful `create_table` a read of the current transaction succeeds, and returns
  -- the columns of the schema in order, at the ordinal positions 1, 2, …, no files, the properties
  -- that were given or none, and the transaction of the creation.
  pub create_table-read_table :
      (ident : TableIdent) (location : String) (schema : SchemaSpec) (properties : Option Map)
      (db db' : Db)
      → create_table lib catalog env ident location schema properties db ≡ ok db'
      → DrawsNew lib catalog env ident location schema db
      → length schema.columns < 2 ^ 32
      → All (λ c. IpcRoundTrips lib.ipc c.column_type) schema.columns
      → JsonRoundTrips lib.json (unwrap_or_default lib catalog env properties)
      → read_table lib catalog ident none db'
        ≡ ok (first_view lib catalog env ident location schema properties db)
  unfolding update_table
  create_table-read_table ident location schema properties db db' ran new few ipc json =
      let c = create_table_lem lib catalog env ident location schema properties db ran in
      let state = created lib catalog env ident location schema c.text db in
      let map = unwrap_or_default lib catalog env properties in
      let (_, small, _, _) = (validate_schema_iff schema).0 c.valid in
      let found = find_table-created lib catalog env ident location schema c.text db c.unknown in
      let parsed : parse_table_properties lib.json (some c.text) ≡ ok map =
        parse_table_properties-serialize lib.json map c.text c.written
          (json.from_str-to_string c.text
            (serialize_json-to_string lib.json (lib.json.object map) c.text c.written))
          json.as_object-object in
      let schema_found = schema_at-created lib catalog env ident location schema c.text db new in
      let no_files = files_at-created lib catalog env ident location schema c.text db new in
      let columns =
        load_columns-column_rows lib.ipc env.new_v4 (env.new_v4 1)
          "column count exceeds limit of {}" 2 schema.columns state db.columns refl new.columns
          (omega arith) ipc in
      rw c.db_is (
        read_table_lem ident state (created_row lib catalog env ident location schema c.text) map
          env.transaction_id (first_schema lib catalog env)
          (numbered lib.ipc env.new_v4 (env.new_v4 1) 2 1 schema.columns) found parsed
          (own_version catalog) refl schema_found columns no_files)
