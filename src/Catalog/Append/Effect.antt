-- ===== src/Catalog/Append/Effect.antt =====
-- What a successful `AppendFiles` does: it adds one row for each file, in order.
use planar.Base.{
  ℕ, ◌≡◌, refl, ap, ◌∙◌, Option, none, some, List, [], ◌∷◌, ◌++◌, append-nil, append_assoc, arith,
  All, All-append, All₂, nil, cons, All₂-append, length, leb,
}
use planar.Base.Int.{as_u32}
use planar.Base.Chunks.{chunks, concat, chunks_lem}
use planar.Base.Except.{ok, guard-eq-ok, >>=-eq-ok, ok-injective}
use planar.Json.{serialize_json_optional}
use planar.Limits.{max_files_per_append, batch_insert_files_chunk}
use planar.Storage.{as_str}
use planar.Spec.{Uuid, FileSpec, validate_file}
use planar.Db.{Db, FileRow, insert_files}
use planar.Db.Laws.{insert_files_lem}
use planar.Catalog.{Libraries, Env, Work}
use planar.Catalog.Append.{file_row, choose_uuid, chunk_rows, append_chunks, apply_append}

-- The UUID that a client asked for, if it asked for one.
abbrev Requested : Option Uuid → Uuid → Type 0
Requested none uuid = Unit
Requested (some asked) uuid = uuid ≡ asked

module _ {Value Map : Type 0} (lib : Libraries Value Map) (env : Env) (table_uuid : Uuid) where
  -- The row belongs to the table, and is live from the transaction on.
  abbrev pub IsNew : FileRow → Type 0
  IsNew f =
      (f.table_uuid ≡ table_uuid)
      × (f.added_in_transaction_id ≡ env.transaction_id)
      × (f.removed_in_transaction_id ≡ none)

  -- The row stores what the specification says, and the specification is valid.
  pub record Stores (f : FileSpec Value) (row : FileRow) : Type 0 where
    pub valid : validate_file lib.json lib.text f ≡ ok tt
    pub uuid : Requested f.file_uuid row.file_uuid
    pub format : row.file_format ≡ as_str f.file_format
    pub path : row.file_path ≡ f.file_path
    pub records : row.record_count ≡ f.record_count
    pub size : row.file_size_bytes ≡ f.file_size_bytes
    pub partition : serialize_json_optional lib.json f.partition_values ≡ ok row.partition_values
    pub options : serialize_json_optional lib.json f.format_options ≡ ok row.format_options

  choose_uuid-Requested :
      (drawn : ℕ) (o : Option Uuid) → Requested o (choose_uuid lib env drawn o).0
  choose_uuid-Requested drawn none = tt
  choose_uuid-Requested drawn (some u) = refl

  chunk_rows_lem :
      (drawn : ℕ) (files : List (FileSpec Value)) {rows : List FileRow} {drawn' : ℕ}
      → chunk_rows lib env table_uuid drawn files ≡ ok (rows, drawn')
      → All₂ Stores files rows × All IsNew rows
  unfolding chunk_rows
  chunk_rows_lem drawn [] {rows} h = let e : rows ≡ [] = cc in rw e (nil, tt)
  chunk_rows_lem drawn (f ∷ files) {rows} h =
      let chosen = choose_uuid lib env drawn f.file_uuid in
      let (_, valid, h₁) = >>=-eq-ok (validate_file lib.json lib.text f) _ h in
      let (part, p, h₂) = >>=-eq-ok (serialize_json_optional lib.json f.partition_values) _ h₁ in
      let (opts, q, h₃) = >>=-eq-ok (serialize_json_optional lib.json f.format_options) _ h₂ in
      let (rest, ran, h₄) = >>=-eq-ok (chunk_rows lib env table_uuid chosen.1 files) _ h₃ in
      let (stored, new) = chunk_rows_lem chosen.1 files ran in
      let e : rows ≡ file_row lib env table_uuid chosen.0 f part opts ∷ rest.0 = cc in
      rw e (
        cons
            (record {
              valid = valid;
              uuid = choose_uuid-Requested drawn f.file_uuid;
              format = refl;
              path = refl;
              records = refl;
              size = refl;
              partition = p;
              options = q;
            })
            stored,
        ((refl, refl, refl), new),
      )

  -- What a run over some files leaves: their rows behind the old ones, and all else as it was.
  pub record Appends (files : List (FileSpec Value)) (work work' : Work Map) : Type 0 where
    pub rows : List FileRow
    pub db : work'.db ≡ record work.db { files = work.db.files ++ rows }
    pub stores : All₂ Stores files rows
    pub new : All IsNew rows
    pub properties : work'.properties_value ≡ work.properties_value
    pub schema : work'.new_schema_uuid ≡ work.new_schema_uuid

  append_chunks_lem :
      (chunked : List (List (FileSpec Value))) (work : Work Map) {work' : Work Map}
      → append_chunks lib env table_uuid chunked work ≡ ok work'
      → Appends (concat chunked) work work'
  unfolding append_chunks concat
  append_chunks_lem [] work {work'} h = record {
    rows = [];
    db = cc (ap (λ (w : Work Map). w.db) (ok-injective h), append-nil work.db.files);
    stores = nil;
    new = tt;
    properties = ground arith;
    schema = ground arith;
  }
  append_chunks_lem (chunk ∷ rest) work h =
      let (made, ran, h₁) = >>=-eq-ok (chunk_rows lib env table_uuid work.drawn chunk) _ h in
      let (db₁, inserted, h₂) =
        >>=-eq-ok (insert_files table_uuid env.transaction_id made.0 work.db) _ h₁ in
      let more = append_chunks_lem rest (record work { db = db₁; drawn = made.1 }) h₂ in
      let (stored, new) = chunk_rows_lem work.drawn chunk ran in
      let e = insert_files_lem work.db table_uuid env.transaction_id made.0 inserted in
      record {
        rows = made.0 ++ more.rows;
        db =
            more.db
            ∙ ap (λ (d : Db). record d { files = d.files ++ more.rows }) e
            ∙ ap (λ (fs : List FileRow). record work.db { files = fs })
                (append_assoc work.db.files made.0 more.rows);
        stores = All₂-append stored more.stores;
        new = All-append IsNew made.0 more.rows new more.new;
        properties = more.properties;
        schema = more.schema;
      }

  -- A successful append adds exactly one row for each file, in the order of the files. Each row
  -- stores its valid specification, belongs to the table, and is added in the transaction and not
  -- removed; rows of other files, the other tables, the properties and the schema stay.
  pub apply_append_lem :
      (files : List (FileSpec Value)) (work : Work Map) {work' : Work Map}
      → apply_append lib env table_uuid files work ≡ ok work'
      → Appends files work work'
  unfolding apply_append
  apply_append_lem files work h =
      let (small, h') = guard-eq-ok (leb (as_u32 (length files)) max_files_per_append) _ _ h in
      let all = append_chunks_lem (chunks batch_insert_files_chunk files) work h' in
      rw (chunks_lem batch_insert_files_chunk files (omega arith)).0 at all
