-- ===== src/Lib.antt =====
-- A model of the planar catalog: tables of data files whose versions are transactions, kept in an
-- SQL database, with proofs about it.
--
-- The program. src/catalog is the catalog: a table has a head transaction, a chain of parents behind
-- it, versions of its schema, and files that one transaction adds and another removes. A client
-- reads a table at a transaction, and commits a mutation on a base transaction, which must still be
-- the head. src/storage reads and writes the files themselves through the parquet, lance and vortex
-- crates, and parses their options.
--
-- The files.
--   Base: lists, options and results over the native numbers, `i32` and `u32`, the pieces of
--     `slice::chunks`, and the loops that find repeats by a hash set.
--   Error: src/catalog/error.rs. A message keeps the text of the source, with `{}` where it formats a
--     value.
--   Limits: src/catalog/limits.rs and `DbKind` of src/catalog/database.rs.
--   DataType: src/catalog/data_type.rs: `can_evolve_to`, and `encode_data_type` and
--     `decode_data_type` over the Arrow IPC library. `other` stands for the types that evolve to
--     themselves only.
--   Json: the JSON helpers of src/catalog/helpers.rs.
--   Storage: src/storage. Options has the parsing and validation of write options; Parquet, Lance and
--     Vortex the reader and the writer of each format (src/storage/file_format) over its crate, which
--     is a record of Crates; Dispatch `ReaderEnum` and `WriterEnum` of src/storage/mod.rs. Io is the
--     monad of calls that keep what they did to the file system when they fail, and Streams the lists
--     of items that stand for the streams of record batches.
--   Spec: the specifications of src/catalog/models.rs, their validation, and (Builders) their
--     constructors and builder methods.
--   Db: the rows of src/catalog/schema.rs as lists, and the SQL statements of src/catalog/mod.rs as
--     functions, with the keys and the references that db/migrations declares. A statement that
--     breaks one fails.
--   Catalog: the operations of `SqlCatalog` in src/catalog/mod.rs, one module for each: Create
--     (`create_table`), Columns (the chunked insertion of columns), Append, Delete and Evolve (the
--     branches of `commit`), Commit (`commit`), Chain (the walks over parents), Rows (the queries of
--     a read) and Read (`read_table`, `load_table`, `list_tables`, `drop_table` and
--     `current_transaction_id`). An operation takes the database and returns the new one or an
--     error; on an error the SQL transaction rolls back, so there is no new database.
--   Delta and Events: `project_delta_range` of src/catalog/helpers.rs, and
--     `list_transaction_events` and `diff_table` of src/catalog/mod.rs.
--   Backends: the trait `Catalog` of src/catalog/mod.rs as a record of operations on a state, and its
--     implementation for SQLite (Sqlite); of the one for PostgreSQL (Postgres) the calls whose result
--     depends on the column types that sqlx decodes, which are a parameter; and (Placeholders) the
--     parameters of the statements that are built at run time, which the two number differently.
--   Client: `TableHandle` and `MutationBuilder` of src/catalog/models.rs, over any implementation of
--     the trait.
--   History: successful calls of any clients one after the other on one database, as a step relation;
--     the invariant of the databases that they reach, and what holds in these.
--   Tests: concrete libraries and states, runs of the model, and the theorems applied to them.
--
-- Choices. A UUID is a natural number; the database compares UUIDs as bytes, which is the order of
-- the numbers. What a call draws from outside, its transaction ID, the time and fresh UUIDs, is its
-- `Env`. serde_json, arrow_ipc and the text functions of std and the format crates are records of
-- functions, and a theorem that needs them to read what they write says so. `as u32`, `as i32` and
-- the addition on `i32` wrap round as in a release build.
--
-- Bounds and fuel. The walk over the history takes as fuel one more than the number of transactions:
-- it visits none twice. The range scan takes one more than the limit on transactions, at which the
-- source stops. `slice::chunks` takes the length of the list, since no chunk is empty.
--
-- Calls and time. A call of the catalog is one step on the database: SQLite begins its transaction
-- with the write lock, and PostgreSQL locks the row of the table. In History the transaction ID of a
-- call, a version-7 UUID, is later than those in the database. A call of the storage layer reads its
-- stream to the end or to the first error.
--
-- Not modelled: the pool, its settings and the migrations' runner, the isolation of concurrent SQL
-- transactions, the single queries of a read that other calls come between, table statistics (no code
-- writes them), column statistics, insertion into properties (a call of serde_json), the adapters
-- that hand a file or a stream to a crate (`TokioAsyncWriter`, `RecordBatchArrayStream`), and panics
-- of the tasks of the Lance writer.
-- Of the PostgreSQL implementation, `commit` with its row lock, `list_tables`, `drop_table` and
-- `current_transaction_id` are left out.
pub mod Base
pub mod Tests
pub mod Error
pub mod Limits
pub mod DataType
pub mod Json
pub mod Storage
pub mod Spec
pub mod Db
pub mod Catalog
pub mod Backends
pub mod Delta
pub mod Events
pub mod Client
pub mod History
