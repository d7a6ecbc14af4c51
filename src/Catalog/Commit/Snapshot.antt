-- ===== src/Catalog/Commit/Snapshot.antt =====
-- Snapshot isolation: what a commit leaves of the states before it.
use planar.Base.{none}
use planar.Base.Eq.{nat_eq}
use planar.Db.{Db, FileRow}

-- A file without the mark of its removal.
abbrev pub content : FileRow → FileRow
content f = record f { removed_in_transaction_id = none }
