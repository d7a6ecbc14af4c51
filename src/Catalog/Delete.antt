-- ===== src/Catalog/Delete.antt =====
-- catalog/mod.rs, `commit`: the branch `MutationOp::DeleteFiles`.
pub mod Effect
use planar.Base.{List, [], ◌∷◌, leb, length}
use planar.Base.Int.{as_u32}
use planar.Base.Eq.{string_eq}
use planar.Base.Chunks.{chunks}
use planar.Base.Except.{ok, guard, ◌>>=◌, ◌>>◌}
use planar.Error.{Result, limit_exceeded}
use planar.Limits.{max_files_per_delete, batch_delete_files_chunk}
use planar.Spec.{Uuid}
use planar.Db.{Db, remove_files}
use planar.Catalog.{Env, Work}

delete_chunks : Env → Uuid → List (List Uuid) → Db → Db
delete_chunks env table_uuid [] db = db
delete_chunks env table_uuid (chunk ∷ rest) db =
    delete_chunks env table_uuid rest (remove_files table_uuid env.transaction_id chunk db)

module _ {Map : Type 0} (env : Env) where
  -- `MutationOp::DeleteFiles`
  unfoldable pub apply_delete : Uuid → List Uuid → Work Map → Result (Work Map)
  unfolding delete_chunks
  apply_delete table_uuid file_uuids work = do
    guard (leb (as_u32 (length file_uuids)) max_files_per_delete)
        (limit_exceeded "cannot delete {} files, exceeds limit of {}")
    ok (record work {
      db = delete_chunks env table_uuid (chunks batch_delete_files_chunk file_uuids) work.db;
    })
