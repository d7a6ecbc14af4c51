-- ===== src/Catalog/Delete/Effect.antt =====
-- What a successful `DeleteFiles` does: one statement for each chunk is one statement for them all.
use mathlib.Core.Path.{subst}
use planar.Base.{
  ◌≡◌, refl, ap, sym, ◌∙◌, ◌||◌, inl, inr, none, some, Bool-cases, Option-cases, ◌==◌, ==_iff,
  ==_refl, List, [], ◌∷◌, ◌++◌, map, arith, length, leb,
}
use planar.Base.Int.{as_u32}
use planar.Base.Eq.{contains, nat_eq, Fresh, contains→Fresh, Fresh→contains}
use planar.Base.Chunks.{chunks, concat, chunks_lem}
use planar.Base.Except.{ok, guard-eq-ok, ok-injective}
use planar.Limits.{max_files_per_delete, batch_delete_files_chunk}
use planar.Spec.{Uuid, TxnId}
use planar.Db.{Db, FileRow, mark_removed, remove_files}
use planar.Catalog.{Env, Work}
use planar.Catalog.Delete.{delete_chunks, apply_delete}

module _ (table_uuid : Uuid) (id : TxnId) where
  contains-append :
      (xs ys : List Uuid) (a : Uuid) → contains (xs ++ ys) a ≡ (contains xs a || contains ys a)
  unfolding contains
  contains-append [] ys a = refl
  contains-append (x ∷ xs) ys a = ground (arith, contains-append xs ys a)

  -- Marking twice is marking the files of both lists.
  mark_removed-append :
      (xs ys : List Uuid) (f : FileRow)
      → mark_removed table_uuid id ys (mark_removed table_uuid id xs f)
        ≡ mark_removed table_uuid id (xs ++ ys) f
  unfolding mark_removed
  mark_removed-append xs ys f = ground (arith, contains-append xs ys f.file_uuid)

  mark_none : (f : FileRow) → mark_removed table_uuid id [] f ≡ f
  unfolding mark_removed contains
  mark_none f = ground arith

  map-mark-append :
      (xs ys : List Uuid) (files : List FileRow)
      → map (mark_removed table_uuid id ys) (map (mark_removed table_uuid id xs) files)
        ≡ map (mark_removed table_uuid id (xs ++ ys)) files
  map-mark-append xs ys [] = refl
  map-mark-append xs ys (f ∷ files) = cc (mark_removed-append xs ys f, map-mark-append xs ys files)

  pub map-mark_none : (files : List FileRow) → map (mark_removed table_uuid id []) files ≡ files
  map-mark_none [] = refl
  map-mark_none (f ∷ files) = cc (mark_none f, map-mark_none files)

delete_chunks_lem :
    (env : Env) (table_uuid : Uuid) (chunked : List (List Uuid)) (db : Db)
    → delete_chunks env table_uuid chunked db ≡ record db {
      files = map (mark_removed table_uuid env.transaction_id (concat chunked)) db.files;
    }
unfolding delete_chunks remove_files concat
delete_chunks_lem env t [] db =
    ap (λ (fs : List FileRow). record db { files = fs })
      (sym (map-mark_none t env.transaction_id db.files))
delete_chunks_lem env t (chunk ∷ rest) db =
    delete_chunks_lem env t rest (remove_files t env.transaction_id chunk db)
    ∙ ap (λ (fs : List FileRow). record db { files = fs })
        (map-mark-append t env.transaction_id chunk (concat rest) db.files)

-- The chunks of a successful delete are one statement over all the names.
pub apply_delete-map :
    {Map : Type 0} (env : Env) (table_uuid : Uuid) (uuids : List Uuid) (work : Work Map)
    {work' : Work Map}
    → apply_delete env table_uuid uuids work ≡ ok work'
    → work' ≡ record work {
      db = record work.db {
        files = map (mark_removed table_uuid env.transaction_id uuids) work.db.files;
      };
    }
unfolding apply_delete
apply_delete-map env table_uuid uuids work {work'} h =
    let (small, h') = guard-eq-ok (leb (as_u32 (length uuids)) max_files_per_delete) _ _ h in
    let e = delete_chunks_lem env table_uuid (chunks batch_delete_files_chunk uuids) work.db in
    let whole = (chunks_lem batch_delete_files_chunk uuids (omega arith)).0 in
    sym (ok-injective h') ∙ ap (λ (d : Db). record work { db = d }) (rw whole at e)

-- A file of the table, not yet removed, that is among the names.
abbrev pub Deletes : Uuid → List Uuid → FileRow → Type 0
Deletes table_uuid uuids f =
    (f.table_uuid ≡ table_uuid) × (f.removed_in_transaction_id ≡ none) × ¬ Fresh f.file_uuid uuids

-- The rows after a delete, one by one and in order: a file that the delete names is removed in the
-- transaction and otherwise as it was, and any other file is as it was.
pub Deleted : Uuid → TxnId → List Uuid → List FileRow → List FileRow → Type 0
Deleted table_uuid id uuids [] [] = Unit
Deleted table_uuid id uuids (f ∷ before) (g ∷ now) =
    (Deletes table_uuid uuids f → g ≡ record f { removed_in_transaction_id = some id })
    × (¬ Deletes table_uuid uuids f → g ≡ f)
    × Deleted table_uuid id uuids before now
Deleted table_uuid id uuids _ _ = ⊥

module _ (table_uuid : Uuid) (id : TxnId) (uuids : List Uuid) where
  mark_removed-named :
      (f : FileRow)
      → Deletes table_uuid uuids f
      → mark_removed table_uuid id uuids f ≡ record f { removed_in_transaction_id = some id }
  unfolding mark_removed
  mark_removed-named f (own, live, named) = elim (Bool-cases (contains uuids f.file_uuid)) [
    | inl is ↦ rw (own, live, is, ==_refl table_uuid) refl
    | inr not_in ↦ absurd (named (contains→Fresh uuids f.file_uuid not_in))
  ]

  mark_removed-other :
      (f : FileRow) → ¬ Deletes table_uuid uuids f → mark_removed table_uuid id uuids f ≡ f
  unfolding mark_removed
  mark_removed-other f other = elim (Bool-cases (f.table_uuid == table_uuid)) [
    | inr foreign ↦ ground arith
    | inl own ↦ elim (Option-cases f.removed_in_transaction_id) [
      | inr (end, gone) ↦ ground arith
      | inl live ↦ elim (Bool-cases (contains uuids f.file_uuid)) [
        | inr not_in ↦ ground arith
        | inl is ↦ absurd (
            other (
              (==_iff f.table_uuid table_uuid).0 own,
              live,
              λ fresh. ground (arith, Fresh→contains uuids f.file_uuid fresh),
            ))
      ]
    ]
  ]

  map-mark_removed-Deleted :
      (files : List FileRow)
      → Deleted table_uuid id uuids files (map (mark_removed table_uuid id uuids) files)
  unfolding Deleted
  map-mark_removed-Deleted [] = tt
  map-mark_removed-Deleted (f ∷ files) =
      (mark_removed-named f, mark_removed-other f, map-mark_removed-Deleted files)

-- A successful delete marks exactly the live files of the table that it names as removed in the
-- transaction: each of them has the transaction as its end and is otherwise as it was, every other
-- file is as it was, the order of the files stays, and nothing else of the state changes.
pub apply_delete_lem :
    {Map : Type 0} (env : Env) (table_uuid : Uuid) (uuids : List Uuid) (work work' : Work Map)
    → apply_delete env table_uuid uuids work ≡ ok work'
    → Deleted table_uuid env.transaction_id uuids work.db.files work'.db.files
      × (work' ≡ record work { db = record work.db { files = work'.db.files } })
apply_delete_lem {Map} env table_uuid uuids work work' h =
    let is = apply_delete-map env table_uuid uuids work h in
    let files_are = ap (λ (w : Work Map). w.db.files) is in
    (
      subst (Deleted table_uuid env.transaction_id uuids work.db.files) (sym files_are)
          (map-mark_removed-Deleted table_uuid env.transaction_id uuids work.db.files),
      is
          ∙ ap (λ (fs : List FileRow). record work { db = record work.db { files = fs } })
              (sym files_are),
    )
