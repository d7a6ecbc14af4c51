-- ===== src/Delta.antt =====
-- catalog/helpers.rs: `project_delta_range`, over the events of catalog/models.rs. A hash map from
-- UUIDs to files is a list of pairs with distinct keys.
pub mod Net
use planar.Base.{Option, none, some, List, [], ◌∷◌, map, ◌==◌, if◌then◌else◌}
use planar.Spec.{Uuid, TxnId}
use planar.Catalog.Rows.{Schema, File}

pub data TxnFileChangeKind : Type 0 where
  added removed : TxnFileChangeKind

pub record TxnFileChange (Value : Type 0) : Type 0 where
  pub transaction_id : TxnId
  pub kind : TxnFileChangeKind
  pub file : File Value

pub record TxnSchemaChange : Type 0 where
  pub transaction_id : TxnId
  pub schema : Schema

pub record TxnEvent (Value : Type 0) : Type 0 where
  pub transaction_id : TxnId
  pub file_changes : List (TxnFileChange Value)
  pub schema_change : Option TxnSchemaChange

pub record TableDelta (Value Map : Type 0) : Type 0 where
  pub from_transaction_id : TxnId
  pub to_transaction_id : TxnId
  pub added_files : List (File Value)
  pub removed_files : List (File Value)
  pub new_schema : Option Schema
  pub new_properties : Option Map

module _ {V : Type 0} where
  unfoldable pub lookup : Uuid → List (Uuid × V) → Option V
  lookup k [] = none
  lookup k ((j, v) ∷ m) = if j == k then some v else lookup k m

  -- `HashMap::remove`
  unfoldable pub remove : Uuid → List (Uuid × V) → List (Uuid × V)
  remove k [] = []
  remove k ((j, v) ∷ m) = let rest = remove k m in if j == k then rest else (j, v) ∷ rest

  -- `HashMap::insert`
  unfoldable pub insert : Uuid → V → List (Uuid × V) → List (Uuid × V)
  unfolding remove
  insert k v m = (k, v) ∷ remove k m

pub record Maps (Value : Type 0) : Type 0 where
  pub added_by_uuid : List (Uuid × File Value)
  pub removed_by_uuid : List (Uuid × File Value)

module _ {Value : Type 0} where
  -- `if added_by_uuid.remove(&uuid).is_none() { removed_by_uuid.insert(uuid, file) }`
  cancel : Option (File Value) → File Value → Maps Value → Maps Value
  cancel none file maps = record maps {
    removed_by_uuid = insert file.file_uuid file maps.removed_by_uuid;
  }
  cancel (some old) file maps = record maps {
    added_by_uuid = remove file.file_uuid maps.added_by_uuid;
  }

  -- The `match` on the kind of one change.
  apply_kind : TxnFileChangeKind → File Value → Maps Value → Maps Value
  unfolding cancel
  apply_kind added file maps = record {
    added_by_uuid = insert file.file_uuid file maps.added_by_uuid;
    removed_by_uuid = remove file.file_uuid maps.removed_by_uuid;
  }
  apply_kind removed file maps = cancel (lookup file.file_uuid maps.added_by_uuid) file maps

  unfoldable pub apply_changes : List (TxnFileChange Value) → Maps Value → Maps Value
  unfolding apply_kind
  apply_changes [] maps = maps
  apply_changes (change ∷ rest) maps = apply_changes rest (apply_kind change.kind change.file maps)

  unfoldable pub apply_events : List (TxnEvent Value) → Maps Value → Maps Value
  unfolding apply_changes
  apply_events [] maps = maps
  apply_events (event ∷ rest) maps = apply_events rest (apply_changes event.file_changes maps)

  unfoldable pub project_delta_range :
      {Map : Type 0}
      → TxnId
      → TxnId
      → List (TxnEvent Value)
      → Option Schema
      → Option Map
      → TableDelta Value Map
  unfolding apply_events
  project_delta_range from to events new_schema new_properties =
      let maps = apply_events events (record { added_by_uuid = []; removed_by_uuid = [] }) in
      record {
        from_transaction_id = from;
        to_transaction_id = to;
        added_files = map (λ e. e.1) maps.added_by_uuid;
        removed_files = map (λ e. e.1) maps.removed_by_uuid;
        new_schema = new_schema;
        new_properties = new_properties;
      }
