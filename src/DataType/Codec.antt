-- ===== src/DataType/Codec.antt =====
-- `encode_data_type` and `decode_data_type` of catalog/data_type.rs, over the Arrow IPC library.
use planar.Base.{ℕ, String, ◌≡◌, Bool, true, Option, some, List, [], ◌∷◌}
use planar.Base.Except.{ok, err, ok_or, ◌>>=◌}
use planar.Error.{Result, invalid_argument, arrow}
use planar.DataType.{DataType}

abbrev pub Bytes : Type 0
Bytes = List ℕ

-- A field of an Arrow schema: its name, its type, and whether it may be null.
pub record Field : Type 0 where
  pub name : String
  pub data_type : DataType
  pub nullable : Bool

-- arrow_ipc: `schema_to_fb` writes the fields of a schema; `root_as_schema` with `fb_to_schema`
-- reads them, and fails on bytes that are no schema.
pub record ArrowIpc : Type 0 where
  pub schema_to_fb : List Field → Bytes
  pub root_as_schema : Bytes → Option (List Field)

module _ (ipc : ArrowIpc) where
  unfoldable pub encode_data_type : DataType → Result Bytes
  encode_data_type data_type =
      let field : Field = record { name = "_"; data_type = data_type; nullable = true } in
      ok (ipc.schema_to_fb (field ∷ []))

  only_field : List Field → Result DataType
  only_field [] = err (invalid_argument "Invalid encoded DataType: schema has no fields")
  only_field (field ∷ []) = ok field.data_type
  only_field (field ∷ next ∷ rest) =
      err (invalid_argument "Invalid encoded DataType: expected 1 field, found {}")

  unfoldable pub decode_data_type : Bytes → Result DataType
  unfolding only_field
  decode_data_type bytes = do
    fields ← ok_or (ipc.root_as_schema bytes) (arrow "Invalid FlatBuffer schema: {}")
    only_field fields

  -- Reading gives back the one field that was written.
  abbrev pub IpcRoundTrips : DataType → Type 0
  IpcRoundTrips data_type =
      ipc.root_as_schema
        (ipc.schema_to_fb (record { name = "_"; data_type = data_type; nullable = true } ∷ []))
      ≡ some (record { name = "_"; data_type = data_type; nullable = true } ∷ [])
