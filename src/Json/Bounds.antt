-- ===== src/Json/Bounds.antt =====
-- What the size limit of catalog/helpers.rs bounds, and that written text is read back.
use Prim.Native.String.{len}
use planar.Base.{◌%◌, ◌^◌, ◌≤◌, ◌<◌, String, ◌≡◌, some, arith}
use planar.Base.Except.{ok, ok_or}
use planar.Error.{invalid_argument}
use planar.Json.{Json, parse_text, parse_json_optional, serialize_json, parse_table_properties}
use planar.Limits.{max_json_size_bytes}

module _ {Value Map : Type 0} (json : Json Value Map) where
  -- A serialized value, in a text shorter than 4 GiB that JSON parses to the value it was written
  -- from, is within the size limit and is read back as that value: the reader refuses no text that
  -- the writer accepted.
  pub parse-serialize :
      (value : Value) (text : String)
      → serialize_json json value ≡ ok text
      → json.from_str text ≡ some value
      → len text < 2 ^ 32
      → (len text ≤ max_json_size_bytes) × (parse_json_optional json (some text) ≡ ok (some value))
  unfolding serialize_json parse_json_optional
  parse-serialize value text h p short = (ground arith, ground arith)

  -- The same for the properties of a table.
  pub parse_table_properties-serialize :
      (map : Map) (text : String)
      → serialize_json json (json.object map) ≡ ok text
      → json.from_str text ≡ some (json.object map)
      → json.as_object (json.object map) ≡ some map
      → parse_table_properties json (some text) ≡ ok map
  unfolding serialize_json parse_table_properties
  parse_table_properties-serialize map text h p q = ground arith

  -- The size check reads the length modulo 2^32: a text whose length is a multiple of 4 GiB passes
  -- it, however long the text is.
  pub size_check_wraps :
      (text : String)
      → len text % 2 ^ 32 ≡ 0
      → parse_text json text ≡ ok_or (json.from_str text) (invalid_argument "invalid json: {error}")
  unfolding parse_text
  size_check_wraps text h = ground arith
