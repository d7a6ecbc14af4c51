-- ===== src/Json.antt =====
-- serde_json as the code uses it, and the JSON helpers of catalog/helpers.rs.
pub mod Bounds
use Prim.Native.String.{len}
use planar.Base.{ℕ, String, Bool, Option, none, some, List, leb}
use planar.Base.Int.{as_u32}
use planar.Base.Except.{ok, guard, ok_or, ◌>>=◌, ◌>>◌}
use planar.Error.{Result, invalid_argument, limit_exceeded}
use planar.Limits.{max_json_size_bytes}

-- `Value` is `serde_json::Value`, and `Map` is `serde_json::Map<String, Value>`.
pub record Json (Value Map : Type 0) : Type 0 where
  -- `Value::Object` and its inverse match.
  pub object : Map → Value
  pub as_object : Value → Option Map
  pub as_str : Value → Option String
  pub as_u64 : Value → Option ℕ
  pub as_bool : Value → Option Bool
  -- `serde_json::to_string` and `from_str`; `none` is an error.
  pub to_string : Value → Option String
  pub from_str : String → Option Value
  -- `Map::new`, `Map::remove`, the entries in the order of iteration, and `==`.
  pub empty : Map
  pub remove : Map → String → Map
  pub entries : Map → List (String × Value)
  pub map_eq : Map → Map → Bool

module _ {Value Map : Type 0} (json : Json Value Map) where
  -- The size check compares the length of the text `as u32`.
  fits_limit : String → Bool
  fits_limit text = leb (as_u32 (len text)) max_json_size_bytes

  pub parse_text : String → Result Value
  unfolding fits_limit
  parse_text text = do
    guard (fits_limit text) (limit_exceeded "JSON size {} bytes exceeds limit of {} bytes")
    ok_or (json.from_str text) (invalid_argument "invalid json: {error}")

  unfoldable pub parse_json : Option String → Result Value
  unfolding parse_text
  parse_json (some text) = parse_text text
  parse_json none = ok (json.object json.empty)

  -- `TableProperties::from_json`; the properties are the map.
  unfoldable pub from_json : Value → Result Map
  from_json value =
      ok_or (json.as_object value) (invalid_argument "table properties must be a JSON object")

  unfoldable pub parse_table_properties : Option String → Result Map
  unfolding parse_json from_json
  parse_table_properties value = do v ← parse_json value; from_json v

  unfoldable pub parse_json_optional : Option String → Result (Option Value)
  unfolding parse_text
  parse_json_optional (some text) = do v ← parse_text text; ok (some v)
  parse_json_optional none = ok none

  unfoldable pub serialize_json : Value → Result String
  unfolding fits_limit
  serialize_json value = do
    json_str ← ok_or (json.to_string value) (invalid_argument "invalid json: {error}")
    guard (fits_limit json_str) (limit_exceeded "JSON size {} bytes exceeds limit of {} bytes")
    ok json_str

  unfoldable pub serialize_json_optional : Option Value → Result (Option String)
  unfolding serialize_json
  serialize_json_optional none = ok none
  serialize_json_optional (some value) = do text ← serialize_json value; ok (some text)
