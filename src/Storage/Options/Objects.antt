-- ===== src/Storage/Options/Objects.antt =====
-- Options that pass the validation are JSON objects.
use planar.Base.{◌≡◌, some, List, String, inl, inr, Bool-cases, arith}
use planar.Base.Except.{ok, ◌>>=◌, >>=-eq-ok, ok_or-eq-ok}
use planar.Json.{Json}
use planar.Storage.{TextOps, StorageResult, unsupported}
use text.Mathlib.Text.{◌==◌ as str_eq}
use planar.Storage.Options.{
  Setting, parse_parquet_options, parse_lance_options, parse_vortex_options,
  validate_format_options, parse_options, parquet_entry, lance_entry, vortex_entry,
}

module _ {Value Map : Type 0} (json : Json Value Map) (text : TextOps) where
  parse_options-object :
      (entry : String → Value → StorageResult (List Setting)) (options : Value)
      → ◌≡◌ {A = StorageResult (Unit {0})}
          (parse_options json entry (some options) >>= λ _. ok tt)
          (ok tt)
      → (map : Map) × (json.as_object options ≡ some map)
  unfolding parse_options
  parse_options-object entry options h =
      let (settings, parsed, _) = >>=-eq-ok (parse_options json entry (some options)) _ h in
      let (map, is, _) =
        ok_or-eq-ok (json.as_object options) (unsupported "format_options must be a JSON object") _
          parsed in
      (map, is)

  -- Options that are valid for some format are an object.
  pub validate_format_options-object :
      (file_format : String) (options : Value)
      → validate_format_options json text file_format options ≡ ok tt
      → (map : Map) × (json.as_object options ≡ some map)
  unfolding validate_format_options parse_parquet_options parse_lance_options parse_vortex_options
  validate_format_options-object file_format options h =
      let name = text.to_lowercase file_format in
      elim (Bool-cases (str_eq name "parquet")) [
        | inl parquet ↦ parse_options-object (parquet_entry json text) options (rw parquet at h)
        | inr other ↦ elim (Bool-cases (str_eq name "lance")) [
          | inl lance ↦
              parse_options-object (lance_entry json text) options (rw (other, lance) at h)
          | inr third ↦ elim (Bool-cases (str_eq name "vortex")) [
            | inl vortex ↦
                parse_options-object (vortex_entry json) options (rw (other, third, vortex) at h)
            | inr none_of ↦ absurd (ground (arith, rw (other, third, none_of) at h))
          ]
        ]
      ]
