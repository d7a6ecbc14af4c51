-- ===== src/Storage.antt =====
-- storage/mod.rs and storage/error.rs: the file formats and the errors.
pub mod Options
pub mod Io
pub mod Streams
pub mod Crates
pub mod Parquet
pub mod Lance
pub mod Vortex
pub mod Dispatch
use planar.Base.{String, Option, if◌then◌else◌, ℕ}
use planar.Base.Except.{Except, ok, err, ◌>>=◌, ◌>>◌}
use text.Mathlib.Text.{◌==◌}

-- Errors of the libraries below carry their text.
pub data StorageError : Type 0 where
  io arrow parquet lance vortex : String → StorageError
  invalid_input not_yet_implemented unsupported : String → StorageError

abbrev pub StorageResult : Type 0 → Type 0
StorageResult A = Except StorageError A

pub data Format : Type 0 where
  parquet lance vortex : Format

-- `Format::as_str`
unfoldable pub as_str : Format → String
as_str Format.parquet = "parquet"
as_str Format.lance = "lance"
as_str Format.vortex = "vortex"

-- What std, the parquet crate and the lance crate do with text: `str::to_lowercase`,
-- `WriterVersion::from_str` and `WriteMode::try_from`. A version or a mode is told by a number.
pub record TextOps : Type 0 where
  pub to_lowercase : String → String
  pub writer_version : String → Option ℕ
  pub write_mode : String → Option ℕ

-- `Format::from_str`
unfoldable pub from_str : TextOps → String → StorageResult Format
from_str text s =
    let name = text.to_lowercase s in
    if name == "parquet"
    then ok Format.parquet
    else if name == "lance"
    then ok Format.lance
    else if name == "vortex"
    then ok Format.vortex
    else err (
        StorageError.unsupported
          "File format '{}' is not supported. Supported formats: parquet, lance, vortex")
