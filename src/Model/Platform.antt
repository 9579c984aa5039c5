-- ===== src/Model/Platform.antt =====
-- What the pure code is given: from Node the hash, the JSON form of a text, dates and paths, and from
-- src/pi-rpc-diagnostics.ts the check of a diagnostic's form, a component of its own. Times are integers
-- of milliseconds; `Date.parse` of what is no date, which is NaN, is `none`.
use herdr_harness_lite.Base.{String, Option, Bool}
use herdr_harness_lite.Base.Int.{ℤ}
use herdr_harness_lite.Model.Diagnostic.{SafeRuntimeDiagnostic}

pub record Platform : Type 0 where
  -- `createHash("sha256").update(text).digest("hex")`
  pub sha256 : String → String
  -- `JSON.stringify(text)`
  pub json_string : String → String
  -- `Date.parse(text)`
  pub parse_date : String → Option ℤ
  -- `new Date(time).toISOString()`
  pub iso_string : ℤ → String
  -- `isAbsolute(path)`
  pub is_absolute : String → Bool
  -- `isSafePiRpcDiagnostic(diagnostic)`
  pub is_safe_diagnostic : SafeRuntimeDiagnostic → Bool
  -- `pathIsWithin(parent, child)` of src/path-safety.ts
  pub path_is_within : String → String → Bool
  -- `left.localeCompare(right) <= 0`
  pub locale_le : String → String → Bool
