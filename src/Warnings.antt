-- ===== src/Warnings.antt =====
-- The table of warnings and their generation: crates/js-x-ray/src/warnings.rs.
pub mod Generate
use js_x_ray_rs.Prelude.{
  String, Bool, true, false, Option, none, some, List, [], ◌∷◌, ◌==◌, ◌>>=◌, find, unwrap_or,
  if◌then◌else◌,
}
use js_x_ray_rs.Estree.{SourceLocation}
use js_x_ray_rs.Utils.Location.{SourceArrayLocation, to_array_location}

pub data Severity : Type 0 where
  information warning critical : Severity

pub data WarningLocation : Type 0 where
  null : WarningLocation
  single : SourceArrayLocation → WarningLocation
  multiple : List SourceArrayLocation → WarningLocation

pub record Warning : Type 0 where
  pub kind : String
  pub file : Option String
  pub value : Option String
  pub source : String
  pub location : WarningLocation
  pub i18n : String
  pub severity : Severity
  pub experimental : Option Bool

-- A row of `WARNINGS`.
pub record WarningData : Type 0 where
  pub name : String
  pub i18n : String
  pub severity : Severity
  pub experimental : Bool

abbrev row : String → String → Severity → Bool → WarningData
row name i18n severity experimental = record {
  name = name;
  i18n = i18n;
  severity = severity;
  experimental = experimental;
}

unfoldable pub warnings : List WarningData
warnings =
    row "parsing-error" "sast_warnings.parsing_error" information false
    ∷ row "unsafe-import" "sast_warnings.unsafe_import" warning false
    ∷ row "unsafe-regex" "sast_warnings.unsafe_regex" warning false
    ∷ row "unsafe-stmt" "sast_warnings.unsafe_stmt" warning false
    ∷ row "encoded-literal" "sast_warnings.encoded_literal" information false
    ∷ row "short-identifiers" "sast_warnings.short_identifiers" warning false
    ∷ row "suspicious-literal" "sast_warnings.suspicious_literal" warning false
    ∷ row "suspicious-file" "sast_warnings.suspicious_file" critical false
    ∷ row "obfuscated-code" "sast_warnings.obfuscated_code" critical true
    ∷ row "crypto.weak-algorithm" "sast_warnings.weak_crypto" information false
    ∷ row "shady-link" "sast_warnings.shady_link" warning false
    ∷ row "unsafe-command" "sast_warnings.unsafe_command" warning true
    ∷ row "synchronous-io" "sast_warnings.synchronous_io" warning true
    ∷ row "serialize-environment" "sast_warnings.serialize_environment" warning false
    ∷ row "data-exfiltration" "sast_warnings.data_exfiltration" warning false
    ∷ row "log-usage" "sast_warnings.log_usage" information false
    ∷ row "sql-injection" "sast_warnings.sql_injection" warning false
    ∷ row "monkey-patch" "sast_warnings.monkey_patch" warning false
    ∷ row "insecure-random" "sast_warnings.insecure_random" information false
    ∷ row "prototype-pollution" "sast_warnings.prototype_pollution" warning false
    ∷ row "crypto.weak-scrypt" "sast_warnings.weak_scrypt" warning true
    ∷ row "crypto.unsafe-prehash" "sast_warnings.unsafe_prehash" warning true
    ∷ row "crypto.weak-bcrypt" "sast_warnings.weak_bcrypt" warning true
    ∷ row "crypto.password-shucking" "sast_warnings.password_shucking" warning true
    ∷ row "unsafe-vm-context" "sast_warnings.unsafe_vm_context" warning false
    ∷ row "crypto.weak-argon2" "sast_warnings.weak_argon2" warning true
    ∷ []

abbrev pub optional_warning_names : List String
optional_warning_names =
    "synchronous-io" ∷ "log-usage" ∷ "insecure-random" ∷ "crypto.weak-scrypt"
    ∷ "crypto.unsafe-prehash" ∷ "crypto.weak-bcrypt" ∷ "crypto.password-shucking"
    ∷ "crypto.weak-argon2" ∷ []

-- `metadata`; `none` is its panic on an unknown kind.
unfoldable pub metadata : String → Option WarningData
metadata kind = find (λ data_. data_.name == kind) warnings

pub record GenerateWarningOptions : Type 0 where
  pub location : Option SourceLocation
  pub file : Option String
  pub value : Option String
  pub source : Option String
  pub severity : Option Severity

abbrev pub no_options : GenerateWarningOptions
no_options = record { location = none; file = none; value = none; source = none; severity = none }

abbrev pub warning_of : String → GenerateWarningOptions → WarningData → Warning
warning_of kind options data_ =
    let source = unwrap_or "JS-X-Ray" options.source in
    let location = to_array_location options.location in
    if kind == "encoded-literal"
    then record {
      kind = kind;
      file = none;
      value = options.value;
      source = source;
      location = multiple (location ∷ []);
      i18n = data_.i18n;
      severity = data_.severity;
      experimental = some data_.experimental;
    }
    else record {
      kind = kind;
      file = options.file;
      value = options.value;
      source = source;
      location = single location;
      i18n = data_.i18n;
      severity = unwrap_or data_.severity options.severity;
      experimental = some data_.experimental;
    }

-- `generate_warning`
unfoldable pub generate_warning : String → GenerateWarningOptions → Option Warning
unfolding metadata
generate_warning kind options = do data_ ← metadata kind; some (warning_of kind options data_)
