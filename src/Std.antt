-- ===== src/Std.antt =====
-- What the code takes from the standard library and from `serde_json` that is not spelled out here:
-- printing and reading of floats, Unicode tables, UTF-8 and UTF-16 decoding, and the JSON printer; and
-- the matching of regular expressions, from the crate `regex`.
-- Every definition that calls one of these takes this record.
use Prim.Native.Nat.{ℕ}
use Prim.Native.String.{String}
use mathlib.Core.Option.{Option}
use mathlib.Core.List.{List}
use mathlib.Core.Bool.{Bool}
use js_x_ray_rs.Json.{Value, Number}

pub record Std : Type 0 where
  -- How `js_number_string` prints the `f64` of these bits.
  pub float_text : ℕ → String
  -- `Value::to_string` of an array or an object.
  pub json_text : Value → String
  -- `str::parse::<f64>`.
  pub parse_f64 : String → Option Number
  -- `(n.as_f64() as i64).rem_euclid(65536)`.
  pub utf16_unit : Number → ℕ
  -- `char::decode_utf16` of one unit, U+FFFD for a surrogate.
  pub unit_text : ℕ → String
  -- `String::from_utf8_lossy`.
  pub utf8_lossy : List ℕ → String
  -- `str::to_lowercase`.
  pub lowercase : String → String
  -- `char::is_alphabetic` and `char::is_alphanumeric`.
  pub is_alphabetic : ℕ → Bool
  pub is_alphanumeric : ℕ → Bool
  -- `Regex::new(pattern).is_match(text)`, on the code points of the text.
  pub is_match : String → List ℕ → Bool
  -- `Regex::new(pattern).replace_all(text, by)`.
  pub replace_all : String → String → String → String
  -- How `{}` prints the `f64` quotient of two whole numbers that does not come out even.
  pub quotient_text : ℕ → ℕ → String
