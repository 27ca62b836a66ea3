-- ===== src/Estree/Literal.antt =====
-- Coercions of literals: crates/js-x-ray/src/estree/literal.rs. How a float is printed and how a
-- composite value is written as JSON is left to a parameter.
use Prim.Native.Nat.{◌+◌}
use js_x_ray_rs.Prelude.{String, true, false, Option, some, ◌<>◌, decimal, unwrap_or}
use js_x_ray_rs.Std.{Std}
use js_x_ray_rs.Json.{
  Value, Number, null, bool, number, string, unsigned, negative, float, get, get_str,
}

module _ (std : Std) where
  unfoldable pub js_number_string : Number → String
  unfolding decimal
  js_number_string (unsigned n) = decimal n
  js_number_string (negative n) = "-" <> decimal (n + 1)
  js_number_string (float bits) = std.float_text bits

  -- `String(value)`.
  unfoldable pub js_string : Value → String
  unfolding js_number_string
  js_string null = "null"
  js_string (bool true) = "true"
  js_string (bool false) = "false"
  js_string (number n) = js_number_string n
  js_string (string s) = s
  js_string other = std.json_text other

  -- `toValue`.
  unfoldable pub to_value : Value → String
  unfolding js_string get
  to_value (string s) = s
  to_value node = js_string (unwrap_or null (get "value" node))

-- `toRaw`.
unfoldable pub to_raw : Value → Option String
unfolding get_str
to_raw (string s) = some s
to_raw node = get_str "raw" node
