-- ===== src/Utils/Hex.antt =====
-- Hexadecimal texts: crates/js-x-ray/src/utils/hex.rs. A text is read by its code points: up to the
-- first that is no ASCII digit these are its bytes.
pub mod RoundTrip
use Prim.Native.String.{len}
use text.Mathlib.Text.{starts_with}
use js_x_ray_rs.Prelude.{
  ℕ, zero, suc, ◌+◌, ◌-◌, ◌*◌, ◌/◌, ◌%◌, String, Bool, true, false, Option, none, some, List, [],
  ◌∷◌, ◌++◌, ◌==◌, ◌&&◌, ◌||◌, not, codes, leb, ltb, eqb, any, all, is_some, if◌then◌else◌, ◌>>=◌,
  ◌≡◌, refl, map, length,
}
use js_x_ray_rs.Json.{Value}
use js_x_ray_rs.Std.{Std}
use js_x_ray_rs.Estree.Literal.{to_raw, to_value}

-- `format!("{b:02x}")`, one digit.
unfoldable pub hex_digit : ℕ → ℕ
hex_digit d = if ltb d 10 then d + 48 else d + 87

unfoldable pub encode_bytes : List ℕ → List ℕ
unfolding hex_digit
encode_bytes [] = []
encode_bytes (b ∷ bs) = hex_digit (b / 16) ∷ hex_digit (b % 16) ∷ encode_bytes bs

-- `b.is_ascii_hexdigit()`, and the value of the digit.
unfoldable pub digit_value : ℕ → Option ℕ
digit_value c =
    if leb 48 c && leb c 57
    then some (c - 48)
    else if leb 97 c && leb c 102
    then some (c - 87)
    else if leb 65 c && leb c 70
    then some (c - 55)
    else none

-- `u8::from_str_radix(pair, 16)`, which takes a leading `+`.
unfoldable pub pair_value : ℕ → ℕ → Option ℕ
unfolding digit_value
pair_value c d =
    if eqb c b'+'
    then digit_value d
    else do hi ← digit_value c; lo ← digit_value d; some (16 * hi + lo)

abbrev push_front : Option ℕ → List ℕ → List ℕ
push_front none rest = []
push_front (some b) rest = b ∷ rest

-- The bytes of `decode_hex_lossy`: whole pairs, up to the first that is no byte.
unfoldable pub decode_bytes : List ℕ → List ℕ
unfolding pair_value
decode_bytes [] = []
decode_bytes (c ∷ []) = []
decode_bytes (c ∷ d ∷ rest) = push_front (pair_value c d) (decode_bytes rest)

unfoldable pub decode_hex_lossy : Std → String → String
unfolding decode_bytes
decode_hex_lossy std value = std.utf8_lossy (decode_bytes (codes value))

unfoldable pub is_hex_str : String → Bool
unfolding digit_value
is_hex_str value = leb 4 (len value) && all (λ c. is_some (digit_value c)) (codes value)

unfoldable pub is_hex : Std → Value → Bool
unfolding is_hex_str to_value
is_hex std any_value = is_hex_str (to_value std any_value)

-- `/^([0-9]+|[a-z]+|[A-Z]+)$/`
unfoldable pub is_single_class : String → Bool
is_single_class value =
    not (value == "")
    && (all (λ c. leb 48 c && leb c 57) (codes value)
        || all (λ c. leb 97 c && leb c 122) (codes value)
        || all (λ c. leb 65 c && leb c 90) (codes value))

-- The distinct code points, each at its first place.
unfoldable pub distinct : List ℕ → List ℕ
distinct [] = []
distinct (c ∷ cs) = let rest = distinct cs in if any (λ d. eqb d c) rest then rest else c ∷ rest

-- `string_char_diversity(value, &[])` of utils/string_suspicion_score.rs.
unfoldable pub string_char_diversity : String → ℕ
unfolding distinct
string_char_diversity value = length (distinct (codes value))

abbrev pub safe_hex_values : List String
safe_hex_values =
    "0123456789" ∷ "123456789" ∷ "abcdef" ∷ "abc123456789" ∷ "0123456789abcdef"
    ∷ "abcdef0123456789abcdef" ∷ []

-- "require" and "length", in hexadecimal.
abbrev pub unsafe_hex_values : List String
unsafe_hex_values = "72657175697265" ∷ "6c656e677468" ∷ []

abbrev is_safe_raw : Std → String → Bool
unfolding is_single_class string_char_diversity
is_safe_raw std raw_value =
    if any (λ v. v == raw_value) unsafe_hex_values
    then false
    else if is_single_class raw_value
        || leb (len raw_value) 5
        || leb (string_char_diversity raw_value) 2
    then true
    else any (λ value. starts_with (std.lowercase raw_value) value) safe_hex_values

-- `Hex.isSafe`.
unfoldable pub is_safe : Std → Value → Bool
unfolding is_single_class string_char_diversity to_raw
is_safe std any_value = elim (to_raw any_value) [
  | none ↦ false
  | some raw_value ↦ is_safe_raw std raw_value
]

unsafe_values_runs :
    (encode_bytes (codes "require") ≡ codes "72657175697265")
    × (encode_bytes (codes "length") ≡ codes "6c656e677468")
unfolding encode_bytes
unsafe_values_runs = (refl, refl)
