-- ===== src/Utils/Hex/RoundTrip.antt =====
-- Encoding and decoding of bytes in hexadecimal (crates/js-x-ray/src/utils/hex.rs).
use js_x_ray_rs.Prelude.{ℕ, ◌+◌, ◌*◌, ◌/◌, ◌%◌, ◌<◌, ◌≡◌, refl, some, List, [], ◌∷◌, arith, All}
use js_x_ray_rs.Utils.Hex.{hex_digit, digit_value, pair_value, encode_bytes, decode_bytes}

digit_value-hex_digit : (d : ℕ) → d < 16 → digit_value (hex_digit d) ≡ some d
unfolding digit_value hex_digit
digit_value-hex_digit d h = ground arith

hex_digit-ne-plus : (d : ℕ) → hex_digit d ≡ b'+' → ⊥
unfolding hex_digit
hex_digit-ne-plus d h = ground arith

pair_value-hex_digit :
    (hi lo : ℕ) → hi < 16 → lo < 16 → pair_value (hex_digit hi) (hex_digit lo) ≡ some (16 * hi + lo)
unfolding pair_value
pair_value-hex_digit hi lo h k =
    ground (arith, digit_value-hex_digit hi, digit_value-hex_digit lo, hex_digit-ne-plus hi)

-- Decoding what was encoded from bytes gives the bytes back.
pub decode_bytes-encode_bytes :
    (bytes : List ℕ) → All (λ b. b < 256) bytes → decode_bytes (encode_bytes bytes) ≡ bytes
unfolding decode_bytes encode_bytes
decode_bytes-encode_bytes [] h = refl
decode_bytes-encode_bytes (b ∷ bs) h =
    ground (arith, pair_value-hex_digit (b / 16) (b % 16), decode_bytes-encode_bytes bs h.1)
