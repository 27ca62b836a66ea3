-- ===== src/Tracer/Base64.antt =====
-- `base64_decode_to_string` of crates/js-x-ray/src/variable_tracer.rs. A byte that is not ASCII is in no
-- range, so code points stand for bytes.
pub mod RoundTrip
use js_x_ray_rs.Prelude.{
  ℕ, ◌+◌, ◌-◌, ◌*◌, ◌/◌, ◌%◌, ◌^◌, String, Bool, true, Option, none, some, List, [], ◌∷◌, ◌++◌, ◌≡◌,
  refl, if◌then◌else◌, leb, eqb, ◌&&◌, ◌||◌, codes,
}
use js_x_ray_rs.Std.{Std}

abbrev between : ℕ → ℕ → ℕ → Bool
between low high c = leb low c && leb c high

unfoldable pub sextet_of : ℕ → Option ℕ
sextet_of c =
    if between b'A' b'Z' c
    then some (c - b'A')
    else if between b'a' b'z' c
    then some (c - b'a' + 26)
    else if between b'0' b'9' c
    then some (c - b'0' + 52)
    else if eqb c b'+' || eqb c b'-'
    then some 62
    else if eqb c b'/' || eqb c b'_'
    then some 63
    else none

-- The loop: `buffer` is a `u32`, of which `bits` are left.
pub record Decoder : Type 0 where
  pub bytes : List ℕ
  pub buffer : ℕ
  pub bits : ℕ

abbrev pub take_sextet : ℕ → Decoder → Decoder
take_sextet sextet d =
    let buffer = (d.buffer * 64) % 2 ^ 32 + sextet in
    let bits = d.bits + 6 in
    if leb 8 bits
    then record {
      bytes = d.bytes ++ ((buffer / 2 ^ (bits - 8)) % 256) ∷ [];
      buffer = buffer;
      bits = bits - 8;
    }
    else record d { buffer = buffer; bits = bits }

unfoldable pub decode_codes : List ℕ → Decoder → Decoder
unfolding sextet_of
decode_codes [] d = d
decode_codes (c ∷ rest) d =
    let next =
      decode_codes rest (elim (sextet_of c) [ none ↦ d | some sextet ↦ take_sextet sextet d ]) in
    if eqb c b'=' then d else next

abbrev pub start : Decoder
start = record { bytes = []; buffer = 0; bits = 0 }

unfoldable pub base64_decode_to_string : Std → String → String
unfolding decode_codes
base64_decode_to_string std input = std.utf8_lossy (decode_codes (codes input) start).bytes

decode_runs : (decode_codes (codes "SGk=SGk") start).bytes ≡ b'H' ∷ b'i' ∷ []
unfolding decode_codes
decode_runs = refl
