-- ===== src/Tracer/Base64/RoundTrip.antt =====
-- Decoding undoes the standard encoding in base 64 (crates/js-x-ray/src/variable_tracer.rs:
-- `base64_decode_to_string`).
use mathlib.Core.List.{append-nil, append_assoc}
use js_x_ray_rs.Prelude.{
  ℕ, ◌+◌, ◌-◌, ◌*◌, ◌/◌, ◌%◌, ◌^◌, ◌<◌, false, some, List, [], ◌∷◌, ◌++◌, ◌≡◌, refl, sym, ap, ◌∙◌,
  if◌then◌else◌, ltb, eqb, All, arith,
}
use js_x_ray_rs.Tracer.Base64.{sextet_of, Decoder, take_sextet, decode_codes, start}

-- The character of a sextet in the standard alphabet.
pub char_of : ℕ → ℕ
char_of s =
    if ltb s 26
    then s + b'A'
    else if ltb s 52
    then s - 26 + b'a'
    else if ltb s 62
    then s - 52 + b'0'
    else if eqb s 62
    then b'+'
    else b'/'

-- The encoding of bytes, padded at the end.
pub encode_codes : List ℕ → List ℕ
encode_codes [] = []
encode_codes (a ∷ []) = char_of (a / 4) ∷ char_of ((a % 4) * 16) ∷ b'=' ∷ b'=' ∷ []
encode_codes (a ∷ b ∷ []) =
    char_of (a / 4) ∷ char_of ((a % 4) * 16 + b / 16) ∷ char_of ((b % 16) * 4) ∷ b'=' ∷ []
encode_codes (a ∷ b ∷ c ∷ rest) =
    char_of (a / 4)
    ∷ char_of ((a % 4) * 16 + b / 16)
    ∷ char_of ((b % 16) * 4 + c / 64)
    ∷ char_of (c % 64)
    ∷ encode_codes rest

sextet_of-char_of : (s : ℕ) → s < 64 → sextet_of (char_of s) ≡ some s
unfolding sextet_of char_of
sextet_of-char_of s h = ground arith

char_of-ne-pad : (s : ℕ) → s < 64 → eqb (char_of s) b'=' ≡ false
unfolding char_of
char_of-ne-pad s h = ground arith

decode-char_of :
    (s : ℕ) (rest : List ℕ) (d : Decoder)
    → s < 64
    → decode_codes (char_of s ∷ rest) d ≡ decode_codes rest (take_sextet s d)
unfolding decode_codes
decode-char_of s rest d h = rw (char_of-ne-pad s h, sextet_of-char_of s h) refl

decode-pad : (rest : List ℕ) (d : Decoder) → decode_codes (b'=' ∷ rest) d ≡ d
unfolding decode_codes
decode-pad rest d = refl

-- What is shifted out of the `u32` is not needed.
abbrev shift : ℕ → ℕ → ℕ
shift buffer s = (buffer * 64) % 2 ^ 32 + s

first_byte :
    (buffer a s : ℕ)
    → a < 256
    → s < 16
    → shift (shift buffer (a / 4)) ((a % 4) * 16 + s) / 16 % 256 ≡ a
first_byte buffer a s h k = omega arith

second_byte :
    (buffer b s : ℕ)
    → buffer % 16 ≡ b / 16
    → b < 256
    → s < 4
    → shift buffer ((b % 16) * 4 + s) / 4 % 256 ≡ b
second_byte buffer b s low h k = omega arith

third_byte : (buffer c : ℕ) → buffer % 4 ≡ c / 64 → c < 256 → shift buffer (c % 64) / 1 % 256 ≡ c
third_byte buffer c low h = omega arith

abbrev at_byte : List ℕ → ℕ → Decoder
at_byte bytes buffer = record { bytes = bytes; buffer = buffer; bits = 0 }

two_sextets :
    (a s buffer : ℕ) (out rest : List ℕ)
    → a < 256
    → s < 16
    → decode_codes (char_of (a / 4) ∷ char_of ((a % 4) * 16 + s) ∷ rest) (at_byte out buffer)
      ≡ decode_codes rest (record {
        bytes = out ++ a ∷ [];
        buffer = shift (shift buffer (a / 4)) ((a % 4) * 16 + s);
        bits = 4;
      })
two_sextets a s buffer out rest h k =
    decode-char_of (a / 4) (char_of ((a % 4) * 16 + s) ∷ rest) (at_byte out buffer) (omega arith)
    ∙ decode-char_of ((a % 4) * 16 + s) rest (take_sextet (a / 4) (at_byte out buffer))
        (omega arith)
    ∙ ap
        (λ x. decode_codes rest (record {
          bytes = out ++ x ∷ [];
          buffer = shift (shift buffer (a / 4)) ((a % 4) * 16 + s);
          bits = 4;
        }))
        (first_byte buffer a s h k)

three_sextets :
    (a b s buffer : ℕ) (out rest : List ℕ)
    → a < 256
    → b < 256
    → s < 4
    → (buffer' : ℕ) × (buffer' % 4 ≡ s)
      × (decode_codes
            (char_of (a / 4) ∷ char_of ((a % 4) * 16 + b / 16) ∷ char_of ((b % 16) * 4 + s) ∷ rest)
            (at_byte out buffer)
          ≡ decode_codes rest
              (record { bytes = (out ++ a ∷ []) ++ b ∷ []; buffer = buffer'; bits = 2 }))
three_sextets a b s buffer out rest ha hb k =
    let two = shift (shift buffer (a / 4)) ((a % 4) * 16 + b / 16) in
    let three = shift two ((b % 16) * 4 + s) in
    (
      three,
      omega arith,
      two_sextets a (b / 16) buffer out (char_of ((b % 16) * 4 + s) ∷ rest) ha (omega arith)
          ∙ decode-char_of ((b % 16) * 4 + s) rest
              (record { bytes = out ++ a ∷ []; buffer = two; bits = 4 }) (omega arith)
          ∙ ap
              (λ x.
                decode_codes rest
                  (record { bytes = (out ++ a ∷ []) ++ x ∷ []; buffer = three; bits = 2 }))
              (second_byte two b s (omega arith) hb k),
    )

abbrev pads : List ℕ
pads = b'=' ∷ b'=' ∷ []

-- Decoding goes on behind what was decoded.
decode-encode_after :
    (l out : List ℕ) (buffer : ℕ)
    → All (λ b. b < 256) l
    → (decode_codes (encode_codes l) (at_byte out buffer)).bytes ≡ out ++ l
unfolding encode_codes decode_codes
decode-encode_after [] out buffer h = sym (append-nil out)
decode-encode_after (a ∷ []) out buffer h =
    let bare : (a % 4) * 16 ≡ (a % 4) * 16 + 0 = omega arith in
    ap (λ x. (decode_codes (char_of (a / 4) ∷ char_of x ∷ pads) (at_byte out buffer)).bytes) bare
    ∙ ap (λ (d : Decoder). d.bytes) (two_sextets a 0 buffer out pads h.0 (omega arith))
decode-encode_after (a ∷ b ∷ []) out buffer h =
    let (buffer', low, e) = three_sextets a b 0 buffer out (b'=' ∷ []) h.0 h.1.0 (omega arith) in
    let bare : (b % 16) * 4 ≡ (b % 16) * 4 + 0 = omega arith in
    ap
      (λ x.
        (decode_codes (char_of (a / 4) ∷ char_of ((a % 4) * 16 + b / 16) ∷ char_of x ∷ b'=' ∷ [])
          (at_byte out buffer)).bytes)
      bare
    ∙ ap (λ (d : Decoder). d.bytes) e
    ∙ append_assoc out (a ∷ []) (b ∷ [])
decode-encode_after (a ∷ b ∷ c ∷ l) out buffer h =
    let (buffer', low, e) =
      three_sextets a b (c / 64) buffer out (char_of (c % 64) ∷ encode_codes l) h.0 h.1.0
        (omega (arith, h.1.1.0)) in
    let d : Decoder = record { bytes = (out ++ a ∷ []) ++ b ∷ []; buffer = buffer'; bits = 2 } in
    let last = shift buffer' (c % 64) in
    ap (λ (d : Decoder). d.bytes)
      (e
        ∙ decode-char_of (c % 64) (encode_codes l) d (omega arith)
        ∙ ap (λ x. decode_codes (encode_codes l) (at_byte (d.bytes ++ x ∷ []) last))
            (third_byte buffer' c low h.1.1.0))
    ∙ decode-encode_after l (d.bytes ++ c ∷ []) last h.1.1.1
    ∙ simp append_assoc

-- Decoding the standard encoding of bytes, with its padding, gives the bytes back.
pub decode_codes-encode_codes :
    (l : List ℕ) → All (λ b. b < 256) l → (decode_codes (encode_codes l) start).bytes ≡ l
decode_codes-encode_codes l h = decode-encode_after l [] 0 h
