-- ===== src/Prelude/Text.antt =====
-- Rust's `str` operations on native texts, by recursion on the characters or by the native ones.
use Prim.Native.Nat.{ℕ, zero, suc, ◌-◌, ◌/◌, ◌%◌}
use Prim.Native.Char.{Char, code}
use Prim.Native.String.{String, len, slice, ◌++◌}
use mathlib.Core.Path.{◌≡◌, refl}
use mathlib.Core.Bool.{Bool, true, ◌||◌, ◌&&◌}
use mathlib.Core.Option.{Option, none, some}
use mathlib.Core.List.{List, [], ◌∷◌}
use text.Mathlib.Text.{◌==◌, find?, starts_with}
use js_x_ray_rs.Prelude.Tests.{eqb, ltb, leb, is_some, if◌then◌else◌}

-- The code points of a text.
abbrev pub codes : String → List ℕ
codes String.[] = []
codes (String.◌∷◌ c s) = code c ∷ codes s

infixr 65 ◌<>◌
abbrev pub ◌<>◌ : String → String → String
s <> t = s ++ t

abbrev pub onto_first : Char → List String → List String
onto_first c [] = String.◌∷◌ c String.[] ∷ []
onto_first c (s ∷ rest) = String.◌∷◌ c s ∷ rest

-- `split(separator)`: the texts between the separators, never an empty list.
unfoldable pub split : ℕ → String → List String
split separator String.[] = "" ∷ []
split separator (String.◌∷◌ c s) =
    let rest = split separator s in if eqb (code c) separator then "" ∷ rest else onto_first c rest

-- `join(separator)`.
unfoldable pub join : String → List String → String
join separator [] = ""
join separator (s ∷ []) = s
join separator (s ∷ t ∷ rest) = s <> separator <> join separator (t ∷ rest)

-- `concat()`.
unfoldable pub concat : List String → String
concat [] = ""
concat (s ∷ rest) = s <> concat rest

unfoldable pub contains_text : String → String → Bool
contains_text s t = is_some (find? s t)

unfoldable pub strip_prefix : String → String → Option String
strip_prefix s t = if starts_with s t then some (slice s (len t) (len s)) else none

unfoldable pub ends_with : String → String → Bool
ends_with s t = leb (len t) (len s) && slice s (len s - len t) (len s) == t

unfoldable pub strip_suffix : String → String → Option String
unfolding ends_with
strip_suffix s t = if ends_with s t then some (slice s 0 (len s - len t)) else none

abbrev first_of_split : List String → String
first_of_split [] = ""
first_of_split (s ∷ rest) = s

-- `split(separator).next().unwrap_or("")`.
unfoldable pub first_segment : ℕ → String → String
unfolding split
first_segment separator s = first_of_split (split separator s)

digit : ℕ → String
digit d =
    if eqb d 0
    then "0"
    else if eqb d 1
    then "1"
    else if eqb d 2
    then "2"
    else if eqb d 3
    then "3"
    else if eqb d 4
    then "4"
    else if eqb d 5
    then "5"
    else if eqb d 6
    then "6"
    else if eqb d 7
    then "7"
    else if eqb d 8
    then "8"
    else "9"

digits : ℕ → ℕ → String
unfolding digit
digits zero n = digit (n % 10)
digits (suc fuel) n =
    let rest = digits fuel (n / 10) in if ltb n 10 then digit n else rest <> digit (n % 10)

-- `to_string()` of an unsigned number: the fuel `n` is more than its digits.
unfoldable pub decimal : ℕ → String
unfolding digits
decimal n = digits n n

-- Unicode `White_Space`.
unfoldable pub is_whitespace : ℕ → Bool
is_whitespace c =
    leb 9 c && leb c 13
    || eqb c 32
    || eqb c 133
    || eqb c 160
    || eqb c 5760
    || leb 8192 c && leb c 8202
    || eqb c 8232
    || eqb c 8233
    || eqb c 8239
    || eqb c 8287
    || eqb c 12288

blank_codes : List ℕ → Bool
unfolding is_whitespace
blank_codes [] = true
blank_codes (c ∷ cs) = is_whitespace c && blank_codes cs

-- `trim().is_empty()`.
unfoldable pub is_blank : String → Bool
unfolding blank_codes
is_blank s = blank_codes (codes s)

split_dots : split b'.' "a.b..c" ≡ "a" ∷ "b" ∷ "" ∷ "c" ∷ []
unfolding split
split_dots = refl

decimal_runs : decimal 1203 ≡ "1203"
unfolding decimal
decimal_runs = refl

strip_suffix_runs : strip_suffix "fs/promises" "/promises" ≡ some "fs"
unfolding strip_suffix
strip_suffix_runs = refl
