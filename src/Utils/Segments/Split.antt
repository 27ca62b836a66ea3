-- ===== src/Utils/Segments/Split.antt =====
-- Joining and splitting at a dot (crates/js-x-ray/src/utils/get_sub_member_expression_segments.rs).
use Prim.Native.Char.{code}
use text.Mathlib.TextLemmas.{nil-append, cons-append}
use js_x_ray_rs.Prelude.{
  ℕ, zero, suc, String, Bool, true, false, none, some, option_map, if◌then◌else◌, ltb, length, take,
  get_elem?, arith, List, [], ◌∷◌, All, ◌<>◌, eqb, map, split, join, ◌≡◌, refl, ap, ◌∙◌,
}
use js_x_ray_rs.Utils.Segments.{beginnings, get_sub_member_expression_segments}

-- No character of the text is a dot.
abbrev pub HasNoDot : String → Type 0
HasNoDot String.[] = Unit
HasNoDot (String.◌∷◌ c s) = (eqb (code c) b'.' ≡ false) × HasNoDot s

split_last : (s : String) → HasNoDot s → split b'.' s ≡ s ∷ []
unfolding split
split_last String.[] h = refl
split_last (String.◌∷◌ c s) h = rw (h.0, split_last s h.1) refl

-- A text that begins with a dot splits there.
dot_first : (t : String) → split b'.' ("." <> t) ≡ "" ∷ split b'.' t
unfolding split
dot_first t =
    ap (split b'.') (cons-append _ String.[] t) ∙ ap (λ u. "" ∷ split b'.' u) (nil-append t)

split_dot : (s t : String) → HasNoDot s → split b'.' (s <> "." <> t) ≡ s ∷ split b'.' t
unfolding split
split_dot String.[] t h = ap (split b'.') (nil-append ("." <> t)) ∙ dot_first t
split_dot (String.◌∷◌ c s) t h =
    ap (split b'.') (cons-append c s ("." <> t)) ∙ (rw (h.0, split_dot s t h.1) refl)

-- Splitting at dots undoes joining by dots, where no part has a dot.
pub split-join :
    (s : String) (rest : List String)
    → HasNoDot s
    → All HasNoDot rest
    → split b'.' (join "." (s ∷ rest)) ≡ s ∷ rest
unfolding join
split-join s [] h hs = split_last s h
split-join s (t ∷ rest) h hs =
    split_dot s (join "." (t ∷ rest)) h ∙ ap (λ l. s ∷ l) (split-join t rest hs.0 hs.1)

module _ {ℓ κ} {A : Type ℓ} {B : Type κ} (f : A → B) where
  option_map-if :
      (test : Bool) (x : A)
      → option_map f (if test then some x else none) ≡ (if test then some (f x) else none)
  option_map-if true x = refl
  option_map-if false x = refl

  get_elem?-map : (l : List A) (i : ℕ) → get_elem? (map f l) i ≡ option_map f (get_elem? l i)
  get_elem?-map [] i = refl
  get_elem?-map (x ∷ l) zero = refl
  get_elem?-map (x ∷ l) (suc i) = get_elem?-map l i

ltb-suc : (m n : ℕ) → ltb m n ≡ ltb (suc m) (suc n)
ltb-suc m n = ground arith

get_elem?-beginnings :
    (l : List String) (i : ℕ)
    → get_elem? (beginnings l) i ≡ (if ltb (suc i) (length l) then some (take (suc i) l) else none)
get_elem?-beginnings [] i = ground arith
get_elem?-beginnings (s ∷ []) i = ground arith
get_elem?-beginnings (s ∷ t ∷ rest) zero = ground arith
get_elem?-beginnings (s ∷ t ∷ rest) (suc i) =
    get_elem?-map (λ begin. s ∷ begin) (beginnings (t ∷ rest)) i
    ∙ ap (option_map (λ begin. s ∷ begin)) (get_elem?-beginnings (t ∷ rest) i)
    ∙ option_map-if (λ begin. s ∷ begin) (ltb (suc i) (length (t ∷ rest))) (take (suc i) (t ∷ rest))
    ∙ ap (λ test. if test then some (s ∷ take (suc i) (t ∷ rest)) else none)
        (ltb-suc (suc i) (length (t ∷ rest)))

-- Of a path whose parts have no dot, the segment at a place is that many of the first parts and one
-- more, joined by dots, where they are not all the parts; and there is no segment past these.
pub get_sub_member_expression_segments-join :
    (s : String) (rest : List String) (i : ℕ)
    → HasNoDot s
    → All HasNoDot rest
    → get_elem? (get_sub_member_expression_segments (join "." (s ∷ rest))) i ≡ (
        if ltb (suc i) (length (s ∷ rest)) then some (join "." (take (suc i) (s ∷ rest))) else none)
unfolding get_sub_member_expression_segments
get_sub_member_expression_segments-join s rest i h hs =
    ap (λ l. get_elem? (map (join ".") (beginnings l)) i) (split-join s rest h hs)
    ∙ get_elem?-map (join ".") (beginnings (s ∷ rest)) i
    ∙ ap (option_map (join ".")) (get_elem?-beginnings (s ∷ rest) i)
    ∙ option_map-if (join ".") (ltb (suc i) (length (s ∷ rest))) (take (suc i) (s ∷ rest))
