-- ===== src/Utils/Svg/Documents/Nested.antt =====
-- Tokens that are nested below no open tag are a document (crates/js-x-ray/src/utils/is_svg.rs).
use mathlib.Core.List.{append_assoc}
use js_x_ray_rs.Prelude.{
  ℕ, zero, suc, ◌<◌, true, List, [], ◌∷◌, ◌++◌, ◌≡◌, refl, sym, ap, ◌∙◌, length, length-append,
  arith,
}
use js_x_ray_rs.Utils.Svg.{Text, same_text}
use js_x_ray_rs.Utils.Svg.Documents.{
  Token, silent, outside, opens, closes, alone, Accepts, Content, Document, empty, silence, text,
  single, element, blank,
}

-- Up to the end tag of the innermost open tag there is content.
record Split (top : Text) (names : List Text) (l : List Token) : Type 0 where
  inner : List Token
  end_name : Text
  rest : List Token
  parts : l ≡ inner ++ closes end_name ∷ rest
  content : Content inner
  same : same_text top end_name ≡ true
  accepts : Accepts names rest

-- A token before it that is not an end tag belongs to the content.
Split-cons :
    (top : Text) (names : List Text) (token : Token) (l : List Token)
    → (s : Split top names l) → Content (token ∷ s.inner)
    → Split top names (token ∷ l)
Split-cons top names token l s c = record {
  inner = token ∷ s.inner;
  end_name = s.end_name;
  rest = s.rest;
  parts = ap (λ m. token ∷ m) s.parts;
  content = c;
  same = s.same;
  accepts = s.accepts;
}

rest-shorter :
    (l inner rest : List Token) (token : Token) → l ≡ inner ++ token ∷ rest → length rest < length l
rest-shorter l inner rest token e =
    omega (arith, ap (λ m. length m) e, length-append inner (token ∷ rest))

Accepts-Split :
    (n : ℕ) (top : Text) (names : List Text) (l : List Token)
    → length l < n
    → Accepts (top ∷ names) l
    → Split top names l
unfolding Accepts
Accepts-Split zero top names l k h = absurd (omega arith)
Accepts-Split (suc n) top names [] k h = absurd h
Accepts-Split (suc n) top names (silent ∷ l) k h =
    let s = Accepts-Split n top names l (omega arith) h in
    Split-cons top names silent l s (silence s.content)
Accepts-Split (suc n) top names (outside b ∷ l) k h =
    let s = Accepts-Split n top names l (omega arith) h in
    Split-cons top names (outside b) l s (text s.content)
Accepts-Split (suc n) top names (alone name ∷ l) k h =
    let s = Accepts-Split n top names l (omega arith) h in
    Split-cons top names (alone name) l s (single s.content)
Accepts-Split (suc n) top names (closes name ∷ l) k h = record {
  inner = [];
  end_name = name;
  rest = l;
  parts = refl;
  content = empty;
  same = h.0;
  accepts = h.1;
}
Accepts-Split (suc n) top names (opens name ∷ l) k h =
    let s = Accepts-Split n name (top ∷ names) l (omega arith) h in
    let shorter = rest-shorter l s.inner s.rest (closes s.end_name) s.parts in
    let t = Accepts-Split n top names s.rest (omega (arith, shorter)) s.accepts in
    record {
      inner = opens name ∷ (s.inner ++ closes s.end_name ∷ t.inner);
      end_name = t.end_name;
      rest = t.rest;
      parts =
          ap (λ m. opens name ∷ m)
            (s.parts
              ∙ ap (λ m. s.inner ++ closes s.end_name ∷ m) t.parts
              ∙ sym (
                  append_assoc s.inner (closes s.end_name ∷ t.inner) (closes t.end_name ∷ t.rest)));
      content = element s.end_name s.inner t.inner s.content s.same t.content refl;
      same = t.same;
      accepts = t.accepts;
    }

-- Nested tokens without an open tag are a document.
pub Accepts-Document : (n : ℕ) (l : List Token) → length l < n → Accepts [] l → Document l
unfolding Accepts
Accepts-Document zero l k h = absurd (omega arith)
Accepts-Document (suc n) [] k h = empty
Accepts-Document (suc n) (silent ∷ l) k h = silence (Accepts-Document n l (omega arith) h)
Accepts-Document (suc n) (outside b ∷ l) k h = blank h.0 (Accepts-Document n l (omega arith) h.1)
Accepts-Document (suc n) (alone name ∷ l) k h = single (Accepts-Document n l (omega arith) h)
Accepts-Document (suc n) (closes name ∷ l) k h = absurd h
Accepts-Document (suc n) (opens name ∷ l) k h =
    let s = Accepts-Split (suc (length l)) name [] l (omega arith) h in
    let shorter = rest-shorter l s.inner s.rest (closes s.end_name) s.parts in
    element s.end_name s.inner s.rest s.content s.same
      (Accepts-Document n s.rest (omega (arith, shorter)) s.accepts) s.parts
