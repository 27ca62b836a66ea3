-- ===== src/Utils/Svg/Documents.antt =====
-- What a document is that the scanner accepts: its tags are nested
-- (crates/js-x-ray/src/utils/is_svg.rs).
pub mod Nested
pub mod Sound
pub mod Complete
use mathlib.Core.List.{append_assoc}
use js_x_ray_rs.Prelude.{
  ℕ, zero, suc, ◌+◌, ◌≤◌, ◌<◌, Bool, true, false, not, ◌&&◌, Option, none, some, ◌>>=◌, List, [],
  ◌∷◌, ◌++◌, ◌≡◌, refl, sym, ap, ◌∙◌, subst, if◌then◌else◌, eqb, length, length-append, codes, all,
  arith, Bool-cases, Option-cases, inl, inr, >>=-eq-some, option_map,
}
use js_x_ray_rs.Utils.Svg.{
  Text, XmlScanner, new, strip, after, trim_start, skip_doctype, take_text, go_on, tag_end,
  parse_name, skip_attributes, parse_start_tag, started, popped, pop, parse_end_tag, scan_text,
  Front, comment, instruction, doctype, cdata, end_tag, start_tag, words, front, scan, accepted,
  parse_with, parse, same_text, is_xml_space, or_first,
}

-- What stands at the front of a text: nothing that counts, text outside of tags and whether it is
-- blank, or a tag.
pub data Token : Type 0 where
  silent : Token
  outside : Bool → Token
  opens closes alone : Text → Token

abbrev silently : Option Text → Option (Token × Text)
silently none = none
silently (some rest) = some (silent, rest)

module _ (is_alphabetic is_alphanumeric : ℕ → Bool) where
  unfoldable pub token_at : Front → Text → Option (Token × Text)
  unfolding after skip_doctype parse_name trim_start skip_attributes take_text
  token_at (comment r) t = silently (after (codes "-->") r)
  token_at (instruction r) t = silently (after (codes "?>") r)
  token_at (doctype r) t = silently (skip_doctype 0 0 r)
  token_at (cdata r) t = silently (after (codes "]]>") r)
  token_at (end_tag r) t = do
    (name, named) ← parse_name is_alphabetic is_alphanumeric r
    rest ← strip (codes ">") (trim_start named)
    some (closes name, rest)
  token_at (start_tag r) t = do
    (name, named) ← parse_name is_alphabetic is_alphanumeric r
    attributes ← skip_attributes is_alphabetic is_alphanumeric named
    (rest, self_closing) ← tag_end (trim_start attributes)
    some (if self_closing then alone name else opens name, rest)
  token_at words t = some (outside (all is_xml_space (take_text t).0), (take_text t).1)

  -- The tokens of a text, without regard to how they are nested.
  pub data Lexes : Text → List Token → Type 0 where
    end_ : Lexes [] []
    more :
        {t rest : Text} {token : Token} {tokens : List Token}
        → 0 < length t
        → token_at (front t) t ≡ some (token, rest)
        → Lexes rest tokens
        → Lexes t (token ∷ tokens)

-- The tokens are nested, below the tags that are open.
unfoldable pub Accepts : List Text → List Token → Type 0
Accepts [] [] = Unit
Accepts (name ∷ names) [] = ⊥
Accepts stack (silent ∷ l) = Accepts stack l
Accepts [] (outside blank ∷ l) = (blank ≡ true) × Accepts [] l
Accepts (name ∷ names) (outside blank ∷ l) = Accepts (name ∷ names) l
Accepts stack (opens name ∷ l) = Accepts (name ∷ stack) l
Accepts stack (alone name ∷ l) = Accepts stack l
Accepts [] (closes name ∷ l) = ⊥
Accepts (top ∷ names) (closes name ∷ l) = (same_text top name ≡ true) × Accepts names l

-- The content of an element.
pub data Content : List Token → Type 0 where
  empty : Content []
  silence : {l : List Token} → Content l → Content (silent ∷ l)
  text : {b : Bool} {l : List Token} → Content l → Content (outside b ∷ l)
  single : {name : Text} {l : List Token} → Content l → Content (alone name ∷ l)
  element :
      {name : Text} {m : List Token} (end_name : Text) (inner l : List Token)
      → Content inner
      → same_text name end_name ≡ true
      → Content l
      → m ≡ inner ++ closes end_name ∷ l
      → Content (opens name ∷ m)

-- A document: outside of its elements there is only blank text.
pub data Document : List Token → Type 0 where
  empty : Document []
  silence : {l : List Token} → Document l → Document (silent ∷ l)
  blank : {b : Bool} {l : List Token} → b ≡ true → Document l → Document (outside b ∷ l)
  single : {name : Text} {l : List Token} → Document l → Document (alone name ∷ l)
  element :
      {name : Text} {m : List Token} (end_name : Text) (inner l : List Token)
      → Content inner
      → same_text name end_name ≡ true
      → Document l
      → m ≡ inner ++ closes end_name ∷ l
      → Document (opens name ∷ m)

-- The name of the first tag.
unfoldable pub first_name : List Token → Option Text
first_name [] = none
first_name (silent ∷ l) = first_name l
first_name (outside b ∷ l) = first_name l
first_name (opens name ∷ l) = some name
first_name (alone name ∷ l) = some name
first_name (closes name ∷ l) = first_name l
