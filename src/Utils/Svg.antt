-- ===== src/Utils/Svg.antt =====
-- The scanner of XML documents: `XmlScanner` and `is_string_svg` of
-- crates/js-x-ray/src/utils/is_svg.rs, on the code points of a text. Which characters are alphabetic
-- and alphanumeric is Unicode's, and a parameter.
pub mod Scanning
pub mod Documents
pub mod Literals
use js_x_ray_rs.Prelude.{
  ℕ, zero, suc, ◌+◌, String, Bool, true, false, not, ◌&&◌, ◌||◌, Option, none, some, ◌>>=◌, List,
  [], ◌∷◌, ◌++◌, if◌then◌else◌, eqb, ltb, leb, length, codes, all, ◌≡◌, refl, is_some, is_some_and,
}

abbrev pub Text : Type 0
Text = List ℕ

abbrev pub is_xml_space : ℕ → Bool
is_xml_space c = eqb c b' ' || eqb c 9 || eqb c 13 || eqb c 10

-- `strip_prefix`, the other way round.
abbrev pub strip : Text → Text → Option Text
strip [] text = some text
strip (p ∷ ps) [] = none
strip (p ∷ ps) (c ∷ cs) = if eqb p c then strip ps cs else none

abbrev pub begins : String → Text → Bool
begins prefix text = is_some (strip (codes prefix) text)

-- What follows the first place where the marker stands.
unfoldable pub after : Text → Text → Option Text
after marker [] = none
after marker (c ∷ cs) = elim (strip marker (c ∷ cs)) [
  | some rest ↦ some rest
  | none ↦ after marker cs
]

unfoldable pub trim_start : Text → Text
trim_start [] = []
trim_start (c ∷ cs) = let rest = trim_start cs in if is_xml_space c then rest else c ∷ cs

unfoldable pub trim_end : Text → Text
trim_end [] = []
trim_end (c ∷ cs) =
    let rest = trim_end cs in if eqb (length rest) 0 && is_xml_space c then [] else c ∷ rest

unfoldable pub same_text : Text → Text → Bool
same_text [] [] = true
same_text [] (d ∷ ds) = false
same_text (c ∷ cs) [] = false
same_text (c ∷ cs) (d ∷ ds) = eqb c d && same_text cs ds

-- The depth is the `[` less the `]`.
unfoldable pub skip_doctype : ℕ → ℕ → Text → Option Text
skip_doctype opened closed [] = none
skip_doctype opened closed (c ∷ cs) =
    if eqb c b'>' && leb opened closed
    then some cs
    else skip_doctype (if eqb c b'[' then opened + 1 else opened)
        (if eqb c b']' then closed + 1 else closed) cs

-- What stands before the first character that does not pass, and the rest.
unfoldable pub span : (ℕ → Bool) → Text → Text × Text
span p [] = ([], [])
span p (c ∷ cs) = let (taken, rest) = span p cs in if p c then (c ∷ taken, rest) else ([], c ∷ cs)

unfoldable pub take_text : Text → Text × Text
unfolding span
take_text text = span (λ c. not (eqb c b'<')) text

pub record XmlScanner : Type 0 where
  pub rest : Text
  pub stack : List Text
  pub root_name : Option Text

abbrev pub new : Text → XmlScanner
new input = record { rest = input; stack = []; root_name = none }

-- The first of two names that is there.
abbrev pub or_first : Option Text → Text → Option Text
or_first none name = some name
or_first (some root) name = some root

abbrev pub go_on : XmlScanner → Option Text → Option XmlScanner
go_on s none = none
go_on s (some rest) = some (record s { rest = rest })

abbrev pub is_quote : ℕ → Bool
is_quote c = eqb c b'"' || eqb c 39

abbrev pub ends_attributes : Text → Bool
ends_attributes [] = true
ends_attributes (c ∷ cs) = eqb c b'/' || eqb c b'>'

-- A quoted value.
abbrev pub skip_value : Text → Option Text
unfolding after
skip_value [] = none
skip_value (quote ∷ rest) = if is_quote quote then after (quote ∷ []) rest else none

-- The end of a start tag: what follows it, and whether it closes itself.
abbrev pub tag_end : Text → Option (Text × Bool)
tag_end text = elim (strip (codes "/>") text) [
  | some rest ↦ some (rest, true)
  | none ↦ do rest ← strip (codes ">") text; some (rest, false)
]

abbrev pub popped : Text → List Text → Option (List Text)
unfolding same_text
popped name [] = none
popped name (top ∷ stack) = if same_text top name then some stack else none

abbrev pub pop : Text → Text → XmlScanner → Option XmlScanner
unfolding same_text
pop name rest s = do stack ← popped name s.stack; some (record s { rest = rest; stack = stack })

abbrev pub started : Text → Text → Bool → XmlScanner → XmlScanner
started name rest self_closing s = record {
  rest = rest;
  stack = if self_closing then s.stack else name ∷ s.stack;
  root_name = or_first s.root_name name;
}

abbrev pub scan_text : XmlScanner → Option XmlScanner
unfolding take_text
scan_text s =
    let (text, rest) = take_text s.rest in
    if eqb (length s.stack) 0 && not (all is_xml_space text)
    then none
    else some (record s { rest = rest })

-- What stands at the front of the text, and what follows its mark.
pub data Front : Type 0 where
  comment instruction doctype cdata end_tag start_tag : Text → Front
  words : Front

abbrev pub or_else : Option Front → Front → Front
or_else none f = f
or_else (some e) f = e

abbrev marked : String → (Text → Front) → Text → Option Front
marked mark front t = do rest ← strip (codes mark) t; some (front rest)

unfoldable pub front : Text → Front
front t = or_else (marked "<!--" comment t) (
    or_else (marked "<?" instruction t) (
      or_else (marked "<!DOCTYPE" doctype t) (
        or_else (marked "<!doctype" doctype t) (
          or_else (marked "<![CDATA[" cdata t)
            (or_else (marked "</" end_tag t) (or_else (marked "<" start_tag t) words))))))

module _ (is_alphabetic is_alphanumeric : ℕ → Bool) where
  abbrev pub is_name_start_char : ℕ → Bool
  is_name_start_char c = is_alphabetic c || eqb c b'_' || eqb c b':'

  abbrev pub is_name_char : ℕ → Bool
  is_name_char c = is_alphanumeric c || eqb c b'_' || eqb c b'-' || eqb c b'.' || eqb c b':'

  unfoldable pub parse_name : Text → Option (Text × Text)
  unfolding span
  parse_name [] = none
  parse_name (first ∷ cs) =
      let (taken, rest) = span is_name_char cs in
      if is_name_start_char first then some (first ∷ taken, rest) else none

  -- One attribute, after the space before it.
  abbrev pub skip_attribute : Text → Option Text
  unfolding parse_name trim_start after
  skip_attribute text = do
    (name, named) ← parse_name text
    assigned ← strip (codes "=") (trim_start named)
    skip_value (trim_start assigned)

  unfoldable pub skip_attributes_with : ℕ → Text → Option Text
  unfolding trim_start parse_name after
  skip_attributes_with zero text = none
  skip_attributes_with (suc fuel) text =
      let trimmed = trim_start text in
      let next = skip_attribute trimmed >>= skip_attributes_with fuel in
      if ends_attributes trimmed then some trimmed else next

  -- An attribute is not empty.
  unfoldable pub skip_attributes : Text → Option Text
  unfolding skip_attributes_with
  skip_attributes text = skip_attributes_with (suc (length text)) text

  -- `parse_start_tag`, after the `<`.
  unfoldable pub parse_start_tag : Text → XmlScanner → Option XmlScanner
  unfolding parse_name skip_attributes trim_start
  parse_start_tag text s = do
    (name, named) ← parse_name text
    attributes ← skip_attributes named
    (rest, self_closing) ← tag_end (trim_start attributes)
    some (started name rest self_closing s)

  -- `parse_end_tag`, after the `</`.
  unfoldable pub parse_end_tag : Text → XmlScanner → Option XmlScanner
  unfolding parse_name trim_start same_text
  parse_end_tag text s = do
    (name, named) ← parse_name text
    rest ← strip (codes ">") (trim_start named)
    pop name rest s

  -- A round of the loop.
  abbrev pub scan : Front → XmlScanner → Option XmlScanner
  unfolding after skip_doctype parse_start_tag parse_end_tag take_text
  scan (comment rest) s = go_on s (after (codes "-->") rest)
  scan (instruction rest) s = go_on s (after (codes "?>") rest)
  scan (doctype rest) s = go_on s (skip_doctype 0 0 rest)
  scan (cdata rest) s = go_on s (after (codes "]]>") rest)
  scan (end_tag rest) s = parse_end_tag rest s
  scan (start_tag rest) s = parse_start_tag rest s
  scan words s = scan_text s

  abbrev pub accepted : XmlScanner → Option Text
  accepted s = if eqb (length s.stack) 0 then s.root_name else none

  unfoldable pub parse_with : ℕ → XmlScanner → Option Text
  unfolding front after skip_doctype parse_start_tag parse_end_tag take_text
  parse_with zero s = none
  parse_with (suc fuel) s =
      let next = scan (front s.rest) s >>= parse_with fuel in
      if eqb (length s.rest) 0 then accepted s else next

  -- A round takes a character at least.
  unfoldable pub parse : XmlScanner → Option Text
  unfolding parse_with
  parse s = parse_with (suc (length s.rest)) s

  abbrev lower : ℕ → ℕ
  lower c = if leb b'A' c && leb c b'Z' then c + 32 else c

  abbrev pub eq_ignore_ascii_case : Text → Text → Bool
  eq_ignore_ascii_case [] [] = true
  eq_ignore_ascii_case [] (d ∷ ds) = false
  eq_ignore_ascii_case (c ∷ cs) [] = false
  eq_ignore_ascii_case (c ∷ cs) (d ∷ ds) = eqb (lower c) (lower d) && eq_ignore_ascii_case cs ds

  unfoldable pub is_string_svg : String → Bool
  unfolding parse trim_start trim_end
  is_string_svg input =
      let trimmed = trim_start (trim_end (codes input)) in
      if eqb (length trimmed) 0
      then false
      else is_some_and (λ root_name. eq_ignore_ascii_case root_name (codes "svg"))
          (parse (new trimmed))

abbrev ascii_letter : ℕ → Bool
ascii_letter c = leb b'a' c && leb c b'z' || leb b'A' c && leb c b'Z'

svg_runs :
    is_string_svg ascii_letter ascii_letter "<?x?><svg a=\"1\"><g/>t<!-- c --></svg> <rect/>" ≡ true
unfolding is_string_svg
svg_runs = refl

unclosed_runs : is_string_svg ascii_letter ascii_letter "<svg><rect></svg>" ≡ false
unfolding is_string_svg
unclosed_runs = refl
