-- ===== src/Utils/Svg/Documents/Sound.antt =====
-- What the scanner accepts is a document (crates/js-x-ray/src/utils/is_svg.rs: `parse`).
use js_x_ray_rs.Prelude.{
  ℕ, zero, suc, Bool, true, false, not, ◌&&◌, Option, none, some, ◌>>=◌, List, [], ◌∷◌, ◌≡◌, refl,
  sym, ap, ◌∙◌, subst, if◌then◌else◌, eqb, length, codes, arith, Bool-cases, Option-cases, inl, inr,
  >>=-eq-some,
}
use js_x_ray_rs.Utils.Svg.{
  Text, XmlScanner, new, strip, after, trim_start, skip_doctype, go_on, tag_end, parse_name,
  skip_attributes, parse_start_tag, started, popped, pop, parse_end_tag, scan_text, Front, comment,
  instruction, doctype, cdata, end_tag, start_tag, words, front, scan, accepted, parse_with, parse,
  same_text, or_first,
}
use js_x_ray_rs.Utils.Svg.Documents.{
  Token, silent, outside, opens, closes, alone, token_at, silently, Lexes, end_, more, Accepts,
  Document, first_name,
}
use js_x_ray_rs.Utils.Svg.Documents.Nested.{Accepts-Document}

-- What a token does to the scanner.
unfoldable pub act : Token → Text → XmlScanner → Option XmlScanner
unfolding same_text
act silent rest s = some (record s { rest = rest })
act (outside b) rest s =
    if eqb (length s.stack) 0 && not b then none else some (record s { rest = rest })
act (opens name) rest s = some (started name rest false s)
act (alone name) rest s = some (started name rest true s)
act (closes name) rest s = pop name rest s

unfoldable pub act_on : XmlScanner → Token × Text → Option XmlScanner
unfolding act
act_on s (token, rest) = act token rest s

go_on-silently : (s : XmlScanner) (o : Option Text) → go_on s o ≡ (silently o >>= act_on s)
unfolding act_on act
go_on-silently s none = refl
go_on-silently s (some rest) = refl

closing-act :
    (name rest : Text) (self_closing : Bool) (s : XmlScanner)
    → some (started name rest self_closing s)
      ≡ act_on s (if self_closing then alone name else opens name, rest)
unfolding act_on act
closing-act name rest true s = refl
closing-act name rest false s = refl

module _ (is_alphabetic is_alphanumeric : ℕ → Bool) where
  end_tag-act :
      (r : Text) (s : XmlScanner)
      → parse_end_tag is_alphabetic is_alphanumeric r s
        ≡ (token_at is_alphabetic is_alphanumeric (end_tag r) s.rest >>= act_on s)
  unfolding parse_end_tag token_at act_on act
  end_tag-act r s = elim (Option-cases (parse_name is_alphabetic is_alphanumeric r)) [
    | inl e ↦ rw e refl
    | inr ((name, named), e) ↦ elim (Option-cases (strip (codes ">") (trim_start named))) [
      | inl e' ↦ rw (e, e') refl
      | inr (rest, e') ↦ rw (e, e') refl
    ]
  ]

  start_tag-act :
      (r : Text) (s : XmlScanner)
      → parse_start_tag is_alphabetic is_alphanumeric r s
        ≡ (token_at is_alphabetic is_alphanumeric (start_tag r) s.rest >>= act_on s)
  unfolding parse_start_tag token_at act_on
  start_tag-act r s = elim (Option-cases (parse_name is_alphabetic is_alphanumeric r)) [
    | inl e ↦ rw e refl
    | inr ((name, named), e) ↦
        elim (Option-cases (skip_attributes is_alphabetic is_alphanumeric named)) [
          | inl e' ↦ rw (e, e') refl
          | inr (attributes, e') ↦ elim (Option-cases (tag_end (trim_start attributes))) [
            | inl e'' ↦ rw (e, e', e'') refl
            | inr ((rest, self_closing), e'') ↦
                rw (e, e', e'') (closing-act name rest self_closing s)
          ]
        ]
  ]

  pub scan-act :
      (f : Front) (s : XmlScanner)
      → scan is_alphabetic is_alphanumeric f s
        ≡ (token_at is_alphabetic is_alphanumeric f s.rest >>= act_on s)
  unfolding scan token_at act_on scan_text
  scan-act (comment r) s = go_on-silently s (after (codes "-->") r)
  scan-act (instruction r) s = go_on-silently s (after (codes "?>") r)
  scan-act (doctype r) s = go_on-silently s (skip_doctype 0 0 r)
  scan-act (cdata r) s = go_on-silently s (after (codes "]]>") r)
  scan-act (end_tag r) s = end_tag-act r s
  scan-act (start_tag r) s = start_tag-act r s
  scan-act words s = refl

Accepts-silent : (stack : List Text) (l : List Token) → Accepts stack l → Accepts stack (silent ∷ l)
unfolding Accepts
Accepts-silent [] l h = h
Accepts-silent (top ∷ names) l h = h

Accepts-alone :
    (name : Text) (stack : List Text) (l : List Token)
    → Accepts stack l
    → Accepts stack (alone name ∷ l)
unfolding Accepts
Accepts-alone name [] l h = h
Accepts-alone name (top ∷ names) l h = h

Accepts-opens :
    (name : Text) (stack : List Text) (l : List Token)
    → Accepts (name ∷ stack) l
    → Accepts stack (opens name ∷ l)
unfolding Accepts
Accepts-opens name [] l h = h
Accepts-opens name (top ∷ names) l h = h

Accepts-outside :
    (b : Bool) (stack : List Text) (l : List Token)
    → (eqb (length stack) 0 && not b) ≡ false
    → Accepts stack l
    → Accepts stack (outside b ∷ l)
unfolding Accepts
Accepts-outside true [] l e h = (refl, h)
Accepts-outside false [] l e h = absurd (cc e)
Accepts-outside b (top ∷ names) l e h = h

Accepts-closes :
    (name : Text) (stack stack' : List Text) (l : List Token)
    → popped name stack ≡ some stack'
    → Accepts stack' l
    → Accepts stack (closes name ∷ l)
unfolding Accepts popped
Accepts-closes name [] stack' l e h = cc
Accepts-closes name (top ∷ names) stack' l e h = elim (Bool-cases (same_text top name)) [
  | inl same ↦
      let at : names ≡ stack' = cc (rw same at e) in (same, subst (λ st. Accepts st l) (sym at) h)
  | inr other ↦ absurd (cc (rw other at e))
]

-- The root is the first tag's name, if there is none yet.
abbrev pub root_of : Option Text → Option Text → Option Text
root_of none o = o
root_of (some root) o = some root

-- What a token does is undone from the back.
record Back (token : Token) (rest : Text) (s s' : XmlScanner) : Type 0 where
  same_rest : s'.rest ≡ rest
  nests : (l : List Token) → Accepts s'.stack l → Accepts s.stack (token ∷ l)
  roots :
      (l : List Token)
      → root_of s'.root_name (first_name l) ≡ root_of s.root_name (first_name (token ∷ l))

pub root_of-first :
    (root : Option Text) (name : Text) (o : Option Text)
    → root_of (or_first root name) o ≡ root_of root (some name)
root_of-first none name o = refl
root_of-first (some root) name o = refl

act-Back :
    (token : Token) (rest : Text) (s s' : XmlScanner)
    → act token rest s ≡ some s'
    → Back token rest s s'
unfolding act first_name
act-Back silent rest s s' h =
    let same : record s { rest = rest } ≡ s' = cc h in
    subst (Back silent rest s) same
      (record { same_rest = refl; nests = Accepts-silent s.stack; roots = λ l. refl })
act-Back (outside b) rest s s' h = elim (Bool-cases (eqb (length s.stack) 0 && not b)) [
  | inl e ↦ absurd (cc (rw e at h))
  | inr e ↦
      let same : record s { rest = rest } ≡ s' = cc (rw e at h) in
      subst (Back (outside b) rest s) same (record {
        same_rest = refl;
        nests = λ l k. Accepts-outside b s.stack l e k;
        roots = λ l. refl;
      })
]
act-Back (opens name) rest s s' h =
    let same : started name rest false s ≡ s' = cc h in
    subst (Back (opens name) rest s) same (record {
      same_rest = refl;
      nests = Accepts-opens name s.stack;
      roots = λ l. root_of-first s.root_name name (first_name l);
    })
act-Back (alone name) rest s s' h =
    let same : started name rest true s ≡ s' = cc h in
    subst (Back (alone name) rest s) same (record {
      same_rest = refl;
      nests = Accepts-alone name s.stack;
      roots = λ l. root_of-first s.root_name name (first_name l);
    })
act-Back (closes name) rest s s' h =
    let (stack, e, k) = >>=-eq-some (popped name s.stack) _ h in
    let same : record s { rest = rest; stack = stack } ≡ s' = cc k in
    subst (Back (closes name) rest s) same (record {
      same_rest = refl;
      nests = λ l k. Accepts-closes name s.stack stack l e k;
      roots = λ l. refl;
    })

nothing-Accepts : (stack : List Text) → eqb (length stack) 0 ≡ true → Accepts stack []
unfolding Accepts
nothing-Accepts [] h = tt
nothing-Accepts (name ∷ names) h = absurd (ground (arith, h))

module _ (is_alphabetic is_alphanumeric : ℕ → Bool) where
  -- The tokens of the rest of a text that is accepted.
  record Accepted (s : XmlScanner) (root : Text) : Type 0 where
    tokens : List Token
    lexes : Lexes is_alphabetic is_alphanumeric s.rest tokens
    nested : Accepts s.stack tokens
    first : root_of s.root_name (first_name tokens) ≡ some root

  nothing-Lexes : (t : Text) → eqb (length t) 0 ≡ true → Lexes is_alphabetic is_alphanumeric t []
  nothing-Lexes [] h = end_
  nothing-Lexes (c ∷ t) h = absurd (ground (arith, h))

  accepted-Accepted :
      (s : XmlScanner) (root : Text)
      → eqb (length s.rest) 0 ≡ true
      → accepted is_alphabetic is_alphanumeric s ≡ some root
      → Accepted s root
  unfolding Accepts first_name
  accepted-Accepted s root e h = elim (Bool-cases (eqb (length s.stack) 0)) [
    | inl closed ↦
        let found : s.root_name ≡ some root = rw closed at h in
        record {
          tokens = [];
          lexes = nothing-Lexes s.rest e;
          nested = nothing-Accepts s.stack closed;
          first = ap (λ o. root_of o none) found;
        }
    | inr open_ ↦ absurd (cc (rw open_ at h))
  ]

  parse_with-Accepted :
      (n : ℕ) (s : XmlScanner) (root : Text)
      → parse_with is_alphabetic is_alphanumeric n s ≡ some root
      → Accepted s root
  unfolding parse_with act act_on
  parse_with-Accepted zero s root h = cc
  parse_with-Accepted (suc n) s root h = elim (Bool-cases (eqb (length s.rest) 0)) [
    | inl e ↦ accepted-Accepted s root e (rw e at h)
    | inr e ↦
        let (s', step, k) =
          >>=-eq-some (scan is_alphabetic is_alphanumeric (front s.rest) s)
            (parse_with is_alphabetic is_alphanumeric n) (rw e at h) in
        let later = parse_with-Accepted n s' root k in
        let ((token, rest), lexed, acts) =
          >>=-eq-some (token_at is_alphabetic is_alphanumeric (front s.rest) s.rest) (act_on s)
            (sym (scan-act is_alphabetic is_alphanumeric (front s.rest) s) ∙ step) in
        let back = act-Back token rest s s' acts in
        record {
          tokens = token ∷ later.tokens;
          lexes = more (ground (arith, e)) lexed (
              subst (λ t. Lexes is_alphabetic is_alphanumeric t later.tokens) back.same_rest
                later.lexes);
          nested = back.nests later.tokens later.nested;
          first = sym (back.roots later.tokens) ∙ later.first;
        }
  ]

  -- A text that the scan accepts is a document: its tokens are nested elements, with blank text
  -- outside of them, and the name that the scan gives is that of the first tag.
  pub parse-Document :
      (input root : Text)
      → parse is_alphabetic is_alphanumeric (new input) ≡ some root
      → (tokens : List Token) × Lexes is_alphabetic is_alphanumeric input tokens
        × Document tokens
        × (first_name tokens ≡ some root)
  unfolding parse
  parse-Document input root h =
      let a = parse_with-Accepted (suc (length input)) (new input) root h in
      (
        a.tokens,
        a.lexes,
        Accepts-Document (suc (length a.tokens)) a.tokens (omega arith) a.nested,
        a.first,
      )
