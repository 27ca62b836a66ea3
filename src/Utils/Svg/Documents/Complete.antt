-- ===== src/Utils/Svg/Documents/Complete.antt =====
-- Every document is accepted (crates/js-x-ray/src/utils/is_svg.rs: `parse`).
use mathlib.Core.List.{append_assoc}
use js_x_ray_rs.Prelude.{
  ℕ, Bool, true, false, not, ◌&&◌, Option, none, some, List, [], ◌∷◌, ◌++◌, ◌≡◌, refl, sym, ap, ◌∙◌,
  subst, eqb, length, arith, >>=-some,
}
use js_x_ray_rs.Utils.Svg.{
  Text, XmlScanner, new, started, popped, pop, front, scan, accepted, parse,
}
use js_x_ray_rs.Utils.Svg.Scanning.{parse-eq}
use js_x_ray_rs.Utils.Svg.Documents.{
  Token, silent, outside, opens, closes, alone, token_at, Lexes, end_, more, Accepts, Document,
  Content, first_name,
}
use js_x_ray_rs.Utils.Svg.Documents.Sound.{act, act_on, scan-act, root_of, root_of-first}

Content-Accepts :
    (l : List Token) (top : Text) (names : List Text) (rest : List Token)
    → Content l
    → Accepts (top ∷ names) rest
    → Accepts (top ∷ names) (l ++ rest)
unfolding Accepts
Content-Accepts _ top names rest Content.empty h = h
Content-Accepts _ top names rest (Content.silence {l} c) h = Content-Accepts l top names rest c h
Content-Accepts _ top names rest (Content.text {l} c) h = Content-Accepts l top names rest c h
Content-Accepts _ top names rest (Content.single {l} c) h = Content-Accepts l top names rest c h
Content-Accepts _ top names rest (Content.element {name} {m} end_name inner l c same d e) h =
    let after : Accepts (top ∷ names) (l ++ rest) = Content-Accepts l top names rest d h in
    let whole : Accepts (name ∷ top ∷ names) (inner ++ (closes end_name ∷ (l ++ rest))) =
      Content-Accepts inner name (top ∷ names) (closes end_name ∷ (l ++ rest)) c (same, after) in
    subst (Accepts (name ∷ top ∷ names))
      (sym (ap (λ k. k ++ rest) e ∙ append_assoc inner (closes end_name ∷ l) rest)) whole

Document-Accepts : (l : List Token) → Document l → Accepts [] l
unfolding Accepts
Document-Accepts _ Document.empty = tt
Document-Accepts _ (Document.silence {l} d) = Document-Accepts l d
Document-Accepts _ (Document.blank {l} e d) = (e, Document-Accepts l d)
Document-Accepts _ (Document.single {l} d) = Document-Accepts l d
Document-Accepts _ (Document.element {name} {m} end_name inner l c same d e) =
    let after : Accepts [] l = Document-Accepts l d in
    subst (Accepts (name ∷ [])) (sym e)
      (Content-Accepts inner name [] (closes end_name ∷ l) c (same, after))

-- A token that is accepted leads to a scanner that accepts what follows it.
record Forward (token : Token) (tokens : List Token) (rest : Text) (s : XmlScanner) : Type 0 where
  next : XmlScanner
  acts : act token rest s ≡ some next
  same_rest : next.rest ≡ rest
  nested : Accepts next.stack tokens
  roots :
      root_of next.root_name (first_name tokens) ≡ root_of s.root_name (first_name (token ∷ tokens))

Accepts-silent_back :
    (stack : List Text) (l : List Token) → Accepts stack (silent ∷ l) → Accepts stack l
unfolding Accepts
Accepts-silent_back [] l h = h
Accepts-silent_back (top ∷ names) l h = h

Accepts-alone_back :
    (name : Text) (stack : List Text) (l : List Token)
    → Accepts stack (alone name ∷ l)
    → Accepts stack l
unfolding Accepts
Accepts-alone_back name [] l h = h
Accepts-alone_back name (top ∷ names) l h = h

Accepts-opens_back :
    (name : Text) (stack : List Text) (l : List Token)
    → Accepts stack (opens name ∷ l)
    → Accepts (name ∷ stack) l
unfolding Accepts
Accepts-opens_back name [] l h = h
Accepts-opens_back name (top ∷ names) l h = h

Accepts-outside_back :
    (b : Bool) (stack : List Text) (l : List Token)
    → Accepts stack (outside b ∷ l)
    → ((eqb (length stack) 0 && not b) ≡ false) × Accepts stack l
unfolding Accepts
Accepts-outside_back b [] l h = (ground (arith, h.0), h.1)
Accepts-outside_back b (top ∷ names) l h = (ground arith, h)

Accepts-closes_back :
    (name : Text) (stack : List Text) (l : List Token)
    → Accepts stack (closes name ∷ l)
    → (stack' : List Text) × (popped name stack ≡ some stack') × Accepts stack' l
unfolding Accepts popped
Accepts-closes_back name [] l h = absurd h
Accepts-closes_back name (top ∷ names) l h = (names, rw h.0 refl, h.1)

Accepts-Forward :
    (token : Token) (tokens : List Token) (rest : Text) (s : XmlScanner)
    → Accepts s.stack (token ∷ tokens)
    → Forward token tokens rest s
unfolding act first_name pop
Accepts-Forward silent l rest s h = record {
  next = record s { rest = rest };
  acts = refl;
  same_rest = refl;
  nested = Accepts-silent_back s.stack l h;
  roots = refl;
}
Accepts-Forward (outside b) l rest s h =
    let (passes, later) = Accepts-outside_back b s.stack l h in
    record {
      next = record s { rest = rest };
      acts = rw passes refl;
      same_rest = refl;
      nested = later;
      roots = refl;
    }
Accepts-Forward (opens name) l rest s h = record {
  next = started name rest false s;
  acts = refl;
  same_rest = refl;
  nested = Accepts-opens_back name s.stack l h;
  roots = root_of-first s.root_name name (first_name l);
}
Accepts-Forward (alone name) l rest s h = record {
  next = started name rest true s;
  acts = refl;
  same_rest = refl;
  nested = Accepts-alone_back name s.stack l h;
  roots = root_of-first s.root_name name (first_name l);
}
Accepts-Forward (closes name) l rest s h =
    let (stack, e, later) = Accepts-closes_back name s.stack l h in
    record {
      next = record s { rest = rest; stack = stack };
      acts =
          >>=-some (popped name s.stack) (λ st. some (record s { rest = rest; stack = st })) e refl;
      same_rest = refl;
      nested = later;
      roots = refl;
    }

root_of-none : (o : Option Text) → o ≡ root_of o none
root_of-none none = refl
root_of-none (some root) = refl

accepted-root :
    (is_alphabetic is_alphanumeric : ℕ → Bool) (s : XmlScanner) (stack : List Text)
    → s.stack ≡ stack
    → Accepts stack []
    → accepted is_alphabetic is_alphanumeric s ≡ s.root_name
unfolding Accepts
accepted-root a b s [] e h = rw e refl
accepted-root a b s (top ∷ names) e h = absurd h

module _ (is_alphabetic is_alphanumeric : ℕ → Bool) where
  parse_at :
      (t : Text) (tokens : List Token) (s : XmlScanner)
      → Lexes is_alphabetic is_alphanumeric t tokens
      → s.rest ≡ t
      → Accepts s.stack tokens
      → parse is_alphabetic is_alphanumeric s ≡ root_of s.root_name (first_name tokens)
  unfolding first_name act_on
  parse_at _ _ s end_ e h =
      parse-eq is_alphabetic is_alphanumeric s
      ∙ rw e
          (accepted-root is_alphabetic is_alphanumeric s s.stack refl h ∙ root_of-none s.root_name)
  parse_at _ _ s (more {t} {rest} {token} {tokens} longer lexed later) e h =
      let f = Accepts-Forward token tokens rest s h in
      let some_left : eqb (length s.rest) 0 ≡ false = rw e (ground (arith, longer)) in
      let at : token_at is_alphabetic is_alphanumeric (front s.rest) s.rest ≡ some (token, rest) =
        rw e lexed in
      let step : scan is_alphabetic is_alphanumeric (front s.rest) s ≡ some f.next =
        scan-act is_alphabetic is_alphanumeric (front s.rest) s
        ∙ >>=-some (token_at is_alphabetic is_alphanumeric (front s.rest) s.rest) (act_on s) at
            f.acts in
      parse-eq is_alphabetic is_alphanumeric s
      ∙ rw some_left (
          >>=-some (scan is_alphabetic is_alphanumeric (front s.rest) s)
            (parse is_alphabetic is_alphanumeric) step
            (parse_at rest tokens f.next later f.same_rest f.nested ∙ f.roots))

  -- A text whose tokens are nested elements, with blank text outside of them, is accepted, with the name
  -- of its first tag, if it has one.
  pub Document-parse :
      (input : Text) (tokens : List Token)
      → Lexes is_alphabetic is_alphanumeric input tokens
      → Document tokens
      → parse is_alphabetic is_alphanumeric (new input) ≡ first_name tokens
  Document-parse input tokens lexes d =
      parse_at input tokens (new input) lexes refl (Document-Accepts tokens d)
