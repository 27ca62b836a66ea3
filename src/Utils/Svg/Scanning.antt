-- ===== src/Utils/Svg/Scanning.antt =====
-- Each round of the scanner takes a character at least, so the fuel of its loops is enough
-- (crates/js-x-ray/src/utils/is_svg.rs).
use js_x_ray_rs.Prelude.{
  ℕ, zero, suc, ◌+◌, ◌≤◌, ◌<◌, String, Bool, false, not, ◌&&◌, Option, none, some, ◌>>=◌, [], ◌∷◌,
  ◌≡◌, refl, ap, if◌then◌else◌, eqb, leb, length, codes, all, arith, Bool-cases, Option-cases, inl,
  inr, >>=-eq-some,
}
use js_x_ray_rs.Utils.Svg.{
  Text, XmlScanner, strip, after, trim_start, skip_doctype, span, take_text, go_on, is_quote,
  skip_value, tag_end, ends_attributes, parse_name, skip_attribute, skip_attributes_with,
  skip_attributes, parse_start_tag, started, popped, pop, parse_end_tag, scan_text, Front, comment,
  instruction, doctype, cdata, end_tag, start_tag, words, or_else, marked, front, scan, accepted,
  parse_with, parse, is_name_start_char, is_name_char, is_xml_space,
}

strip-length : (p t r : Text) → strip p t ≡ some r → length r + length p ≡ length t
strip-length [] t r h = let e : t ≡ r = cc h in rw e (omega arith)
strip-length (c ∷ p) [] r h = cc
strip-length (c ∷ p) (d ∷ t) r h = elim (Bool-cases (eqb c d)) [
  | inl e ↦ omega (arith, strip-length p t r (rw e at h))
  | inr e ↦ absurd (cc (rw e at h))
]

pub after-shorter : (m t r : Text) → 0 < length m → after m t ≡ some r → length r < length t
unfolding after
after-shorter m [] r k h = cc
after-shorter m (c ∷ t) r k h = elim (Option-cases (strip m (c ∷ t))) [
  | inl e ↦ omega (arith, after-shorter m t r k (rw (after, e) at h))
  | inr (r', e) ↦
      let same : r' ≡ r = cc (rw (after, e) at h) in
      omega (arith, strip-length m (c ∷ t) r' e, ap (λ l. length l) same)
]

pub trim_start-length : (t : Text) → length (trim_start t) ≤ length t
unfolding trim_start
trim_start-length [] = omega arith
trim_start-length (c ∷ t) = ground (arith, trim_start-length t)

span-length : (p : ℕ → Bool) (t : Text) → length (span p t).1 ≤ length t
unfolding span
span-length p [] = omega arith
span-length p (c ∷ t) = ground (arith, span-length p t)

skip_doctype-shorter :
    (t : Text) (opened closed : ℕ) (r : Text)
    → skip_doctype opened closed t ≡ some r
    → length r < length t
unfolding skip_doctype
skip_doctype-shorter [] opened closed r h = cc
skip_doctype-shorter (c ∷ t) opened closed r h =
    elim (Bool-cases (eqb c b'>' && leb opened closed)) [
      | inl e ↦ let same : t ≡ r = cc (rw e at h) in omega (arith, ap (λ l. length l) same)
      | inr e ↦
          let opened' = if eqb c b'[' then opened + 1 else opened in
          let closed' = if eqb c b']' then closed + 1 else closed in
          omega (arith, skip_doctype-shorter t opened' closed' r (rw e at h))
    ]

skip_value-shorter : (t r : Text) → skip_value t ≡ some r → length r < length t
unfolding skip_value
skip_value-shorter [] r h = cc
skip_value-shorter (quote ∷ t) r h = elim (Bool-cases (is_quote quote)) [
  | inl e ↦ omega (arith, after-shorter (quote ∷ []) t r (omega arith) (rw e at h))
  | inr e ↦ absurd (cc (rw e at h))
]

bind-cong {ℓ} :
    {A B : Type ℓ} (o : Option A) (f g : A → Option B)
    → ((a : A) → o ≡ some a → f a ≡ g a)
    → (o >>= f) ≡ (o >>= g)
bind-cong none f g h = refl
bind-cong (some a) f g h = h a refl

tag_end-shorter : (t r : Text) (closes : Bool) → tag_end t ≡ some (r, closes) → length r < length t
tag_end-shorter t r closes h = elim (Option-cases (strip (codes "/>") t)) [
  | inl e ↦
      let (r', e', same) =
        >>=-eq-some (strip (codes ">") t) (λ rest. some (rest, false)) (rw e at h) in
      let same' : r' ≡ r = cc same in
      omega (arith, strip-length (codes ">") t r' e', ap (λ l. length l) same')
  | inr (r', e) ↦
      let same : r' ≡ r = cc (rw e at h) in
      omega (arith, strip-length (codes "/>") t r' e, ap (λ l. length l) same)
]

pop-rest : (name rest : Text) (s s' : XmlScanner) → pop name rest s ≡ some s' → rest ≡ s'.rest
unfolding pop
pop-rest name rest s s' h =
    let (stack, e, same) = >>=-eq-some (popped name s.stack) _ h in
    let same' : record s { rest = rest; stack = stack } ≡ s' = cc same in
    ap (λ (u : XmlScanner). u.rest) same'

take_text-shorter :
    (c : ℕ) (t : Text) → eqb c b'<' ≡ false → length (take_text (c ∷ t)).1 < length (c ∷ t)
unfolding take_text span
take_text-shorter c t h =
    let p = λ (d : ℕ). not (eqb d b'<') in rw h (omega (arith, span-length p t))

-- What follows the mark at the front is shorter, and a text does not begin with `<`.
abbrev Behind : Text → Front → Type 0
Behind t (comment r) = length r < length t
Behind t (instruction r) = length r < length t
Behind t (doctype r) = length r < length t
Behind t (cdata r) = length r < length t
Behind t (end_tag r) = length r < length t
Behind t (start_tag r) = length r < length t
Behind t words = strip (codes "<") t ≡ none

or_else-Behind :
    (mark : String) (kind : Text → Front) (t : Text) (f : Front)
    → 0 < length (codes mark)
    → ((r : Text) → length r < length t → Behind t (kind r))
    → (strip (codes mark) t ≡ none → Behind t f)
    → Behind t (or_else (marked mark kind t) f)
or_else-Behind mark kind t f k h g = elim (Option-cases (strip (codes mark) t)) [
  | inl e ↦ rw (e, or_else) (g e)
  | inr (r, e) ↦ rw (e, or_else) (h r (omega (arith, strip-length (codes mark) t r e)))
]

front-Behind : (t : Text) → Behind t (front t)
unfolding front
front-Behind t =
    or_else-Behind "<!--" comment t _ (omega arith) (λ r h. h)
      λ _.
        or_else-Behind "<?" instruction t _ (omega arith) (λ r h. h)
          λ _.
            or_else-Behind "<!DOCTYPE" doctype t _ (omega arith) (λ r h. h)
              λ _.
                or_else-Behind "<!doctype" doctype t _ (omega arith) (λ r h. h)
                  λ _.
                    or_else-Behind "<![CDATA[" cdata t _ (omega arith) (λ r h. h)
                      λ _.
                        or_else-Behind "</" end_tag t _ (omega arith) (λ r h. h)
                          λ _.
                            or_else-Behind "<" start_tag t words (omega arith) (λ r h. h) (λ e. e)

taken-shorter :
    (t : Text) → 0 < length t → strip (codes "<") t ≡ none → length (take_text t).1 < length t
taken-shorter [] k b = absurd (omega arith)
taken-shorter (c ∷ t) k b = take_text-shorter c t (ground (arith, b))

scan_text-rest :
    (s s' : XmlScanner) → scan_text s ≡ some s' → record s { rest = (take_text s.rest).1 } ≡ s'
unfolding scan_text
scan_text-rest s s' h =
    elim (Bool-cases (eqb (length s.stack) 0 && not (all is_xml_space (take_text s.rest).0))) [
      | inl e ↦ absurd (cc (rw e at h))
      | inr e ↦ cc (rw e at h)
    ]

module _ (is_alphabetic is_alphanumeric : ℕ → Bool) where
  parse_name-shorter :
      (t name r : Text)
      → parse_name is_alphabetic is_alphanumeric t ≡ some (name, r)
      → length r < length t
  unfolding parse_name
  parse_name-shorter [] name r h = cc
  parse_name-shorter (first ∷ t) name r h =
      let p = is_name_char is_alphabetic is_alphanumeric in
      elim (Bool-cases (is_name_start_char is_alphabetic is_alphanumeric first)) [
        | inl e ↦
            let same : (span p t).1 ≡ r = cc (rw e at h) in
            omega (arith, span-length p t, ap (λ l. length l) same)
        | inr e ↦ absurd (cc (rw e at h))
      ]

  skip_attribute-shorter :
      (t r : Text) → skip_attribute is_alphabetic is_alphanumeric t ≡ some r → length r < length t
  unfolding skip_attribute
  skip_attribute-shorter t r h =
      let ((name, named), e, k) = >>=-eq-some (parse_name is_alphabetic is_alphanumeric t) _ h in
      let (assigned, e', v) = >>=-eq-some (strip (codes "=") (trim_start named)) _ k in
      omega (
        arith,
        parse_name-shorter t name named e,
        trim_start-length named,
        strip-length (codes "=") (trim_start named) assigned e',
        trim_start-length assigned,
        skip_value-shorter (trim_start assigned) r v,
      )

  -- Any two amounts of fuel above the length give the same.
  skip_attributes-stable :
      (m n : ℕ) (t : Text)
      → length t < m
      → length t < n
      → skip_attributes_with is_alphabetic is_alphanumeric m t
        ≡ skip_attributes_with is_alphabetic is_alphanumeric n t
  unfolding skip_attributes_with
  skip_attributes-stable zero n t h k = absurd (omega arith)
  skip_attributes-stable (suc m) zero t h k = absurd (omega arith)
  skip_attributes-stable (suc m) (suc n) t h k =
      let trimmed = trim_start t in
      ap (λ o. if ends_attributes trimmed then some trimmed else o)
        (bind-cong (skip_attribute is_alphabetic is_alphanumeric trimmed)
          (skip_attributes_with is_alphabetic is_alphanumeric m)
          (skip_attributes_with is_alphabetic is_alphanumeric n)
          (λ r e.
            let shorter = skip_attribute-shorter trimmed r e in
            skip_attributes-stable m n r (omega (arith, shorter, trim_start-length t))
              (omega (arith, shorter, trim_start-length t))))

  skip_attributes_with-length :
      (n : ℕ) (t r : Text)
      → skip_attributes_with is_alphabetic is_alphanumeric n t ≡ some r
      → length r ≤ length t
  unfolding skip_attributes_with
  skip_attributes_with-length zero t r h = cc
  skip_attributes_with-length (suc n) t r h =
      let trimmed = trim_start t in
      elim (Bool-cases (ends_attributes trimmed)) [
        | inl e ↦
            let same : trimmed ≡ r = cc (rw e at h) in
            omega (arith, trim_start-length t, ap (λ l. length l) same)
        | inr e ↦
            let (u, e', k) =
              >>=-eq-some (skip_attribute is_alphabetic is_alphanumeric trimmed)
                (skip_attributes_with is_alphabetic is_alphanumeric n) (rw e at h) in
            omega (
              arith,
              trim_start-length t,
              skip_attribute-shorter trimmed u e',
              skip_attributes_with-length n u r k,
            )
      ]

  start_tag-shorter :
      (t : Text) (s s' : XmlScanner)
      → parse_start_tag is_alphabetic is_alphanumeric t s ≡ some s'
      → length s'.rest < length t
  unfolding parse_start_tag skip_attributes
  start_tag-shorter t s s' h =
      let ((name, named), e, k) = >>=-eq-some (parse_name is_alphabetic is_alphanumeric t) _ h in
      let (attributes, e', k') =
        >>=-eq-some (skip_attributes is_alphabetic is_alphanumeric named) _ k in
      let ((rest, closes), e'', same) = >>=-eq-some (tag_end (trim_start attributes)) _ k' in
      let same' : started name rest closes s ≡ s' = cc same in
      omega (
        arith,
        parse_name-shorter t name named e,
        skip_attributes_with-length (suc (length named)) named attributes e',
        trim_start-length attributes,
        tag_end-shorter (trim_start attributes) rest closes e'',
        ap (λ (u : XmlScanner). length u.rest) same',
      )

  end_tag-shorter :
      (t : Text) (s s' : XmlScanner)
      → parse_end_tag is_alphabetic is_alphanumeric t s ≡ some s'
      → length s'.rest < length t
  unfolding parse_end_tag
  end_tag-shorter t s s' h =
      let ((name, named), e, k) = >>=-eq-some (parse_name is_alphabetic is_alphanumeric t) _ h in
      let (rest, e', k') = >>=-eq-some (strip (codes ">") (trim_start named)) _ k in
      omega (
        arith,
        parse_name-shorter t name named e,
        trim_start-length named,
        strip-length (codes ">") (trim_start named) rest e',
        ap (λ l. length l) (pop-rest name rest s s' k'),
      )

  abbrev scan_at : Front → XmlScanner → Option XmlScanner
  scan_at = scan is_alphabetic is_alphanumeric

  go_on-shorter :
      (s s' : XmlScanner) (o : Option Text) (n : ℕ)
      → ((r : Text) → o ≡ some r → length r < n)
      → go_on s o ≡ some s'
      → length s'.rest < n
  go_on-shorter s s' none n h e = cc
  go_on-shorter s s' (some r) n h e =
      let same : record s { rest = r } ≡ s' = cc e in
      omega (arith, h r refl, ap (λ (u : XmlScanner). length u.rest) same)

  scan_text-shorter :
      (s s' : XmlScanner)
      → 0 < length s.rest
      → strip (codes "<") s.rest ≡ none
      → scan_text s ≡ some s'
      → length s'.rest < length s.rest
  unfolding scan_text
  scan_text-shorter s s' k b h =
      let same : record s { rest = (take_text s.rest).1 } ≡ s' = scan_text-rest s s' h in
      omega (arith, taken-shorter s.rest k b, ap (λ (u : XmlScanner). length u.rest) same)

  scan-shorter :
      (f : Front) (s s' : XmlScanner)
      → 0 < length s.rest
      → Behind s.rest f
      → scan_at f s ≡ some s'
      → length s'.rest < length s.rest
  unfolding scan
  scan-shorter (comment r) s s' k b h =
      go_on-shorter s s' (after (codes "-->") r) (length s.rest)
        (λ r' e. omega (arith, b, after-shorter (codes "-->") r r' (omega arith) e)) h
  scan-shorter (instruction r) s s' k b h =
      go_on-shorter s s' (after (codes "?>") r) (length s.rest)
        (λ r' e. omega (arith, b, after-shorter (codes "?>") r r' (omega arith) e)) h
  scan-shorter (doctype r) s s' k b h =
      go_on-shorter s s' (skip_doctype 0 0 r) (length s.rest)
        (λ r' e. omega (arith, b, skip_doctype-shorter r 0 0 r' e)) h
  scan-shorter (cdata r) s s' k b h =
      go_on-shorter s s' (after (codes "]]>") r) (length s.rest)
        (λ r' e. omega (arith, b, after-shorter (codes "]]>") r r' (omega arith) e)) h
  scan-shorter (end_tag r) s s' k b h = omega (arith, b, end_tag-shorter r s s' h)
  scan-shorter (start_tag r) s s' k b h = omega (arith, b, start_tag-shorter r s s' h)
  scan-shorter words s s' k b h = scan_text-shorter s s' k b h

  parse_with-stable :
      (m n : ℕ) (s : XmlScanner)
      → length s.rest < m
      → length s.rest < n
      → parse_with is_alphabetic is_alphanumeric m s ≡ parse_with is_alphabetic is_alphanumeric n s
  unfolding parse_with
  parse_with-stable zero n s h k = absurd (omega arith)
  parse_with-stable (suc m) zero s h k = absurd (omega arith)
  parse_with-stable (suc m) (suc n) s h k = elim (Bool-cases (eqb (length s.rest) 0)) [
    | inl e ↦ rw e refl
    | inr e ↦ rw e (
        bind-cong (scan_at (front s.rest) s) (parse_with is_alphabetic is_alphanumeric m)
          (parse_with is_alphabetic is_alphanumeric n)
          (λ s' step.
            let some_left : 0 < length s.rest = ground (arith, e) in
            let shorter = scan-shorter (front s.rest) s s' some_left (front-Behind s.rest) step in
            parse_with-stable m n s' (omega (arith, shorter)) (omega (arith, shorter))))
  ]

  -- The scan satisfies the equation that the source writes, on every text: at the end it accepts
  -- where no tag is open, and else it goes on behind a round of the loop.
  pub parse-eq :
      (s : XmlScanner)
      → parse is_alphabetic is_alphanumeric s ≡ (
          if eqb (length s.rest) 0 then accepted is_alphabetic is_alphanumeric s else (do
            s' ← scan is_alphabetic is_alphanumeric (front s.rest) s
            parse is_alphabetic is_alphanumeric s'))
  unfolding parse parse_with
  parse-eq s = elim (Bool-cases (eqb (length s.rest) 0)) [
    | inl e ↦ rw e refl
    | inr e ↦ rw e (
        bind-cong (scan_at (front s.rest) s)
          (parse_with is_alphabetic is_alphanumeric (length s.rest))
          (parse is_alphabetic is_alphanumeric)
          (λ s' step.
            let some_left : 0 < length s.rest = ground (arith, e) in
            let shorter = scan-shorter (front s.rest) s s' some_left (front-Behind s.rest) step in
            parse_with-stable (length s.rest) (suc (length s'.rest)) s' shorter (omega arith)))
  ]
