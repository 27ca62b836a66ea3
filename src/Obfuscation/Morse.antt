-- ===== src/Obfuscation/Morse.antt =====
-- `is_morse` of crates/js-x-ray/src/deobfuscator.rs: the regular expression as an automaton, and the
-- texts that it accepts.
use mathlib.Core.List.{append_assoc, append-nil}
use js_x_ray_rs.Prelude.{
  ℕ, suc, ◌+◌, ◌≤◌, ◌<◌, String, Bool, true, false, ◌&&◌, ◌||◌, List, [], ◌∷◌, ◌++◌, if◌then◌else◌,
  ◌↔◌, leb, ltb, eqb, all, codes, length, ◌≡◌, refl, arith, Bool-cases, inl, inr, length-append,
  subst, sym, ap, ◌∙◌,
}

-- `[.\-]`
abbrev is_symbol : ℕ → Bool
is_symbol c = eqb c 46 || eqb c 45

-- `\s` of JavaScript.
abbrev is_gap : ℕ → Bool
is_gap c =
    leb 9 c && leb c 13
    || eqb c 32
    || eqb c 160
    || eqb c 5760
    || leb 8192 c && leb c 8202
    || eqb c 8232
    || eqb c 8233
    || eqb c 8239
    || eqb c 8287
    || eqb c 12288
    || eqb c 65279

unfoldable mutual
  -- What is accepted between two letters, and after `n` symbols of one.
  accepts_gap : List ℕ → Bool
  accepts_gap [] = false
  accepts_gap (c ∷ cs) = if is_symbol c then accepts_letter 1 cs else is_gap c && accepts_gap cs

  accepts_letter : ℕ → List ℕ → Bool
  accepts_letter n [] = true
  accepts_letter n (c ∷ cs) =
      if is_symbol c then ltb n 5 && accepts_letter (suc n) cs else is_gap c && accepts_gap cs

abbrev accepts : List ℕ → Bool
accepts [] = false
accepts (c ∷ cs) = is_symbol c && accepts_letter 1 cs

unfoldable pub is_morse : String → Bool
unfolding accepts_gap
is_morse s = accepts (codes s)

-- `[.\-]{1,5}`
pub record IsLetter (t : List ℕ) : Type 0 where
  pub symbols : all is_symbol t ≡ true
  pub some_symbol : 1 ≤ length t
  pub at_most_five : length t ≤ 5

pub record IsGap (g : List ℕ) : Type 0 where
  pub spaces : all is_gap g ≡ true
  pub some_space : 1 ≤ length g

-- Letters with gaps between them: what `^L(?:G+L)*(?:G+L(?:G+L)*)*$` says.
pub data Morse : List ℕ → Type 0 where
  last : {t : List ℕ} → IsLetter t → Morse t
  more : {t g rest : List ℕ} → IsLetter t → IsGap g → Morse rest → Morse (t ++ (g ++ rest))

all-append : (p : ℕ → Bool) (xs ys : List ℕ) → all p (xs ++ ys) ≡ (all p xs && all p ys)
all-append p [] ys = refl
all-append p (x ∷ xs) ys = ground (arith, all-append p xs ys)

symbol-not-gap : (c : ℕ) → is_symbol c ≡ true → is_gap c ≡ false
symbol-not-gap c h = ground arith

letter_run :
    (n : ℕ) (t rest : List ℕ)
    → all is_symbol t ≡ true
    → n + length t ≤ 5
    → accepts_letter n (t ++ rest) ≡ accepts_letter (n + length t) rest
unfolding accepts_letter
letter_run n [] rest s h =
    let same : n ≡ n + 0 = omega arith in ap (λ k. accepts_letter k rest) same
letter_run n (c ∷ t) rest s h =
    let next : suc n + length t ≡ n + suc (length t) = omega arith in
    let deeper = letter_run (suc n) t rest (ground arith) (omega arith) in
    ground (arith, deeper, next)

gap_run : (g rest : List ℕ) → all is_gap g ≡ true → accepts_gap (g ++ rest) ≡ accepts_gap rest
unfolding accepts_gap
gap_run [] rest s = refl
gap_run (c ∷ g) rest s = ground (arith, gap_run g rest)

-- A letter and what comes after it.
letter_accepts :
    (t rest : List ℕ) → IsLetter t → accepts (t ++ rest) ≡ accepts_letter (length t) rest
letter_accepts [] rest h = absurd (omega (arith, h.some_symbol))
letter_accepts (c ∷ t) rest h = ground (arith, letter_run 1 t rest, h.symbols, h.at_most_five)

accepts-gap : (cs : List ℕ) → accepts cs ≡ true → accepts_gap cs ≡ true
unfolding accepts_gap
accepts-gap [] h = cc
accepts-gap (c ∷ cs) h = ground arith

gap_accepts :
    (n : ℕ) (g rest : List ℕ) → IsGap g → accepts rest ≡ true → accepts_letter n (g ++ rest) ≡ true
unfolding accepts_gap
gap_accepts n [] rest h a = absurd (omega (arith, h.some_space))
gap_accepts n (c ∷ g) rest h a =
    let in_gap : is_gap c ≡ true = ground (arith, h.spaces) in
    let spaces : all is_gap g ≡ true = ground (arith, h.spaces) in
    ground (arith, gap_run g rest spaces, accepts-gap rest a, symbol-not-gap c)

Morse-accepts : (cs : List ℕ) → Morse cs → accepts cs ≡ true
Morse-accepts _ (last {t} h) =
    ap accepts (sym (append-nil t)) ∙ letter_accepts t [] h ∙ unfold accepts_gap in refl
Morse-accepts _ (more {t} {g} {rest} h k m) =
    letter_accepts t (g ++ rest) h ∙ gap_accepts (length t) g rest k (Morse-accepts rest m)

one_symbol : (c : ℕ) → is_symbol c ≡ true → IsLetter (c ∷ [])
one_symbol c h = record {
  symbols = ground arith;
  some_symbol = omega arith;
  at_most_five = omega arith;
}

one_space : (c : ℕ) → is_gap c ≡ true → IsGap (c ∷ [])
one_space c h = record { spaces = ground arith; some_space = omega arith }

IsLetter-last :
    (t : List ℕ) (c : ℕ) → IsLetter t → length t < 5 → is_symbol c ≡ true → IsLetter (t ++ c ∷ [])
IsLetter-last t c h l s = record {
  symbols = ground (arith, all-append is_symbol t (c ∷ []), h.symbols);
  some_symbol = omega (arith, length-append t (c ∷ []));
  at_most_five = omega (arith, length-append t (c ∷ []));
}

IsGap-last : (g : List ℕ) (c : ℕ) → IsGap g → is_gap c ≡ true → IsGap (g ++ c ∷ [])
IsGap-last g c h s = record {
  spaces = ground (arith, all-append is_gap g (c ∷ []), h.spaces);
  some_space = omega (arith, length-append g (c ∷ []));
}

mutual
  unfolding accepts_gap

  -- Where the rest is accepted after the letter `t`, all of it is Morse.
  letter-Morse :
      (t cs : List ℕ) → IsLetter t → accepts_letter (length t) cs ≡ true → Morse (t ++ cs)
  letter-Morse t [] h a = subst Morse (sym (append-nil t)) (last h)
  letter-Morse t (c ∷ cs) h a = elim (Bool-cases (is_symbol c)) [
    | inl s ↦
        let short : length t < 5 = ground arith in
        let longer : suc (length t) ≡ length (t ++ c ∷ []) =
          omega (arith, length-append t (c ∷ [])) in
        let rest : accepts_letter (suc (length t)) cs ≡ true = ground arith in
        subst Morse (append_assoc t (c ∷ []) cs) (
          letter-Morse (t ++ c ∷ []) cs (IsLetter-last t c h short s)
            (subst (λ n. accepts_letter n cs ≡ true) longer rest))
    | inr n ↦ gap-Morse t (c ∷ []) cs h (one_space c (ground arith)) (ground arith)
  ]

  gap-Morse :
      (t g cs : List ℕ) → IsLetter t → IsGap g → accepts_gap cs ≡ true → Morse (t ++ (g ++ cs))
  gap-Morse t g [] h k a = cc
  gap-Morse t g (c ∷ cs) h k a = elim (Bool-cases (is_symbol c)) [
    | inl s ↦ more h k (letter-Morse (c ∷ []) cs (one_symbol c s) (ground arith))
    | inr n ↦
        let space : is_gap c ≡ true = ground arith in
        subst (λ l. Morse (t ++ l)) (append_assoc g (c ∷ []) cs)
          (gap-Morse t (g ++ c ∷ []) cs h (IsGap-last g c k space) (ground arith))
  ]

accepts-Morse : (cs : List ℕ) → accepts cs ≡ true → Morse cs
accepts-Morse [] h = cc
accepts-Morse (c ∷ cs) h = letter-Morse (c ∷ []) cs (one_symbol c (ground arith)) (ground arith)

-- `is_morse` accepts exactly the texts made of letters, each of one to five dots and dashes, with
-- white space between them and none at the ends.
pub is_morse-Morse : (s : String) → (is_morse s ≡ true) ↔ Morse (codes s)
unfolding is_morse
is_morse-Morse s = (accepts-Morse (codes s), Morse-accepts (codes s))
