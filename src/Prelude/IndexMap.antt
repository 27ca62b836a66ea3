-- ===== src/Prelude/IndexMap.antt =====
-- The `IndexMap<String, V>` and `IndexSet<String>` of the crate `indexmap`, as far as the code calls
-- them: entries in the order of their first insertion.
use mathlib.Core.Path.{◌≡◌, refl}
use mathlib.Core.Bool.{Bool, false, ◌||◌}
use mathlib.Core.Option.{Option, none, some}
use mathlib.Core.List.{List, [], ◌∷◌, ◌++◌}
use native.Mathlib.Omega.{arith}
use Prim.Native.String.{String}
use text.Mathlib.Text.{◌==◌}
use text.Mathlib.TextEquality.{eq_iff}
use text.Mathlib.TextPositions.{eq_refl}
use mathlib.Core.Logic.{inl, inr}
use js_x_ray_rs.Prelude.Tests.{if◌then◌else◌, is_some, Bool-cases}
use js_x_ray_rs.Prelude.Lists.{any}

abbrev pub IndexMap {ℓ} : Type ℓ → Type ℓ
IndexMap V = List (String × V)

module _ {ℓ} {V : Type ℓ} where
  unfoldable pub get : String → IndexMap V → Option V
  get k [] = none
  get k ((j, v) ∷ m) = if j == k then some v else get k m

  -- An old key keeps its place and gets the new value.
  unfoldable pub insert : String → V → IndexMap V → IndexMap V
  insert k v [] = (k, v) ∷ []
  insert k v ((j, w) ∷ m) = if j == k then (j, v) ∷ m else (j, w) ∷ insert k v m

  abbrev pub contains_key : String → IndexMap V → Bool
  contains_key k m = is_some (get k m)

  unfoldable pub keys : IndexMap V → List String
  keys [] = []
  keys ((j, v) ∷ m) = j ∷ keys m

  -- `entry(k).or_insert(d)` and then `*entry = f(*entry)`.
  unfoldable pub modify_or : String → V → (V → V) → IndexMap V → IndexMap V
  modify_or k d f [] = (k, f d) ∷ []
  modify_or k d f ((j, w) ∷ m) = if j == k then (j, f w) ∷ m else (j, w) ∷ modify_or k d f m

  -- `get_mut(k)`, and `f` on what it finds.
  unfoldable pub modify : String → (V → V) → IndexMap V → IndexMap V
  modify k f [] = []
  modify k f ((j, w) ∷ m) = if j == k then (j, f w) ∷ m else (j, w) ∷ modify k f m

  unfoldable pub shift_remove : String → IndexMap V → IndexMap V
  shift_remove k [] = []
  shift_remove k ((j, w) ∷ m) = if j == k then m else (j, w) ∷ shift_remove k m

  pub get-insert :
      (k j : String) (v : V) (m : IndexMap V)
      → get j (insert k v m) ≡ (if k == j then some v else get j m)
  unfolding get insert
  get-insert k j v [] = refl
  get-insert k j v ((i, w) ∷ m) =
      ground (arith, eq_iff k j, eq_iff i k, eq_iff i j, get-insert k j v m)

  pub get-modify :
      (k j : String) (f : V → V) (m : IndexMap V)
      → get j (modify k f m)
        ≡ (if k == j then elim (get j m) [ none ↦ none | some w ↦ some (f w) ] else get j m)
  unfolding get modify
  get-modify k j f [] = ground arith
  get-modify k j f ((i, w) ∷ m) =
      ground (arith, eq_iff k j, eq_iff i k, eq_iff i j, get-modify k j f m)

  pub get-modify_or :
      (k j : String) (d : V) (f : V → V) (m : IndexMap V)
      → get j (modify_or k d f m)
        ≡ (if k == j then elim (get j m) [ none ↦ some (f d) | some w ↦ some (f w) ] else get j m)
  unfolding get modify_or
  get-modify_or k j d f [] = ground arith
  get-modify_or k j d f ((i, w) ∷ m) =
      ground (arith, eq_iff k j, eq_iff i k, eq_iff i j, get-modify_or k j d f m)

-- An `IndexSet<String>`.
abbrev pub contains : List String → String → Bool
contains xs k = any (λ j. j == k) xs

-- `insert`: an old member keeps its place.
unfoldable pub insert_set : String → List String → List String
insert_set k xs = if contains xs k then xs else xs ++ k ∷ []

pub contains-last :
    (xs : List String) (x k : String) → contains (xs ++ x ∷ []) k ≡ (contains xs k || x == k)
contains-last [] x k = ground arith
contains-last (y ∷ xs) x k = ground (arith, contains-last xs x k)

-- No entry of the map has the key.
abbrev pub Absent {ℓ} : {V : Type ℓ} → String → IndexMap V → Type 0
Absent k [] = Unit
Absent k ((j, w) ∷ m) = ((j == k) ≡ false) × Absent k m

-- Each key stands in the map once.
abbrev pub Distinct {ℓ} : {V : Type ℓ} → IndexMap V → Type 0
Distinct [] = Unit
Distinct ((j, w) ∷ m) = Absent j m × Distinct m

module _ {ℓ} {V : Type ℓ} where
  pub modify_or-Absent :
      (k : String) (d : V) (f : V → V) (m : IndexMap V)
      → Absent k m
      → modify_or k d f m ≡ m ++ (k, f d) ∷ []
  unfolding modify_or
  modify_or-Absent k d f [] h = refl
  modify_or-Absent k d f ((j, w) ∷ m) h = rw (h.0, modify_or-Absent k d f m h.1) refl

  pub modify_or_last :
      (k : String) (d w : V) (f : V → V) (m : IndexMap V)
      → Absent k m
      → modify_or k d f (m ++ (k, w) ∷ []) ≡ m ++ (k, f w) ∷ []
  unfolding modify_or
  modify_or_last k d w f [] h = rw (eq_refl k) refl
  modify_or_last k d w f ((j, v) ∷ m) h = rw (h.0, modify_or_last k d w f m h.1) refl

  pub Absent-last :
      (k j : String) (w : V) (m : IndexMap V)
      → Absent k m
      → (j == k) ≡ false
      → Absent k (m ++ (j, w) ∷ [])
  Absent-last k j w [] h e = (e, tt)
  Absent-last k j w ((i, v) ∷ m) h e = (h.0, Absent-last k j w m h.1 e)

  Absent-modify_or :
      (k j : String) (d : V) (f : V → V) (m : IndexMap V)
      → Absent k m
      → (j == k) ≡ false
      → Absent k (modify_or j d f m)
  unfolding modify_or
  Absent-modify_or k j d f [] h e = (e, tt)
  Absent-modify_or k j d f ((i, v) ∷ m) h e = elim (Bool-cases (i == j)) [
    | inl s ↦ rw s h
    | inr s ↦ rw s (h.0, Absent-modify_or k j d f m h.1 e)
  ]

  pub Distinct-modify_or :
      (k : String) (d : V) (f : V → V) (m : IndexMap V) → Distinct m → Distinct (modify_or k d f m)
  unfolding modify_or
  Distinct-modify_or k d f [] h = (tt, tt)
  Distinct-modify_or k d f ((i, v) ∷ m) h = elim (Bool-cases (i == k)) [
    | inl s ↦ rw s h
    | inr s ↦ rw s (
      Absent-modify_or i k d f m h.0 (ground (arith, s, eq_iff i k, eq_iff k i)),
      Distinct-modify_or k d f m h.1,
    )
  ]

  pub get-Absent : (k : String) (m : IndexMap V) → Absent k m → get k m ≡ none
  unfolding get
  get-Absent k [] h = refl
  get-Absent k ((j, w) ∷ m) h = rw h.0 (get-Absent k m h.1)

  pub Absent-get : (k : String) (m : IndexMap V) → get k m ≡ none → Absent k m
  unfolding get
  Absent-get k [] h = tt
  Absent-get k ((j, w) ∷ m) h = elim (Bool-cases (j == k)) [
    | inl e ↦ absurd (ground arith)
    | inr e ↦ (e, Absent-get k m (ground arith))
  ]

  pub get-shift_remove :
      (k j : String) (m : IndexMap V)
      → Distinct m
      → get j (shift_remove k m) ≡ (if k == j then none else get j m)
  unfolding get shift_remove
  get-shift_remove k j [] h = ground arith
  get-shift_remove k j ((i, w) ∷ m) h =
      ground
        (arith, eq_iff k j, eq_iff i k, eq_iff i j, get-shift_remove k j m h.1, get-Absent i m h.0)

  pub Distinct-shift_remove :
      (k : String) (m : IndexMap V) → Distinct m → Distinct (shift_remove k m)
  unfolding shift_remove
  Distinct-shift_remove k [] h = tt
  Distinct-shift_remove k ((i, w) ∷ m) h = elim (Bool-cases (i == k)) [
    | inl e ↦ rw e h.1
    | inr e ↦
        let gone : get i (shift_remove k m) ≡ none =
          ground (arith, get-shift_remove k i m h.1, get-Absent i m h.0, e) in
        rw e (Absent-get i (shift_remove k m) gone, Distinct-shift_remove k m h.1)
  ]

  pub Distinct-insert : (k : String) (v : V) (m : IndexMap V) → Distinct m → Distinct (insert k v m)
  unfolding insert
  Distinct-insert k v [] h = (tt, tt)
  Distinct-insert k v ((i, w) ∷ m) h = elim (Bool-cases (i == k)) [
    | inl e ↦ rw e h
    | inr e ↦
        let new : get i (insert k v m) ≡ none =
          ground (arith, get-insert k i v m, get-Absent i m h.0, e, eq_iff i k, eq_iff k i) in
        rw e (Absent-get i (insert k v m) new, Distinct-insert k v m h.1)
  ]

  pub contains-keys : (m : IndexMap V) (j : String) → contains (keys m) j ≡ contains_key j m
  unfolding keys get
  contains-keys [] j = refl
  contains-keys ((i, w) ∷ m) j = ground (arith, contains-keys m j)
