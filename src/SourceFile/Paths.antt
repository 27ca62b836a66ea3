-- ===== src/SourceFile/Paths.antt =====
-- The segments of a joined path (crates/js-x-ray/src/source_file.rs: `posix_join`).
use js_x_ray_rs.Prelude.{
  String, Bool, false, not, ◌&&◌, ◌||◌, List, [], ◌∷◌, ◌==◌, ◌≡◌, refl, arith, Bool-cases, inl, inr,
  all,
}
use js_x_ray_rs.SourceFile.{push_segment, push_segments, climb}

abbrev are_climbs : List String → Bool
are_climbs = all (λ s. s == "..")

-- Of the segments, the last of them first: none is empty or `.`, and before a `..` there are only `..`.
abbrev pub IsNormal : List String → Type 0
IsNormal [] = Unit
IsNormal (s ∷ rest) =
    ((s == "") ≡ false)
    × ((s == ".") ≡ false)
    × ((s == ".." && not (are_climbs rest)) ≡ false)
    × IsNormal rest

climb-IsNormal : (out : List String) → IsNormal out → IsNormal (climb out)
climb-IsNormal [] h = (refl, refl, refl, tt)
climb-IsNormal (last ∷ rest) h = elim (Bool-cases (last == "..")) [
  | inl e ↦ rw e (refl, refl, ground (arith, h.2, e), h)
  | inr e ↦ rw e h.3
]

push_segment-IsNormal :
    (part : String) (out : List String) → IsNormal out → IsNormal (push_segment part out)
push_segment-IsNormal part out h = elim (Bool-cases (part == "" || part == ".")) [
  | inl e ↦ rw e h
  | inr e ↦ rw e (elim (Bool-cases (part == "..")) [
    | inl up ↦ rw up (climb-IsNormal out h)
    | inr down ↦ rw down (ground arith, ground arith, ground arith, h)
  ])
]

-- Joining keeps the segments normal: none is empty or `.`, and a `..` stands only at the front.
pub push_segments-IsNormal :
    (parts out : List String) → IsNormal out → IsNormal (push_segments parts out)
push_segments-IsNormal [] out h = h
push_segments-IsNormal (part ∷ rest) out h =
    push_segments-IsNormal rest (push_segment part out) (push_segment-IsNormal part out h)
