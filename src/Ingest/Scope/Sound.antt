-- ===== src/Ingest/Scope/Sound.antt =====
-- What holds of a location that passes the filter.
use deep_thought.Prelude.{
  ℕ, String, ◌≡◌, refl, inl, inr, Bool, true, false, not, ◌&&◌, Option, none, some, List, [], ◌∷◌,
  member, arith, Bool-cases, Option-cases, In,
}
use deep_thought.Prelude.Text.{strip, path_parts, join}
use deep_thought.Scope.{is_below, resolve_within}
use deep_thought.Scope.Containment.{IsInside, resolve_within-IsInside}
use deep_thought.Ingest.Unquote.{unquote}
use deep_thought.Ingest.Scope.{
  Resolve, is_blank, leaves_tree, leaves_root, under_area, in_areas, in_scope,
}

-- an area of the allowlist, not blank, that the path is below
abbrev pub IsCovered : List String → List String → Type 0
IsCovered norm areas =
    (area : String) × In area areas
    × (is_blank area ≡ false)
    × (is_below (path_parts (strip area)) norm ≡ true)

-- under a checkout, a path resolves, to somewhere inside
abbrev pub StaysInside : Resolve → Option (List String) → List String → Type 0
StaysInside resolve none norm = Unit
StaysInside resolve (some root) [] = Unit
StaysInside resolve (some root) (p ∷ ps) =
    (path : List String) × (resolve_within resolve root (join "/" (p ∷ ps)) ≡ some path)
    × IsInside root path

abbrev here : List String → String → Bool
here norm area = not (is_blank area) && is_below (path_parts (strip area)) norm

under_area-IsCovered :
    (norm areas : List String) → under_area norm areas ≡ true → IsCovered norm areas
unfolding under_area
under_area-IsCovered norm [] h = cc
under_area-IsCovered norm (area ∷ areas) h = elim (Bool-cases (here norm area)) [
  | inl yes_here ↦ (area, inl refl, ground arith, ground arith)
  | inr not_here ↦
      let (a, found, full, rest) = under_area-IsCovered norm areas (ground arith) in
      (a, inr found, full, rest)
]

leaves_root-StaysInside :
    (resolve : Resolve) (root : Option (List String)) (norm : List String)
    → leaves_root resolve root norm ≡ false
    → StaysInside resolve root norm
unfolding leaves_root
leaves_root-StaysInside resolve none norm h = tt
leaves_root-StaysInside resolve (some root) [] h = tt
leaves_root-StaysInside resolve (some root) (p ∷ ps) h =
    elim (Option-cases (resolve_within resolve root (join "/" (p ∷ ps)))) [
      | inl gone ↦ absurd (ground arith)
      | inr (path, found) ↦
          (path, found, resolve_within-IsInside resolve root (join "/" (p ∷ ps)) path found)
    ]

leaves_tree-dots : (uri : String) → leaves_tree uri ≡ false → member ".." (path_parts uri) ≡ false
unfolding leaves_tree
leaves_tree-dots uri h = ground arith

in_areas-passes :
    (decode : List ℕ → String) (resolve : Resolve) (areas : List String)
    (root : Option (List String)) (uri : String)
    → in_areas decode resolve areas root uri ≡ true
    → (leaves_tree uri ≡ false)
      × (leaves_root resolve root (path_parts uri) ≡ false)
      × (under_area (path_parts uri) areas ≡ true)
unfolding in_areas
in_areas-passes decode resolve areas root uri h = (ground arith, ground arith, ground arith)

-- A location that passes the filter of an allowlist is in the scope, whatever its percent signs hide:
-- as it is decoded, its parts never step up, they are below an area of the allowlist that is not
-- blank, and under a checkout the path resolves to a place inside it, whatever the links are.
pub in_scope-IsCovered :
    (decode : List ℕ → String) (resolve : Resolve) (uri : String) (areas : List String)
    (root : Option (List String))
    → in_scope decode resolve (some uri) (some areas) root ≡ true
    → (member ".." (path_parts (unquote decode uri)) ≡ false)
      × IsCovered (path_parts (unquote decode uri)) areas
      × StaysInside resolve root (path_parts (unquote decode uri))
unfolding in_scope
in_scope-IsCovered decode resolve uri areas root h =
    let (stays, inside, below) = in_areas-passes decode resolve areas root (unquote decode uri) h in
    (
      leaves_tree-dots (unquote decode uri) stays,
      under_area-IsCovered _ areas below,
      leaves_root-StaysInside resolve root _ inside,
    )
