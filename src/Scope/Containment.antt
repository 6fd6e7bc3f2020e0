-- ===== src/Scope/Containment.antt =====
-- The areas that pass, against the target.
use deep_thought.Prelude.{
  String, ◌≡◌, refl, true, false, Option, none, some, List, [], ◌∷◌, ◌++◌, ◌==◌, eq_iff, arith,
  member, if◌then◌else◌,
}
use deep_thought.Prelude.Text.{path_parts}
use deep_thought.Scope.{syntactically_safe, is_below, kept_below, resolve_within}

-- a path that begins with the root
abbrev pub IsInside : List String → List String → Type 0
IsInside [] path = Unit
IsInside (r ∷ rs) [] = ⊥
IsInside (r ∷ rs) (p ∷ ps) = (r ≡ p) × IsInside rs ps

is_below-IsInside : (root path : List String) → is_below root path ≡ true → IsInside root path
is_below-IsInside [] path h = tt
is_below-IsInside (r ∷ rs) [] h = cc
is_below-IsInside (r ∷ rs) (p ∷ ps) h =
    (ground (arith, h, eq_iff r p), is_below-IsInside rs ps (ground arith))

abbrev up : List String → Option (List String)
up [] = none
up (b ∷ below) = some below

-- Where the parts of a path lead from a directory, which is given as its own parts from the last to
-- the first: nowhere, if they step above the root.
unfoldable pub descend : List String → List String → Option (List String)
descend below [] = some below
descend below (p ∷ ps) = elim (if p == ".." then up below else some (p ∷ below)) [
  | none ↦ none
  | some next ↦ descend next ps
]

-- the directory below another one that the parts name
abbrev pub onto : List String → List String → List String
onto below [] = below
onto below (p ∷ ps) = onto (p ∷ below) ps

descend-onto :
    (below ps : List String) → member ".." ps ≡ false → descend below ps ≡ some (onto below ps)
unfolding descend
descend-onto below [] h = refl
descend-onto below (p ∷ ps) h = ground (arith, h, descend-onto (p ∷ below) ps)

no_dots : (area : String) → syntactically_safe area ≡ true → member ".." (path_parts area) ≡ false
unfolding syntactically_safe
no_dots area h = ground arith

-- The parts of an area that is safe by its syntax never step out of the directory that they start
-- from: they lead to the directory below it that they name.
pub syntactically_safe-descend :
    (area : String) (below : List String)
    → syntactically_safe area ≡ true
    → descend below (path_parts area) ≡ some (onto below (path_parts area))
syntactically_safe-descend area below h = descend-onto below (path_parts area) (no_dots area h)

kept_below-is_below :
    (root path : List String) (o : Option (List String))
    → kept_below root o ≡ some path
    → is_below root path ≡ true
kept_below-is_below root path none h = cc
kept_below-is_below root path (some q) h = ground arith

kept_below-resolve_within :
    (resolve : List String → Option (List String)) (root : List String) (area : String)
    (path : List String)
    → resolve_within resolve root area ≡ some path
    → kept_below root (resolve (root ++ path_parts area)) ≡ some path
unfolding resolve_within
kept_below-resolve_within resolve root area path h = ground arith

-- Whatever the links of the file system are, a path that is resolved lies inside the root.
pub resolve_within-IsInside :
    (resolve : List String → Option (List String)) (root : List String) (area : String)
    (path : List String)
    → resolve_within resolve root area ≡ some path
    → IsInside root path
resolve_within-IsInside resolve root area path h =
    is_below-IsInside root path
      (kept_below-is_below root path _ (kept_below-resolve_within resolve root area path h))
