-- ===== src/Ingest/Scope.antt =====
-- The filter on the locations of results (`_in_scope` of src/deepthought/ingest/sarif.py).
pub mod Sound
use deep_thought.Prelude.{
  ℕ, String, Bool, true, false, not, ◌&&◌, ◌||◌, Option, none, some, List, [], ◌∷◌, ◌==◌, any,
  member, is_some, if◌then◌else◌,
}
use deep_thought.Prelude.Text.{after, strip, strip_of, has_char, join, path_parts}
use deep_thought.Scope.{is_below, resolve_within}
use deep_thought.Ingest.Patterns.{has_scheme}
use deep_thought.Ingest.Unquote.{unquote}

-- the file system, as for `resolve_within`
abbrev pub Resolve : Type 0
Resolve = List String → Option (List String)

abbrev pub is_blank : String → Bool
is_blank area = strip area == ""

-- what is refused whatever the areas are
unfoldable pub leaves_tree : String → Bool
unfolding has_scheme has_char after path_parts
leaves_tree uri =
    has_scheme uri || has_char b'\\' uri || is_some (after "/" uri) || member ".." (path_parts uri)

-- the parts of a path, against the root if there is one
unfoldable pub leaves_root : Resolve → Option (List String) → List String → Bool
unfolding resolve_within join
leaves_root resolve none norm = false
leaves_root resolve (some root) [] = false
leaves_root resolve (some root) (p ∷ ps) =
    not (is_some (resolve_within resolve root (join "/" (p ∷ ps))))

-- the loop over the areas; one without parts is the whole checkout, below which everything is
unfoldable pub under_area : List String → List String → Bool
unfolding strip_of path_parts
under_area norm [] = false
under_area norm (area ∷ areas) =
    let later = under_area norm areas in
    if is_blank area then later else is_below (path_parts (strip area)) norm || later

module _ (decode : List ℕ → String) (resolve : Resolve) where
  unfoldable pub in_areas : List String → Option (List String) → String → Bool
  unfolding leaves_tree leaves_root under_area path_parts
  in_areas areas root uri =
      if leaves_tree uri
      then false
      else if leaves_root resolve root (path_parts uri)
      then false
      else under_area (path_parts uri) areas

  -- `_in_scope`
  unfoldable pub in_scope : Option String → Option (List String) → Option (List String) → Bool
  unfolding in_areas strip_of unquote
  in_scope uri none root = true
  in_scope none (some areas) root = any (λ a. not (is_blank a)) areas
  in_scope (some uri) (some areas) root = in_areas areas root (unquote decode uri)
