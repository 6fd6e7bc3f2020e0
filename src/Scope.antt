-- ===== src/Scope.antt =====
-- Path containment (src/deepthought/scope.py). The parameter `resolve` is the file system: the parts
-- of a path after every symbolic link is followed, or none where that raises.
pub mod Containment
use deep_thought.Prelude.{
  String, Bool, true, false, not, ◌&&◌, ◌||◌, Option, none, some, List, [], ◌∷◌, ◌++◌, ◌==◌, member,
  is_some, if◌then◌else◌,
}
use deep_thought.Prelude.Text.{after, has_char, path_parts}

-- `_syntactically_safe`; a path that does not start with a slash is not absolute
unfoldable pub syntactically_safe : String → Bool
unfolding after has_char path_parts
syntactically_safe area =
    if area == "" || is_some (after "/" area) || has_char b'\\' area
    then false
    else not (member ".." (path_parts area))

-- `relative_to`: whether the parts of a path begin with those of another
abbrev pub is_below : List String → List String → Bool
is_below [] ps = true
is_below (r ∷ rs) [] = false
is_below (r ∷ rs) (p ∷ ps) = r == p && is_below rs ps

abbrev pub kept_below : List String → Option (List String) → Option (List String)
kept_below root none = none
kept_below root (some path) = if is_below root path then some path else none

-- `resolve_within`, from the root as it resolves
unfoldable pub resolve_within :
    (List String → Option (List String)) → List String → String → Option (List String)
unfolding syntactically_safe path_parts
resolve_within resolve root area =
    if not (syntactically_safe area)
    then none
    else kept_below root (resolve (root ++ path_parts area))

abbrev within : (List String → Option (List String)) → String → Option (List String) → Bool
within resolve area none = true
within resolve area (some root) = is_some (resolve_within resolve root area)

unfoldable pub area_in_scope :
    (List String → Option (List String)) → String → Option (List String) → Bool
unfolding syntactically_safe resolve_within
area_in_scope resolve area root =
    if not (syntactically_safe area) then false else within resolve area root
