-- ===== src/Examples/Paths.antt =====
-- Areas at a root with one symbolic link that leads out of it.
use deep_thought.Prelude.{
  String, ◌≡◌, refl, true, false, Option, some, List, [], ◌∷◌, member, if◌then◌else◌,
}
use deep_thought.Prelude.Text.{after, has_char, path_parts, root_part, split_slash}
use deep_thought.Scope.{syntactically_safe, resolve_within, area_in_scope}

abbrev root : List String
root = "src" ∷ "php" ∷ []

-- `src/php/link` is a link to `etc`; all else is where it says it is
abbrev resolve : List String → Option (List String)
resolve path = if member "link" path then some ("etc" ∷ []) else some path

soap_is_safe : syntactically_safe "ext/soap" ≡ true
unfolding syntactically_safe after has_char path_parts root_part split_slash
soap_is_safe = refl

parent_is_refused : syntactically_safe "ext/../../etc" ≡ false
unfolding syntactically_safe after has_char path_parts root_part split_slash
parent_is_refused = refl

link_is_refused : area_in_scope resolve "link/passwd" (some root) ≡ false
unfolding area_in_scope resolve_within syntactically_safe after has_char path_parts root_part
    split_slash
link_is_refused = refl

soap_is_resolved :
    resolve_within resolve root "ext/soap" ≡ some ("src" ∷ "php" ∷ "ext" ∷ "soap" ∷ [])
unfolding resolve_within syntactically_safe after has_char path_parts root_part split_slash
soap_is_resolved = refl
