-- ===== src/Sibling/Locations.antt =====
-- The location lines of a finding's body (`_LOCATION_RE` of src/deepthought/sibling/signature.py), as a
-- scan: the pattern takes its blanks and everything up to the next backtick, so there is one way to
-- match at a place.
use Prim.Native.Char.{Char, code}
use deep_thought.Prelude.{
  ℕ, zero, suc, ◌-◌, String, Bool, false, Option, none, some, List, [], ◌∷◌, ◌==◌, eqb,
  if◌then◌else◌,
}
use deep_thought.Prelude.Text.{after, is_space, lstrip_of, lstrip}
use deep_thought.Ids.{size}

-- a text up to the first backtick, and what follows it, if there is one
abbrev onto_group : Char → Option (String × String) → Option (String × String)
onto_group c none = none
onto_group c (some (group, rest)) = some (String.◌∷◌ c group, rest)

unfoldable pub until_tick : String → Option (String × String)
until_tick String.[] = none
until_tick (String.◌∷◌ c s) =
    let later = until_tick s in if eqb (code c) b'`' then some ("", s) else onto_group c later

-- "([^`]+)`"
abbrev filled : Option (String × String) → Option (String × String)
filled none = none
filled (some (group, rest)) = if group == "" then none else some (group, rest)

starts_blank : String → Bool
starts_blank String.[] = false
starts_blank (String.◌∷◌ c s) = is_space (code c)

quoted : Option String → Option (String × String)
unfolding until_tick
quoted none = none
quoted (some s) = filled (until_tick s)

-- the rest of the pattern after `\*\*Location:\*\*`
blanks_then_quoted : Option String → Option (String × String)
unfolding starts_blank quoted after lstrip_of
blanks_then_quoted none = none
blanks_then_quoted (some s) = if starts_blank s then quoted (after "`" (lstrip s)) else none

-- a match at the front of a text: the group, and what follows the match
unfoldable pub match_here : String → Option (String × String)
unfolding blanks_then_quoted after
match_here s = blanks_then_quoted (after "**Location:**" s)

-- what one place adds to the groups, and how many of the next places the match covers
abbrev found_here : Option (String × String) → List String → List String
found_here none later = later
found_here (some (group, rest)) later = group ∷ later

abbrev covered : ℕ → Option (String × String) → ℕ
covered length none = 0
covered length (some (group, rest)) = length - size rest - 1

-- the groups of the matches, from left to right, after some places that a match covers
unfoldable pub find_from : ℕ → String → List String
unfolding match_here
find_from skip String.[] = []
find_from (suc skip) (String.◌∷◌ c s) = find_from skip s
find_from zero (String.◌∷◌ c s) =
    let match = match_here (String.◌∷◌ c s) in
    let length = size (String.◌∷◌ c s) in found_here match (find_from (covered length match) s)

-- `_LOCATION_RE.findall(body)`
unfoldable pub find_all : String → List String
unfolding find_from
find_all = find_from 0
