-- ===== src/Prelude/FilePaths.antt =====
-- The functions of Python's `os.path` that the program calls, on POSIX paths.
use Prim.Native.Char.{code}
use Prim.Native.String.{String, ◌++◌}
use mathlib.Core.Bool.{Bool, false, not, ◌&&◌, ◌||◌}
use mathlib.Core.List.{List, [], ◌∷◌, reverse}
use text.Mathlib.Text.{◌==◌}
use deep_thought.Prelude.Tests.{eqb, is_some, if◌then◌else◌}
use deep_thought.Prelude.Text.{after, split_slash, join}

-- `s.startswith(p)`
abbrev pub starts_with : String → String → Bool
starts_with p s = is_some (after p s)

-- `/`, or `//` for exactly two slashes, in front of an absolute path
leading : String → String
leading s =
    if not (starts_with "/" s)
    then ""
    else if starts_with "//" s && not (starts_with "///" s)
    then "//"
    else "/"

-- the parts kept so far, the last one first, after one more part
keep_part : Bool → String → List String → List String
keep_part absolute part [] =
    if part == "" || part == "." || part == ".." && absolute then [] else part ∷ []
keep_part absolute part (last ∷ parts) =
    if part == "" || part == "."
    then last ∷ parts
    else if part == ".."
    then (if last == ".." then part ∷ last ∷ parts else parts)
    else part ∷ last ∷ parts

keep_parts : Bool → List String → List String → List String
keep_parts absolute kept [] = kept
keep_parts absolute kept (part ∷ parts) = keep_parts absolute (keep_part absolute part kept) parts

unfoldable pub normpath : String → String
unfolding leading keep_parts keep_part after split_slash join
normpath s =
    let kept = keep_parts (starts_with "/" s) [] (split_slash s) in
    let path = leading s ++ join "/" (reverse kept) in if path == "" then "." else path

ends_in_slash : String → Bool
ends_in_slash String.[] = false
ends_in_slash (String.◌∷◌ c String.[]) = eqb (code c) b'/'
ends_in_slash (String.◌∷◌ c (String.◌∷◌ d s)) = ends_in_slash (String.◌∷◌ d s)

-- `os.path.join(a, b)`
unfoldable pub join_path : String → String → String
unfolding after ends_in_slash
join_path a b =
    if starts_with "/" b then b else if a == "" || ends_in_slash a then a ++ b else a ++ ("/" ++ b)

last_of : List String → String
last_of [] = ""
last_of (s ∷ []) = s
last_of (s ∷ t ∷ ss) = last_of (t ∷ ss)

unfoldable pub basename : String → String
unfolding last_of split_slash
basename s = last_of (split_slash s)
