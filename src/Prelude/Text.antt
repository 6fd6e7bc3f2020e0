-- ===== src/Prelude/Text.antt =====
-- The operations on texts that the program takes from Python: `strip`, `split`, the decimal print
-- and `repr`. A text is a native `String`, a sequence of code points.
use Prim.Native.Nat.{ℕ, zero, suc, ◌-◌, ◌/◌, ◌%◌}
use Prim.Native.Char.{Char, code}
use Prim.Native.String.{String, ◌++◌, count}
use mathlib.Core.Bool.{Bool, false, not, ◌&&◌, ◌||◌}
use mathlib.Core.Option.{Option, none, some}
use mathlib.Core.List.{List, [], ◌∷◌, ◌++◌ as ◌+++◌}
use text.Mathlib.Text.{◌==◌}
use deep_thought.Prelude.Lists.{keep}
use deep_thought.Prelude.Tests.{ltb, leb, eqb, is_some, if◌then◌else◌}

-- `str.isspace` of one character, which is also `\s` of a pattern.
abbrev pub is_space : ℕ → Bool
is_space c =
    leb 9 c && leb c 13
    || leb 28 c && leb c 32
    || eqb c 0x85
    || eqb c 0xa0
    || eqb c 0x1680
    || leb 0x2000 c && leb c 0x200a
    || leb 0x2028 c && leb c 0x2029
    || eqb c 0x202f
    || eqb c 0x205f
    || eqb c 0x3000

-- `str.strip(chars)`, for a class of characters.
unfoldable pub lstrip_of : (ℕ → Bool) → String → String
lstrip_of p String.[] = ""
lstrip_of p (String.◌∷◌ c s) =
    let rest = lstrip_of p s in if p (code c) then rest else String.◌∷◌ c s

-- A character in front of what a strip at the right end left.
abbrev pub onto_stripped : Bool → Char → String → String
onto_stripped drop c String.[] = if drop then "" else String.◌∷◌ c ""
onto_stripped drop c (String.◌∷◌ d s) = String.◌∷◌ c (String.◌∷◌ d s)

unfoldable pub rstrip_of : (ℕ → Bool) → String → String
rstrip_of p String.[] = ""
rstrip_of p (String.◌∷◌ c s) = onto_stripped (p (code c)) c (rstrip_of p s)

unfoldable pub strip_of : (ℕ → Bool) → String → String
unfolding lstrip_of rstrip_of
strip_of p s = rstrip_of p (lstrip_of p s)

-- `str.lstrip()`
abbrev pub lstrip : String → String
lstrip = lstrip_of (λ c. is_space c)

-- `str.strip()`
abbrev pub strip : String → String
strip = strip_of (λ c. is_space c)

-- The rest of `s` after the prefix `p`, if `s.startswith(p)`.
unfoldable pub after : String → String → Option String
after String.[] s = some s
after (String.◌∷◌ p ps) String.[] = none
after (String.◌∷◌ p ps) (String.◌∷◌ c s) =
    let rest = after ps s in if eqb (code p) (code c) then rest else none

-- The character of `s` at a place, or `c`.
unfoldable pub char_in : String → ℕ → Char → Char
char_in String.[] n c = c
char_in (String.◌∷◌ d s) zero c = d
char_in (String.◌∷◌ d s) (suc n) c = char_in s n c

-- `str.lower` of one character, for the characters whose lower case has an ASCII letter. The
-- others are left alone: the program searches the result for ASCII texts only.
lower_char : Char → String
lower_char c =
    let k = code c in
    if leb b'A' k && leb k b'Z'
    then String.◌∷◌ (char_in "abcdefghijklmnopqrstuvwxyz" (k - b'A') c) ""
    else if eqb k 0x212a
    then "k"
    else if eqb k 0x130
    then "i̇"
    else String.◌∷◌ c ""

-- `s.lower()`
unfoldable pub lower : String → String
unfolding lower_char char_in
lower String.[] = ""
lower (String.◌∷◌ c s) = lower_char c ++ lower s

-- `t in s`
unfoldable pub contains : String → String → Bool
unfolding after
contains t String.[] = is_some (after t "")
contains t (String.◌∷◌ c s) = is_some (after t (String.◌∷◌ c s)) || contains t s

-- `c in s`
unfoldable pub has_char : ℕ → String → Bool
has_char k String.[] = false
has_char k (String.◌∷◌ c s) = eqb (code c) k || has_char k s

-- A character in front of the first part.
abbrev pub onto_first : Char → List String → List String
onto_first c [] = String.◌∷◌ c "" ∷ []
onto_first c (part ∷ parts) = String.◌∷◌ c part ∷ parts

-- `s.split("/")`
unfoldable pub split_slash : String → List String
split_slash String.[] = "" ∷ []
split_slash (String.◌∷◌ c s) =
    let rest = split_slash s in if eqb (code c) b'/' then "" ∷ rest else onto_first c rest

-- the parts of an f-string
abbrev pub concat : List String → String
concat [] = ""
concat (s ∷ ss) = s ++ concat ss

-- `sep.join(parts)`
unfoldable pub join : String → List String → String
join sep [] = ""
join sep (s ∷ []) = s
join sep (s ∷ t ∷ ts) = s ++ (sep ++ join sep (t ∷ ts))

-- The digits, in lower case for a base up to 16.
unfoldable pub digit_in : List String → ℕ → String
digit_in [] n = ""
digit_in (d ∷ ds) zero = d
digit_in (d ∷ ds) (suc n) = digit_in ds n

unfoldable pub digit : ℕ → String
unfolding digit_in
digit = digit_in (
    "0" ∷ "1" ∷ "2" ∷ "3" ∷ "4" ∷ "5" ∷ "6" ∷ "7" ∷ "8" ∷ "9" ∷ "a" ∷ "b" ∷ "c" ∷ "d" ∷ "e" ∷ "f"
    ∷ [])

unfoldable pub show_from : ℕ → ℕ → String
show_from zero n = digit n
show_from (suc fuel) n =
    let rest = show_from fuel (n / 10) in if ltb n 10 then digit n else rest ++ digit (n % 10)

-- `str(n)`; a number has at most as many digits as its value, so the fuel is enough.
unfoldable pub show : ℕ → String
unfolding show_from digit
show n = show_from n n

unfoldable pub zeros : ℕ → String
zeros zero = ""
zeros (suc k) = "0" ++ zeros k

-- `f"{n:0<width>d}"`: zeros in front, up to the width.
unfoldable pub pad : ℕ → ℕ → String
unfolding zeros show
pad width n = zeros (width - count (show n)) ++ show n

escape : ℕ → Char → String
escape quote c =
    let k = code c in
    let self : String = String.◌∷◌ c "" in
    if eqb k b'\\' || eqb k quote
    then "\\" ++ self
    else if eqb k 10
    then "\\n"
    else if eqb k 13
    then "\\r"
    else if eqb k 9
    then "\\t"
    else if ltb k 32 || leb 127 k && leb k 160 || eqb k 173
    then "\\x" ++ (digit (k / 16) ++ digit (k % 16))
    else self

escape_all : ℕ → String → String
escape_all quote String.[] = ""
escape_all quote (String.◌∷◌ c s) = escape quote c ++ escape_all quote s

-- `repr(s)`, which `!r` prints. Beyond Latin-1 every character is taken to be printable.
unfoldable pub repr : String → String
unfolding escape escape_all digit has_char
repr s =
    if has_char 39 s && not (has_char 34 s)
    then "\"" ++ (escape_all 34 s ++ "\"")
    else "'" ++ (escape_all 39 s ++ "'")

-- `str(o)` of an optional text
abbrev pub or_none : Option String → String
or_none none = "None"
or_none (some s) = s

-- `o or ""`
abbrev pub or_empty : Option String → String
or_empty none = ""
or_empty (some s) = s

-- What a text file gives back: universal line ends, as `read_text` reads them.
unfoldable pub newlines : String → String
newlines String.[] = ""
newlines (String.◌∷◌ c String.[]) = if eqb (code c) 13 then "\n" else String.◌∷◌ c ""
newlines (String.◌∷◌ c (String.◌∷◌ d s)) =
    let rest = newlines (String.◌∷◌ d s) in
    if eqb (code c) 13
    then (if eqb (code d) 10 then rest else String.◌∷◌ "\n" rest)
    else String.◌∷◌ c rest

-- `PurePosixPath(s).parts`
abbrev pub is_part : String → Bool
is_part s = not (s == "" || s == ".")

unfoldable pub root_part : String → List String
root_part s = elim (after "/" s) [
  | none ↦ []
  | some t ↦ elim (after "/" t) [
    | none ↦ "/" ∷ []
    | some u ↦ if is_some (after "/" u) then "/" ∷ [] else "//" ∷ []
  ]
]

unfoldable pub path_parts : String → List String
unfolding root_part split_slash after
path_parts s = root_part s +++ keep is_part (split_slash s)
