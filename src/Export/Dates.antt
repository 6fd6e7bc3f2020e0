-- ===== src/Export/Dates.antt =====
-- `_is_date_time` of src/deepthought/export/_formats.py on a text. The parameter is whether
-- `datetime.fromisoformat` takes a text; it refuses digits beyond ASCII and a line break at the end,
-- which the pattern lets through.
use Prim.Native.Char.{code}
use deep_thought.Prelude.{
  ℕ, String, ◌&◌, Bool, false, ◌&&◌, ◌||◌, Option, none, some, ◌==◌, eqb, leb, if◌then◌else◌,
}
use deep_thought.Ingest.Patterns.{digit_run}

-- exactly so many digits: what follows them
abbrev exactly : ℕ → ℕ × String → Option String
exactly n (m, rest) = if eqb m n then some rest else none

unfoldable pub digits_then : ℕ → Option String → Option String
unfolding digit_run
digits_then n none = none
digits_then n (some s) = exactly n (digit_run s)

-- one character of two
unfoldable pub one_of : ℕ → ℕ → Option String → Option String
one_of a b none = none
one_of a b (some String.[]) = none
one_of a b (some (String.◌∷◌ c s)) = if eqb (code c) a || eqb (code c) b then some s else none

abbrev one : ℕ → Option String → Option String
one a o = one_of a a o

-- `(\.\d+)?`
abbrev some_digits : String → ℕ × String → String
some_digits before (n, rest) = if leb 1 n then rest else before

fraction : String → String
unfolding digit_run
fraction String.[] = ""
fraction (String.◌∷◌ c s) =
    if eqb (code c) b'.' then some_digits (String.◌∷◌ c s) (digit_run s) else String.◌∷◌ c s

abbrev at_end : Option String → Bool
at_end none = false
at_end (some s) = s == ""

-- `([Zz]|[+-]\d{2}:\d{2})$`
zone : Option String → Bool
unfolding fraction one_of digits_then
zone none = false
zone (some s) =
    let rest = some (fraction s) in
    at_end (one_of b'Z' b'z' rest)
    || at_end (digits_then 2 (one b':' (digits_then 2 (one_of b'+' b'-' rest))))

-- `_RFC3339_RE.match(s)`
unfoldable pub is_rfc3339 : String → Bool
unfolding zone one_of digits_then
is_rfc3339 s =
    let day = digits_then 2 (one b'-' (digits_then 2 (one b'-' (digits_then 4 (some s))))) in
    let minute = digits_then 2 (one b':' (digits_then 2 (one_of b'T' b't' day))) in
    zone (digits_then 2 (one b':' minute))

-- `value.replace("Z", "+00:00").replace("z", "+00:00")`
unfoldable pub with_offset : String → String
with_offset String.[] = ""
with_offset (String.◌∷◌ c s) =
    (if eqb (code c) b'Z' || eqb (code c) b'z' then "+00:00" else String.◌∷◌ c "") & with_offset s

unfoldable pub is_date_time : (String → Bool) → String → Bool
unfolding is_rfc3339 with_offset
is_date_time fromisoformat s = is_rfc3339 s && fromisoformat (with_offset s)
