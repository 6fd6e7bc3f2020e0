-- ===== src/Sandbox/Asan/Headers.antt =====
-- Where the sanitizer report of an output begins, and the scans that the patterns are made of
-- (src/deepthought/sandbox/asan.py). A pattern is a scan: there is one way for it to match at a place.
use Prim.Native.Char.{code}
use deep_thought.Prelude.{
  ℕ, zero, suc, ◌-◌, String, Bool, ◌||◌, Option, none, some, ◌==◌, eqb, if◌then◌else◌,
}
use deep_thought.Prelude.Text.{after, is_space}
use deep_thought.Ids.{size}
use deep_thought.Ingest.Patterns.{is_digit, is_letter}

-- the longest front of a text in a class of characters, and the rest
unfoldable pub span : (ℕ → Bool) → String → String × String
span p String.[] = ("", "")
span p (String.◌∷◌ c s) =
    let (front, rest) = span p s in
    if p (code c) then (String.◌∷◌ c front, rest) else ("", String.◌∷◌ c s)

abbrev pub if_any : String × String → Option (String × String)
if_any (front, rest) = if front == "" then none else some (front, rest)

-- `(p+)`
unfoldable pub group : (ℕ → Bool) → Option String → Option (String × String)
unfolding span
group p none = none
group p (some s) = if_any (span p s)

abbrev pub rest_of : Option (String × String) → Option String
rest_of none = none
rest_of (some (front, rest)) = some rest

-- `p+`, `\s+` and a word
abbrev pub past : (ℕ → Bool) → Option String → Option String
past p o = rest_of (group p o)

abbrev pub blanks : Option String → Option String
blanks o = past (λ c. is_space c) o

unfoldable pub literal : String → Option String → Option String
unfolding after
literal word none = none
literal word (some s) = after word s

-- how many of the next places a match covers
abbrev pub covered : ℕ → Option String → ℕ
covered length none = 0
covered length (some rest) = length - size rest - 1

-- `_ERR` at the front of a text: the class of the error, and what follows
unfoldable pub err_here : String → Option (String × String)
unfolding group literal
err_here s =
    group (λ c. is_letter c || is_digit c || eqb c b'-')
      (blanks (literal "AddressSanitizer:" (blanks (literal "ERROR:" (some s)))))

abbrev pub last_of : Option (String × String) → String → Option String → Option String
last_of none here later = later
last_of (some found) here none = some here
last_of (some found) here (some report) = some report

unfoldable pub last_from : ℕ → String → Option String
unfolding err_here
last_from skip String.[] = none
last_from (suc skip) (String.◌∷◌ c s) = last_from skip s
last_from zero (String.◌∷◌ c s) =
    let found = err_here (String.◌∷◌ c s) in
    let length = size (String.◌∷◌ c s) in
    last_of found (String.◌∷◌ c s) (last_from (covered length (rest_of found)) s)

-- `_last_err`, as the text from the last match onward
unfoldable pub last_err : String → Option String
unfolding last_from
last_err = last_from 0

abbrev pub or_whole : String → Option String → String
or_whole text none = text
or_whole text (some report) = report

unfoldable pub report_from_header : String → String
unfolding last_err
report_from_header text = or_whole text (last_err text)
