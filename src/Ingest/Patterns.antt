-- ===== src/Ingest/Patterns.antt =====
-- The patterns of src/deepthought/ingest/sarif.py, as scans of a text, and `str.upper` and
-- `str.splitlines` as far as it uses them.
use Prim.Native.Char.{code}
use Prim.Native.Nat.{suc}
use deep_thought.Prelude.{
  ℕ, ◌-◌, String, ◌&◌, Bool, true, false, not, ◌&&◌, ◌||◌, none, some, ◌==◌, eqb, leb,
  if◌then◌else◌,
}
use deep_thought.Prelude.Text.{after, char_in}

-- `[0-9]`
abbrev pub is_digit : ℕ → Bool
is_digit c = leb b'0' c && leb c b'9'

-- `[A-Za-z]`
abbrev pub is_letter : ℕ → Bool
is_letter c = leb b'A' c && leb c b'Z' || leb b'a' c && leb c b'z'

-- the digits that a text starts with, counted, and the rest
unfoldable pub digit_run : String → ℕ × String
digit_run String.[] = (0, "")
digit_run (String.◌∷◌ c s) =
    let (n, rest) = digit_run s in if is_digit (code c) then (suc n, rest) else (0, String.◌∷◌ c s)

-- `[0-9]{low,high}` to the end
abbrev pub digits_to_end : ℕ → ℕ → String → Bool
digits_to_end low high s = let (n, rest) = digit_run s in leb low n && (leb n high && rest == "")

abbrev year_and_number : ℕ × String → Bool
year_and_number (n, rest) = elim (after "-" rest) [
  | none ↦ false
  | some number ↦ eqb n 4 && digits_to_end 4 19 number
]

-- `CVE-[0-9]{4}-[0-9]{4,19}`
unfoldable pub is_cve : String → Bool
unfolding after digit_run
is_cve s = elim (after "CVE-" s) [ none ↦ false | some rest ↦ year_and_number (digit_run rest) ]

-- `CWE-[0-9]{1,7}`
unfoldable pub is_cwe : String → Bool
unfolding after digit_run
is_cwe s = elim (after "CWE-" s) [ none ↦ false | some rest ↦ digits_to_end 1 7 rest ]

-- `s.upper()`, exact on the ASCII letters. The result is only compared with patterns in ASCII, and
-- no other character has an upper case that one of them takes.
unfoldable pub upper : String → String
unfolding char_in
upper String.[] = ""
upper (String.◌∷◌ c s) =
    let k = code c in
    let d =
      if leb b'a' k && leb k b'z' then char_in "ABCDEFGHIJKLMNOPQRSTUVWXYZ" (k - b'a') c else c in
    String.◌∷◌ d (upper s)

-- the end of a scheme: `[a-zA-Z0-9+.\-]*:`
scheme_goes_on : String → Bool
scheme_goes_on String.[] = false
scheme_goes_on (String.◌∷◌ c s) =
    let k = code c in
    let rest = scheme_goes_on s in
    if eqb k b':'
    then true
    else (is_letter k || is_digit k || eqb k b'+' || eqb k b'.' || eqb k b'-') && rest

-- `_URI_SCHEME_RE.match(s)`
unfoldable pub has_scheme : String → Bool
unfolding scheme_goes_on
has_scheme String.[] = false
has_scheme (String.◌∷◌ c s) = is_letter (code c) && scheme_goes_on s

-- `[!-~]` without regard to case, which takes four letters beyond ASCII for `i`, `k` and `s`
abbrev pub is_url_char : ℕ → Bool
is_url_char k =
    leb b'!' k && leb k b'~' || eqb k 0x130 || eqb k 0x131 || eqb k 0x17f || eqb k 0x212a

unfoldable pub all_url_chars : String → Bool
all_url_chars String.[] = true
all_url_chars (String.◌∷◌ c s) = is_url_char (code c) && all_url_chars s

-- `(?![/?#])[!-~]+`
authority : String → Bool
unfolding all_url_chars
authority String.[] = false
authority (String.◌∷◌ c s) =
    let k = code c in not (eqb k b'/' || eqb k b'?' || eqb k b'#') && all_url_chars (String.◌∷◌ c s)

-- one letter of a pattern without regard to case, by its two ASCII forms
abbrev is_either : ℕ → ℕ → ℕ → Bool
is_either small large k = eqb k small || eqb k large

-- `s` without regard to case
abbrev is_s : ℕ → Bool
is_s k = is_either b's' b'S' k || eqb k 0x17f

after_https : String → Bool
unfolding after authority
after_https s = elim (after "://" s) [ none ↦ false | some rest ↦ authority rest ]

-- `s?` and what follows
after_http : String → Bool
unfolding after_https
after_http String.[] = false
after_http (String.◌∷◌ c s) = if is_s (code c) then after_https s else after_https (String.◌∷◌ c s)

-- `_SAFE_HTTP_URL_RE.fullmatch(s)`
unfoldable pub is_safe_http_url : String → Bool
unfolding after_http
is_safe_http_url (String.◌∷◌ h (String.◌∷◌ t (String.◌∷◌ u (String.◌∷◌ p s)))) =
    is_either b'h' b'H' (code h)
    && (is_either b't' b'T' (code t)
        && (is_either b't' b'T' (code u) && (is_either b'p' b'P' (code p) && after_http s)))
is_safe_http_url _ = false

-- the characters that end a line for `str.splitlines`
abbrev is_line_end : ℕ → Bool
is_line_end c =
    leb 10 c && leb c 13 || leb 28 c && leb c 30 || eqb c 0x85 || leb 0x2028 c && leb c 0x2029

-- `s.splitlines()[0] if s.splitlines() else s`
unfoldable pub first_line : String → String
first_line String.[] = ""
first_line (String.◌∷◌ c s) =
    let rest = first_line s in if is_line_end (code c) then "" else String.◌∷◌ c rest

-- `s.replace("_", "-")`
unfoldable pub hyphens : String → String
hyphens String.[] = ""
hyphens (String.◌∷◌ c s) = (if eqb (code c) b'_' then "-" else String.◌∷◌ c "") & hyphens s

-- Words. `is_wide` says which characters beyond ASCII are alphanumeric.
module _ (is_wide : ℕ → Bool) where
  -- `\w`
  abbrev pub is_word : ℕ → Bool
  is_word c = is_letter c || is_digit c || eqb c b'_' || leb 128 c && is_wide c

  abbrev pub starts_word : String → Bool
  starts_word String.[] = false
  starts_word (String.◌∷◌ c s) = is_word (code c)

  -- a needle here, up to a word's end
  abbrev word_here : String → String → Bool
  word_here needle s = elim (after needle s) [ none ↦ false | some rest ↦ not (starts_word rest) ]

  word_from : Bool → String → String → Bool
  unfolding after
  word_from in_word needle String.[] = not in_word && word_here needle ""
  word_from in_word needle (String.◌∷◌ c s) =
      not in_word && word_here needle (String.◌∷◌ c s) || word_from (is_word (code c)) needle s

  -- `re.search(rf"\b{re.escape(needle)}\b", s)`, for a needle that starts and ends in a word
  unfoldable pub has_word : String → String → Bool
  unfolding word_from
  has_word = word_from false
