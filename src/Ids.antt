-- ===== src/Ids.antt =====
-- Record ids, which are used as file names (src/deepthought/schema/common.py): the pattern, and the
-- coercion of any text to it.
pub mod Safe
pub mod Sizes
use Prim.Native.Char.{code}
use deep_thought.Prelude.{
  ℕ, zero, suc, String, Bool, true, false, ◌&&◌, ◌||◌, not, ◌==◌, eqb, leb, if◌then◌else◌,
}
use deep_thought.Prelude.Text.{strip_of}

-- `[A-Za-z0-9]`
abbrev pub is_alnum : ℕ → Bool
is_alnum c = leb b'A' c && leb c b'Z' || leb b'a' c && leb c b'z' || leb b'0' c && leb c b'9'

-- `[._-]`
abbrev pub is_mark : ℕ → Bool
is_mark c = eqb c b'.' || eqb c b'_' || eqb c b'-'

-- `[A-Za-z0-9._-]`
abbrev pub is_id_char : ℕ → Bool
is_id_char c = is_alnum c || is_mark c

abbrev pub max_length : ℕ
max_length = 128

-- the number of characters
abbrev pub size : String → ℕ
size String.[] = 0
size (String.◌∷◌ c s) = suc (size s)

-- `[A-Za-z0-9._-]*[A-Za-z0-9]`, or nothing
unfoldable pub ends_well : String → Bool
ends_well String.[] = true
ends_well (String.◌∷◌ c String.[]) = is_alnum (code c)
ends_well (String.◌∷◌ c (String.◌∷◌ d s)) = is_id_char (code c) && ends_well (String.◌∷◌ d s)

-- `_SAFE_ID_RE.fullmatch(value) is not None`
unfoldable pub is_record_id : String → Bool
unfolding ends_well
is_record_id String.[] = false
is_record_id (String.◌∷◌ c s) =
    is_alnum (code c) && (ends_well s && leb (size (String.◌∷◌ c s)) max_length)

-- `_UNSAFE_ID_CHARS.sub("-", raw)`: every run of unsafe characters is one dash. The flag says that
-- the run goes on.
unfoldable pub dashed : Bool → String → String
dashed run String.[] = ""
dashed run (String.◌∷◌ c s) =
    let safe = is_id_char (code c) in
    let rest = dashed (not safe) s in
    if safe then String.◌∷◌ c rest else if run then rest else String.◌∷◌ "-" rest

-- `s[:n]`
unfoldable pub take_chars : ℕ → String → String
take_chars zero s = ""
take_chars (suc n) String.[] = ""
take_chars (suc n) (String.◌∷◌ c s) = String.◌∷◌ c (take_chars n s)

unfoldable pub slug : String → String
unfolding dashed strip_of take_chars
slug raw =
    strip_of (λ c. is_mark c) (take_chars max_length (strip_of (λ c. is_mark c) (dashed false raw)))

unfoldable pub safe_record_id : String → String → String
unfolding slug
safe_record_id raw fallback = if slug raw == "" then fallback else slug raw
