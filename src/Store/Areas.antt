-- ===== src/Store/Areas.antt =====
-- The coverage records of the areas (the coverage methods of src/deepthought/store/filestore.py): the
-- file name of an area, and the upgrade of a record under the older name. The parameter `sha1` is
-- the hexadecimal SHA-1 of a text's UTF-8 bytes.
pub mod Upgrade
use Prim.Native.Char.{Char, code}
use deep_thought.Prelude.{
  ℕ, ◌+◌, ◌-◌, ◌/◌, ◌%◌, String, ◌&◌, Bool, true, false, not, ◌&&◌, ◌||◌, Option, none, some, List,
  [], ◌∷◌, ◌==◌, ltb, eqb, if◌then◌else◌,
}
use deep_thought.Prelude.Text.{digit_in, strip_of}
use deep_thought.Prelude.Dirs.{Dir, lookup, write, unlink}
use deep_thought.Ids.{is_alnum, is_mark, is_record_id, size, take_chars}
use deep_thought.Schema.Coverage.{Coverage}
use deep_thought.Store.{Store, file_name, read_back}

unfoldable pub hex : ℕ → String
unfolding digit_in
hex = digit_in (
    "0" ∷ "1" ∷ "2" ∷ "3" ∷ "4" ∷ "5" ∷ "6" ∷ "7" ∷ "8" ∷ "9" ∷ "A" ∷ "B" ∷ "C" ∷ "D" ∷ "E" ∷ "F"
    ∷ [])

unfoldable pub percent : ℕ → String
unfolding hex
percent byte = "%" & (hex (byte / 16) & hex (byte % 16))

-- a character as the UTF-8 bytes of its code, each one after a percent sign
unfoldable pub percent_char : ℕ → String
unfolding percent
percent_char k =
    let tail = percent (0x80 + k % 0x40) in
    let middle = percent (0x80 + k / 0x40 % 0x40) in
    if ltb k 0x80
    then percent k
    else if ltb k 0x800
    then percent (0xc0 + k / 0x40) & tail
    else if ltb k 0x10000
    then percent (0xe0 + k / 0x1000) & (middle & tail)
    else percent (0xf0 + k / 0x40000) & (percent (0x80 + k / 0x1000 % 0x40) & (middle & tail))

-- `quote(value, safe="")`
unfoldable pub quote : String → String
unfolding percent_char
quote String.[] = ""
quote (String.◌∷◌ c s) =
    (if is_alnum (code c) || is_mark (code c) || eqb (code c) b'~'
      then String.◌∷◌ c ""
      else percent_char (code c))
    & quote s

abbrev pub slug_max : ℕ
slug_max = 200

-- `_slug`
unfoldable pub area_slug : (String → String) → String → String
unfolding quote
area_slug sha1 value =
    let quoted = if quote value == "" then "_" else quote value in
    let digest = take_chars 16 (sha1 value) in
    if ltb slug_max (size quoted)
    then take_chars (slug_max - size digest - 1) quoted & ("-" & digest)
    else quoted

-- `area.replace("/", "-").replace("\\", "-")`
dashes : String → String
dashes String.[] = ""
dashes (String.◌∷◌ c s) =
    (if eqb (code c) b'/' || eqb (code c) b'\\' then "-" else String.◌∷◌ c "") & dashes s

-- the file names of an area in its project's directory, of today and from before
abbrev pub area_file : (String → String) → String → String
area_file sha1 area = file_name (area_slug sha1 area)

unfoldable pub legacy_file : String → String
unfolding dashes
legacy_file area = file_name (strip_of (λ c. eqb c b'-') (dashes area))

-- a project's directory, empty if there is none
abbrev pub or_new : Option (Dir Coverage) → Dir Coverage
or_new none = []
or_new (some d) = d

abbrev pub directory : Store → String → Dir Coverage
directory s project = or_new (lookup project s.coverage)

abbrev pub covers : String → Option Coverage → Bool
covers area none = false
covers area (some c) = c.area == area

abbrev pub written : Coverage → Coverage
written c = record c { body = read_back c.body }

-- the directory after the record is written and a stale one of the same area is removed
unfoldable pub upgraded : String → String → Coverage → Dir Coverage → Dir Coverage
upgraded path legacy c d =
    let d' = write path (written c) d in
    if not (legacy == path) && covers c.area (lookup legacy d') then unlink legacy d' else d'

unfoldable pub save_coverage : (String → String) → Store → Coverage → Store
unfolding upgraded
save_coverage sha1 s c =
    let d = upgraded (area_file sha1 c.area) (legacy_file c.area) c (directory s c.project) in
    record s { coverage = write c.project d s.coverage }

-- a record under the older name counts if it is of this area
abbrev of_area : String → Option Coverage → Option Coverage
of_area area none = none
of_area area (some c) = if c.area == area then some c else none

found : String → String → String → Dir Coverage → Option Coverage → Option Coverage
found path legacy area d (some c) = some c
found path legacy area d none = if legacy == path then none else of_area area (lookup legacy d)

unfoldable pub get_coverage : (String → String) → Store → String → String → Option Coverage
unfolding found
get_coverage sha1 s project area =
    if not (is_record_id project)
    then none
    else let path = area_file sha1 area in
      let d = directory s project in found path (legacy_file area) area d (lookup path d)

-- the records, saved one after the other
abbrev pub save_all : (String → String) → List Coverage → Store → Store
save_all sha1 [] s = s
save_all sha1 (c ∷ cs) s = save_all sha1 cs (save_coverage sha1 s c)
