-- ===== src/Ingest/Documents.antt =====
-- SARIF documents (src/deepthought/ingest/sarif.py): `load_sarif`, and the walkers, which check the
-- type of everything that they open. What the file holds is a parameter.
pub mod VulnIds
use deep_thought.Prelude.{
  String, ◌&◌, Bool, true, false, not, Option, none, some, List, [], ◌∷◌, ◌==◌, if◌then◌else◌,
}
use deep_thought.Prelude.Ints.{show_int}
use deep_thought.Prelude.Text.{strip, strip_of, concat, repr}
use deep_thought.Prelude.Dirs.{Dir, lookup}
use deep_thought.Schema.Json.{
  Json, null, boolean, integer, number, text, array, object, Items, nil, cons, Fields, end, field,
}
use deep_thought.Result.{Error, Result, ok, raise, sarif_error}
use deep_thought.Ingest.Patterns.{is_cve, is_cwe, upper}

-- `o.get(key)`; a dictionary that was parsed has no key twice
unfoldable pub get : String → Fields → Option Json
get key end = none
get key (field k value rest) = let later = get key rest in if k == key then some value else later

-- values under a check of their type
abbrev pub as_object : Option Json → Option Fields
as_object (some (object o)) = some o
as_object _ = none

abbrev pub as_array : Option Json → Option Items
as_array (some (array xs)) = some xs
as_array _ = none

abbrev pub as_text : Option Json → Option String
as_text (some (text s)) = some s
as_text _ = none

-- a step into an object that may be absent
abbrev pub into : {A : Type 0} → (Fields → Option A) → Option Fields → Option A
into f none = none
into f (some o) = f o

abbrev object_at : String → Fields → Option Fields
object_at key o = as_object (get key o)

-- what `open` and `json.load` come to: a document, one of the three errors that are caught, with its
-- message, or another one
pub data Reading : Type 0 where
  parsed : Json → Reading
  not_json not_utf8 not_read : String → Reading
  raises : Error → Reading

abbrev is_version : Option Json → Bool
is_version (some (text s)) = s == "2.1.0"
is_version _ = false

abbrev runs_ok : Option Json → Bool
runs_ok none = true
runs_ok (some (array xs)) = true
runs_ok (some _) = false

module _ (json_repr : Option Json → String) where
  -- the document after it was parsed; `json_repr` is `repr` of a value, or of None
  unfoldable pub checked : Json → Result Fields
  unfolding get
  checked (object o) =
      if not (is_version (get "version" o))
      then raise (
          sarif_error (
            concat (
              "unsupported SARIF version "
              ∷ json_repr (get "version" o)
              ∷ "; expected '2.1.0'"
              ∷ [])))
      else if not (runs_ok (get "runs" o))
      then raise (sarif_error "SARIF 'runs' must be a list")
      else ok o
  checked _ = raise (sarif_error "SARIF document must be a JSON object")

  -- `load_sarif` of a path at which the file reads so
  unfoldable pub load_sarif : String → Reading → Result Fields
  unfolding checked
  load_sarif path (parsed document) = checked document
  load_sarif path (not_json why) = raise (sarif_error ("file is not valid JSON: " & why))
  load_sarif path (not_utf8 why) = raise (sarif_error ("file is not valid UTF-8: " & why))
  load_sarif path (not_read why) =
      raise (sarif_error (concat ("could not read SARIF file " ∷ repr path ∷ ": " ∷ why ∷ [])))
  load_sarif path (raises e) = raise e

abbrev or_nil : Option Items → Items
or_nil none = nil
or_nil (some xs) = xs

-- `_runs`
unfoldable pub runs : Fields → Items
unfolding get
runs sarif = or_nil (as_array (get "runs" sarif))

-- a rule in front of the index, if it has an id: the last one with an id is found first
abbrev indexed : Option Fields → Option String → Dir Fields → Dir Fields
indexed (some rule) (some id) index = (id, rule) ∷ index
indexed _ _ index = index

index_from : Items → Dir Fields → Dir Fields
unfolding get
index_from nil index = index
index_from (cons x xs) index =
    let rule = as_object (some x) in
    index_from xs (indexed rule (as_text (into (λ o. get "id" o) rule)) index)

-- `_rules_index`
unfoldable pub rules_index : Fields → Dir Fields
unfolding get index_from
rules_index run =
    let driver = into (λ o. object_at "driver" o) (object_at "tool" run) in
    index_from (or_nil (as_array (into (λ o. get "rules" o) driver))) []

-- `s.strip()`, if there is something left
abbrev pub stripped : Option String → Option String
stripped none = none
stripped (some s) = if strip s == "" then none else some (strip s)

-- `_message_text`
unfoldable pub message_text : Fields → Option String
unfolding get strip_of
message_text result = stripped (as_text (into (λ o. get "text" o) (object_at "message" result)))

-- a line number as an f-string prints it; a Boolean is an integer too
line_text : Option Json → Option String
unfolding show_int
line_text (some (integer n)) = some (show_int n)
line_text (some (boolean true)) = some "True"
line_text (some (boolean false)) = some "False"
line_text _ = none

abbrev pub Location : Type 0
Location = Option String × Option String

abbrev with_line : Option String → Option String → Option Location
with_line none line = none
with_line (some uri) line = some (some uri, line)

-- the location that one element names
location_of : Option Fields → Option Location
unfolding get strip_of line_text
location_of loc =
    let physical = into (λ o. object_at "physicalLocation" o) loc in
    let artifact = into (λ o. object_at "artifactLocation" o) physical in
    let region = into (λ o. object_at "region" o) physical in
    with_line (stripped (as_text (into (λ o. get "uri" o) artifact)))
      (line_text (into (λ o. get "startLine" o) region))

locate : Items → Location
unfolding location_of
locate nil = (none, none)
locate (cons x xs) =
    let later = locate xs in
    elim (location_of (as_object (some x))) [ none ↦ later | some found ↦ found ]

-- `_first_location`: the path, and the line as it prints
unfoldable pub first_location : Fields → Location
unfolding get locate
first_location result = locate (or_nil (as_array (get "locations" result)))

-- `_rule_help_uri`
unfoldable pub rule_help_uri : Option Fields → Option String
unfolding get strip_of
rule_help_uri rule = stripped (as_text (into (λ o. get "helpUri" o) rule))

-- `merged.get(key)`: the result's properties are over the rule's
abbrev over : Option Json → Option Json → Option Json
over (some value) below = some value
over none below = below

merged : Fields → Option Fields → String → Option Json
unfolding get
merged result rule key =
    let of_result = into (λ o. get key o) (object_at "properties" result) in
    let of_rule = into (λ o. get key o) (into (λ o. object_at "properties" o) rule) in
    over of_result of_rule

-- `_match`
abbrev matching : (String → Bool) → Option String → Option String
matching pattern none = none
matching pattern (some value) = let id = upper (strip value) in if pattern id then some id else none

-- `_known_vuln_ids`
unfoldable pub known_vuln_ids : Fields → Option Fields → Option String × Option String
unfolding merged upper strip_of is_cve is_cwe
known_vuln_ids result rule = (
  matching (λ s. is_cve s) (as_text (merged result rule "cve")),
  matching (λ s. is_cwe s) (as_text (merged result rule "cwe")),
)

abbrev onto_tags : Option String → List String → List String
onto_tags none tags = tags
onto_tags (some tag) tags = tag ∷ tags

tags_of : Items → List String
unfolding strip_of
tags_of nil = []
tags_of (cons x xs) = onto_tags (stripped (as_text (some x))) (tags_of xs)

-- `_rule_tags`
unfoldable pub rule_tags : Option Fields → List String
unfolding get tags_of
rule_tags rule =
    let properties = into (λ o. object_at "properties" o) rule in
    tags_of (or_nil (as_array (into (λ o. get "tags" o) properties)))
