-- ===== src/Export/OpenVex/Checks.antt =====
-- `validate_openvex` of src/deepthought/export/openvex.py. The parameters are whether
-- `datetime.fromisoformat` takes a text, and `repr` of a value, or of None.
use Prim.Native.String.{compare}
use package.text.Mathlib.Text.{is_lt}
use deep_thought.Prelude.{
  ℕ, ◌+◌, String, ◌&◌, Bool, true, false, not, ◌||◌, Option, none, some, List, [], ◌∷◌, ◌++◌, ◌==◌,
  member, leb, if◌then◌else◌,
}
use deep_thought.Prelude.Ints.{pos}
use deep_thought.Prelude.Text.{strip, strip_of, show, concat}
use deep_thought.Schema.Json.{Json, integer, text, object, Items, nil, cons, Fields}
use deep_thought.Ingest.Documents.{get, as_object, as_array, as_text, into}
use deep_thought.Export.Dates.{is_date_time}
use deep_thought.Export.OpenVex.{openvex_context}

-- `sorted(errors)`
insert : String → List String → List String
insert s [] = s ∷ []
insert s (t ∷ ts) = let later = insert s ts in if is_lt (compare t s) then t ∷ later else s ∷ t ∷ ts

unfoldable pub sorted : List String → List String
unfolding insert
sorted [] = []
sorted (s ∷ ss) = insert s (sorted ss)

-- an error, unless a test passes
abbrev pub unless : Bool → String → List String
unless true error = []
unless false error = error ∷ []

abbrev pub text_filled : Option String → Bool
text_filled none = false
text_filled (some s) = not (strip s == "")

-- `_nonempty_str`
unfoldable pub nonempty_str : Option Json → Bool
unfolding strip_of
nonempty_str value = text_filled (as_text value)

abbrev is_text : String → Option Json → Bool
is_text wanted (some (text s)) = s == wanted
is_text wanted _ = false

abbrev is_positive : Option Json → Bool
is_positive (some (integer (pos n))) = leb 1 n
is_positive _ = false

abbrev onto_ids : Option Json → List String → List String
onto_ids (some (text id)) ids = id ∷ ids
onto_ids _ ids = ids

id_of : Json → Option Json
unfolding get
id_of product = into (λ o. get "@id" o) (as_object (some product))

-- the ids of the products that have one
unfoldable pub ids_of : Items → List String
unfolding id_of nonempty_str
ids_of nil = []
ids_of (cons p ps) =
    let later = ids_of ps in if nonempty_str (id_of p) then onto_ids (id_of p) later else later

-- whether a list has an element twice: `len(ids) != len(set(ids))`
unfoldable pub repeats : List String → Bool
repeats [] = false
repeats (s ∷ ss) = member s ss || repeats ss

unfoldable pub product_errors : String → ℕ → Items → List String
unfolding id_of nonempty_str show
product_errors base j nil = []
product_errors base j (cons p ps) =
    unless (nonempty_str (id_of p))
      (concat (base ∷ "/products/" ∷ show j ∷ "/@id: each product requires a non-empty @id" ∷ []))
    ++ product_errors base (j + 1) ps

unfoldable pub products_errors : String → Option Items → List String
unfolding product_errors repeats ids_of
products_errors base (some (cons p ps)) =
    product_errors base 0 (cons p ps)
    ++ unless (not (repeats (ids_of (cons p ps)))) (base & "/products: product @ids must be unique")
products_errors base _ = (base & "/products: must be a non-empty list") ∷ []

abbrev is_status : String → Bool
is_status s = s == "not_affected" || s == "affected" || s == "fixed" || s == "under_investigation"

abbrev valid_status : Option Json → Bool
valid_status (some (text s)) = is_status s
valid_status _ = false

module _ (fromisoformat : String → Bool) (json_repr : Option Json → String) where
  unfoldable pub fields_errors : String → Fields → List String
  unfolding get nonempty_str products_errors
  fields_errors base stmt =
      let vulnerability = as_object (get "vulnerability" stmt) in
      let status = get "status" stmt in
      unless (nonempty_str (into (λ o. get "name" o) vulnerability))
        (base & "/vulnerability/name: must be a non-empty string")
      ++ products_errors base (as_array (get "products" stmt))
      ++ unless (valid_status status) (
          concat (
            base
            ∷ "/status: "
            ∷ json_repr status
            ∷ " is not one of ['affected', 'fixed', 'not_affected', 'under_investigation']"
            ∷ []))
      ++ unless (not (is_text "affected" status) || nonempty_str (get "action_statement" stmt))
          (base & "/action_statement: must be a non-empty string when status is 'affected'")

  abbrev statement_errors : String → Option Fields → List String
  statement_errors base none = (base & ": statement must be an object") ∷ []
  statement_errors base (some stmt) = fields_errors base stmt

  unfoldable pub each_statement : ℕ → Items → List String
  unfolding fields_errors show
  each_statement i nil = []
  each_statement i (cons x xs) =
      statement_errors ("statements/" & show i) (as_object (some x)) ++ each_statement (i + 1) xs

  unfoldable pub statements_errors : Option Items → List String
  unfolding each_statement
  statements_errors (some (cons x xs)) = each_statement 0 (cons x xs)
  statements_errors _ = "statements: must be a non-empty list" ∷ []

  unfoldable pub date_time_ok : Option String → Bool
  unfolding strip_of is_date_time
  date_time_ok none = true
  date_time_ok (some s) = strip s == "" || is_date_time fromisoformat s

  unfoldable pub document_errors : Fields → List String
  unfolding get nonempty_str date_time_ok statements_errors
  document_errors doc =
      unless (is_text openvex_context (get "@context" doc))
        "@context: must be 'https://openvex.dev/ns/v0.2.0'"
      ++ unless (nonempty_str (get "@id" doc)) "@id: must be a non-empty string"
      ++ unless (nonempty_str (get "author" doc)) "author: must be a non-empty string"
      ++ unless (nonempty_str (get "timestamp" doc)) "timestamp: must be a non-empty string"
      ++ unless (date_time_ok (as_text (get "timestamp" doc)))
          "timestamp: must be an RFC3339 date-time"
      ++ unless (is_positive (get "version" doc)) "version: must be a positive integer"
      ++ statements_errors (as_array (get "statements" doc))

  unfoldable pub validate_openvex : Json → List String
  unfolding document_errors sorted
  validate_openvex (object doc) = sorted (document_errors doc)
  validate_openvex _ = "<root>: document must be an object" ∷ []
