-- ===== src/Export/OpenVex.antt =====
-- `finding_to_openvex` of src/deepthought/export/openvex.py. The parameter `lowercase` is `str.lower`.
pub mod Checks
pub mod Filled
pub mod Conformant
use Prim.Native.Char.{code}
use deep_thought.Prelude.{
  ℕ, String, ◌&◌, Bool, true, false, not, ◌&&◌, ◌||◌, Option, none, some, List, [], ◌∷◌, ◌++◌, ◌==◌,
  keep, map, is_some, eqb, leb, if◌then◌else◌,
}
use deep_thought.Prelude.Ints.{pos}
use deep_thought.Prelude.Text.{after}
use deep_thought.Prelude.Time.{iso_z}
use deep_thought.Ids.{is_alnum, is_mark, take_chars}
use deep_thought.Schema.Json.{
  Json, integer, text, array, object, Items, nil, cons, Fields, end, field,
}
use deep_thought.Schema.Finding.{Finding, AffectedPackage}
use deep_thought.Store.Areas.{percent_char, quote}
use deep_thought.Sessions.Map.Loop.{fromkeys}
use deep_thought.Ingest.Patterns.{digit_run}

abbrev pub openvex_context : String
openvex_context = "https://openvex.dev/ns/v0.2.0"

-- `osv_id_for` of src/deepthought/export/osv.py
unfoldable pub osv_id_for : String → String
unfolding after
osv_id_for id = if is_some (after "x_" id) then id else "x_" & id

number_at_end : Option String → Bool
unfolding digit_run
number_at_end none = false
number_at_end (some s) =
    let (n, rest) = digit_run s in leb 4 n && (leb n 19 && (rest == "" || rest == "\n"))

abbrev year_then : ℕ × String → Bool
year_then (n, rest) = eqb n 4 && number_at_end (after "-" rest)

-- `_CVE_RE.match(s)`, whose `$` takes a line break at the end
unfoldable pub matches_cve : String → Bool
unfolding after digit_run number_at_end
matches_cve s = elim (after "CVE-" s) [ none ↦ false | some rest ↦ year_then (digit_run rest) ]

-- `_vuln_name`
abbrev name_for : String → Option String → String
name_for id none = osv_id_for id
name_for id (some cve) = if not (cve == "") && matches_cve cve then cve else osv_id_for id

unfoldable pub vuln_name : Finding → String
unfolding osv_id_for matches_cve
vuln_name f = name_for f.id f.cve

-- `quote(s, safe="/")`
unfoldable pub quote_path : String → String
unfolding percent_char
quote_path String.[] = ""
quote_path (String.◌∷◌ c s) =
    (if is_alnum (code c) || is_mark (code c) || eqb (code c) b'~' || eqb (code c) b'/'
      then String.◌∷◌ c ""
      else percent_char (code c))
    & quote_path s

-- the product that stands for a finding without a usable package
unfoldable pub local_product : Finding → String
unfolding quote osv_id_for
local_product f = "https://deepthought.local/product/" & quote (osv_id_for f.id)

-- `{"@id": id}`
abbrev pub product : String → Json
product id = object (field "@id" (text id) end)

abbrev pub product_items : List String → Items
product_items [] = nil
product_items (id ∷ ids) = cons (product id) (product_items ids)

abbrev is_empty : List Json → Bool
is_empty [] = true
is_empty (r ∷ rs) = false

abbrev no_texts : List String → Bool
no_texts [] = true
no_texts (v ∷ vs) = false

abbrev at_version : String → Option String → String
at_version purl none = purl
at_version purl (some version) = if version == "" then purl else purl & ("@" & quote version)

-- a document with one statement
abbrev pub document : String → String → Fields → Fields
document id timestamp stmt = field "@context" (text openvex_context) (
    field "@id" (text id) (
      field "author" (text "Deep Thought (local draft)") (
        field "timestamp" (text timestamp) (
          field "version" (integer (pos 1))
            (field "statements" (array (cons (object stmt) nil)) end)))))

module _ (lowercase : String → String) where
  -- `_purl_for(pkg, version) or local`
  unfoldable pub product_id : String → AffectedPackage → Option String → String
  unfolding quote quote_path
  product_id local p version =
      let purl = "pkg:" & (quote (lowercase p.ecosystem) & ("/" & quote_path p.package_name)) in
      if p.ecosystem == "" || p.package_name == "" then local else at_version purl version

  -- the versions of a package, with the package itself where it has ranges or no version
  unfoldable pub versions_of : AffectedPackage → List (Option String)
  versions_of p =
      let exact = keep (λ v. not (v == "")) p.versions in
      let all : List (Option String) = map (λ v. some v) exact in
      if not (is_empty p.ranges) || no_texts exact then all ++ none ∷ [] else all

  -- every id of the double loop, as they come
  unfoldable pub all_ids : String → List AffectedPackage → List String
  unfolding product_id versions_of
  all_ids local [] = []
  all_ids local (p ∷ ps) = map (λ v. product_id local p v) (versions_of p) ++ all_ids local ps

  abbrev or_local : String → List String → List String
  or_local local [] = local ∷ []
  or_local local (id ∷ ids) = id ∷ ids

  -- `_products`, as ids; `seen` keeps the first of each
  unfoldable pub products : Finding → List String
  unfolding all_ids fromkeys local_product
  products f = or_local (local_product f) (fromkeys [] (all_ids (local_product f) f.affected))

  unfoldable pub statement : Finding → Fields
  unfolding vuln_name products
  statement f = field "vulnerability" (object (field "name" (text (vuln_name f)) end)) (
      field "products" (array (product_items (products f))) (
        field "status" (text "affected") (
          field "action_statement"
            (text "PLACEHOLDER — human remediation guidance required before disclosure.") end)))

  -- `finding_to_openvex`, with the two answers of the clock
  unfoldable pub finding_to_openvex : ℕ → ℕ → Finding → Json
  unfolding statement iso_z quote take_chars
  finding_to_openvex now later f = object (
      document
        ("https://deepthought.local/vex/draft/" & (take_chars 10 (iso_z now) & ("-" & quote f.id)))
        (iso_z later) (statement f))
