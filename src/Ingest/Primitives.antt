-- ===== src/Ingest/Primitives.antt =====
-- `sarif_to_primitives` of src/deepthought/ingest/sarif.py: a suspected primitive for each accepted
-- result whose rule the table knows.
pub mod Suspected
use deep_thought.Prelude.{
  ℕ, String, ◌&◌, Bool, Option, none, some, List, [], ◌∷◌, truthy, if◌then◌else◌,
}
use deep_thought.Prelude.Text.{or_empty}
use deep_thought.Ids.{take_chars}
use deep_thought.Schema.Json.{Fields}
use deep_thought.Schema.Envelope.{Primitive, Confidence, suspected}
use deep_thought.Ingest.Documents.{Location, first_location, rule_tags}
use deep_thought.Ingest.Results.{Accepted, rule_id_of, accepted_results}
use deep_thought.Ingest.Scope.{Resolve}
use deep_thought.Ingest.Capabilities.{match_capability}

abbrev pub locus_max : ℕ
locus_max = 256

-- where the result points: the line, the file, the rule, or nothing known
unfoldable pub locus_of : Location → Option String → String
unfolding take_chars
locus_of (some uri, some line) rule_id = take_chars locus_max (uri & (":" & line))
locus_of (some uri, none) rule_id = take_chars locus_max uri
locus_of (none, line) rule_id =
    take_chars locus_max (if truthy rule_id then or_empty rule_id else "unknown")

unfoldable pub primitive_of : String → Accepted → String → Primitive
unfolding locus_of first_location rule_id_of
primitive_of finding_id a capability = record {
  kind = capability;
  target_locus = locus_of (first_location a.result) (rule_id_of a.result);
  preconditions = [];
  grants = capability ∷ [];
  confidence = suspected;
  evidence_ref = none;
  finding_ref = finding_id;
}

abbrev onto_primitives : String → Accepted → Option String → List Primitive → List Primitive
onto_primitives finding_id a none later = later
onto_primitives finding_id a (some capability) later = primitive_of finding_id a capability ∷ later

module _ (is_wide : ℕ → Bool) where
  -- the loop, which stops where the ids end
  unfoldable pub each_primitive : List String → List Accepted → List Primitive
  unfolding primitive_of match_capability rule_id_of rule_tags
  each_primitive finding_ids [] = []
  each_primitive [] (a ∷ rest) = []
  each_primitive (id ∷ ids) (a ∷ rest) =
      onto_primitives id a (match_capability is_wide (rule_id_of a.result) (rule_tags a.rule))
        (each_primitive ids rest)

module _ (is_wide : ℕ → Bool) (decode : List ℕ → String) (resolve : Resolve)
    (scope : Option (List String)) (root : Option (List String)) where
  unfoldable pub sarif_to_primitives : Fields → List String → List Primitive
  unfolding each_primitive accepted_results
  sarif_to_primitives sarif finding_ids =
      each_primitive is_wide finding_ids (accepted_results decode resolve scope root sarif)
