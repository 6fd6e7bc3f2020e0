-- ===== src/Ingest/Results.antt =====
-- The results that become findings (src/deepthought/ingest/sarif.py), in the order of the document,
-- each with its message, which is not blank, and the rule that it names.
use deep_thought.Prelude.{ℕ, String, Option, none, some, List, [], ◌∷◌, ◌++◌, if◌then◌else◌}
use deep_thought.Prelude.Dirs.{Dir, lookup}
use deep_thought.Schema.Json.{Items, nil, cons, Fields}
use deep_thought.Ingest.Documents.{
  get, as_object, as_array, as_text, runs, rules_index, message_text, first_location,
}
use deep_thought.Ingest.Scope.{Resolve, in_scope}

pub record Accepted : Type 0 where
  pub result : Fields
  pub rule : Option Fields
  pub message : String

-- the result's `ruleId`, if it is a text
unfoldable pub rule_id_of : Fields → Option String
unfolding get
rule_id_of result = as_text (get "ruleId" result)

abbrev rule_named : Dir Fields → Option String → Option Fields
rule_named index none = none
rule_named index (some id) = lookup id index

module _ (decode : List ℕ → String) (resolve : Resolve) (scope : Option (List String))
    (root : Option (List String)) where
  abbrev onto_accepted : Dir Fields → Fields → Option String → List Accepted → List Accepted
  onto_accepted index result none later = later
  onto_accepted index result (some message) later =
      if in_scope decode resolve ((first_location result).0) scope root
      then record {
        result = result;
        rule = rule_named index (rule_id_of result);
        message = message;
      }
        ∷ later
      else later

  abbrev onto_results : Dir Fields → Option Fields → List Accepted → List Accepted
  onto_results index none later = later
  onto_results index (some result) later = onto_accepted index result (message_text result) later

  unfoldable pub of_results : Dir Fields → Items → List Accepted
  unfolding in_scope first_location rule_id_of message_text
  of_results index nil = []
  of_results index (cons x xs) = onto_results index (as_object (some x)) (of_results index xs)

  abbrev or_no_results : Dir Fields → Option Items → List Accepted
  or_no_results index none = []
  or_no_results index (some xs) = of_results index xs

  of_run : Option Fields → List Accepted
  unfolding of_results get rules_index
  of_run none = []
  of_run (some run) = or_no_results (rules_index run) (as_array (get "results" run))

  of_runs : Items → List Accepted
  unfolding of_run
  of_runs nil = []
  of_runs (cons x xs) = of_run (as_object (some x)) ++ of_runs xs

  -- `_accepted_results`
  unfoldable pub accepted_results : Fields → List Accepted
  unfolding of_runs runs
  accepted_results sarif = of_runs (runs sarif)
