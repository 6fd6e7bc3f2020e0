-- ===== src/Ingest/Primitives/Suspected.antt =====
-- The primitives that a document leads to, against the checks of the envelope.
use deep_thought.Prelude.{
  ℕ, ◌≤◌, String, ◌≡◌, refl, inl, inr, Bool, true, false, Option, none, some, List, [], ◌∷◌, All,
  In, any, map, not, member, arith, truthy, if_ind, if◌then◌else◌,
}
use deep_thought.Prelude.Text.{lower, or_empty}
use deep_thought.Ids.{size}
use deep_thought.Ids.Safe.{size-take_chars}
use deep_thought.Schema.Json.{Fields}
use deep_thought.Schema.Envelope.{
  Primitive, capability_taxonomy, suspected, known_capabilities, evidence_when_shown,
}
use deep_thought.Ingest.Patterns.{hyphens, has_word}
use deep_thought.Ingest.Documents.{Location, first_location, rule_tags}
use deep_thought.Ingest.Results.{Accepted, rule_id_of, accepted_results}
use deep_thought.Ingest.Scope.{Resolve}
use deep_thought.Ingest.Capabilities.{
  Rows, heuristic, first_row, match_capability, by_rule, by_tags, or_else, unknown_caps,
}
use deep_thought.Ingest.Primitives.{
  locus_of, primitive_of, onto_primitives, each_primitive, sarif_to_primitives,
}

abbrev pub IsKnown : Option String → Type 0
IsKnown none = Unit
IsKnown (some capability) = member capability capability_taxonomy ≡ true

kept-nil :
    (b : Bool) (capability : String) (later : List String)
    → (if not b then capability ∷ later else later) ≡ []
    → (b ≡ true) × (later ≡ [])
kept-nil true capability later h = (refl, h)
kept-nil false capability later h = absurd (cc)

first_row-IsKnown :
    (p : String → Bool) (rows : Rows) → unknown_caps rows ≡ [] → IsKnown (first_row p rows)
unfolding first_row unknown_caps
first_row-IsKnown p [] known = tt
first_row-IsKnown p ((needle, capability) ∷ rows) known =
    let (here, later) = kept-nil (member capability capability_taxonomy) capability _ known in
    if_ind IsKnown (p needle) (some capability) (first_row p rows) (λ _. here)
      (λ _. first_row-IsKnown p rows later)

heuristic-known : unknown_caps heuristic ≡ []
unfolding unknown_caps heuristic
heuristic-known = refl

pub or_else-IsKnown : (a b : Option String) → IsKnown a → IsKnown b → IsKnown (or_else a b)
or_else-IsKnown none b ha hb = hb
or_else-IsKnown (some capability) b ha hb = ha

pub match_capability-IsKnown :
    (is_wide : ℕ → Bool) (rule_id : Option String) (tags : List String)
    → IsKnown (match_capability is_wide rule_id tags)
unfolding match_capability by_rule by_tags
match_capability-IsKnown is_wide rule_id tags =
    let norm = hyphens (lower (or_empty rule_id)) in
    let norms = map (λ t. hyphens (lower t)) tags in
    let table = λ (p : String → Bool). first_row-IsKnown p heuristic heuristic-known in
    or_else-IsKnown (by_rule is_wide rule_id) (by_tags is_wide tags)
      (if_ind IsKnown (truthy rule_id)
        (first_row (λ needle. has_word is_wide needle norm) heuristic) none
        (λ _. table (λ needle. has_word is_wide needle norm)) (λ _. tt))
      (table (λ needle. any (λ n. has_word is_wide needle n) norms))

size-locus_of : (at : Location) (rule_id : Option String) → size (locus_of at rule_id) ≤ 256
unfolding locus_of
size-locus_of (some uri, some line) rule_id = size-take_chars 256 _
size-locus_of (some uri, none) rule_id = size-take_chars 256 _
size-locus_of (none, line) rule_id = size-take_chars 256 _

-- A primitive that nobody has shown, which the envelope takes: what it grants is in the taxonomy, its
-- locus fits, and it belongs to one of the findings.
abbrev pub IsSuspected : List String → Primitive → Type 0
IsSuspected finding_ids p =
    (p.confidence ≡ suspected)
    × (p.evidence_ref ≡ none)
    × (p.grants ≡ p.kind ∷ [])
    × (known_capabilities p ≡ true)
    × (evidence_when_shown p ≡ true)
    × (size p.target_locus ≤ 256)
    × In p.finding_ref finding_ids

primitive_of-IsSuspected :
    (finding_ids : List String) (id : String) (a : Accepted) (capability : String)
    → member capability capability_taxonomy ≡ true
    → In id finding_ids
    → IsSuspected finding_ids (primitive_of id a capability)
unfolding primitive_of known_capabilities evidence_when_shown
primitive_of-IsSuspected finding_ids id a capability known h = (
  refl,
  refl,
  refl,
  ground arith,
  refl,
  size-locus_of (first_location a.result) (rule_id_of a.result),
  h,
)

onto_primitives-All :
    (finding_ids : List String) (id : String) (a : Accepted) (o : Option String)
    (later : List Primitive)
    → IsKnown o
    → In id finding_ids
    → All (IsSuspected finding_ids) later
    → All (IsSuspected finding_ids) (onto_primitives id a o later)
onto_primitives-All finding_ids id a none later known h rest = rest
onto_primitives-All finding_ids id a (some capability) later known h rest =
    (primitive_of-IsSuspected finding_ids id a capability known h, rest)

each_primitive-All :
    (is_wide : ℕ → Bool) (all_ids ids : List String) (results : List Accepted)
    → ((id : String) → In id ids → In id all_ids)
    → All (IsSuspected all_ids) (each_primitive is_wide ids results)
unfolding each_primitive
each_primitive-All is_wide all_ids [] [] sub = tt
each_primitive-All is_wide all_ids (id ∷ ids) [] sub = tt
each_primitive-All is_wide all_ids [] (a ∷ rest) sub = tt
each_primitive-All is_wide all_ids (id ∷ ids) (a ∷ rest) sub =
    onto_primitives-All all_ids id a _ _
      (match_capability-IsKnown is_wide (rule_id_of a.result) (rule_tags a.rule))
      (sub id (inl refl)) (each_primitive-All is_wide all_ids ids rest (λ i h. sub i (inr h)))

-- Whatever a document says, each primitive that comes of it is only suspected, grants one capability
-- of the taxonomy, passes both checks of the envelope, fits its bound, and belongs to one of the
-- findings that were given.
pub sarif_to_primitives-IsSuspected :
    (is_wide : ℕ → Bool) (decode : List ℕ → String) (resolve : Resolve)
    (scope : Option (List String)) (root : Option (List String)) (sarif : Fields)
    (finding_ids : List String)
    → All
        (IsSuspected finding_ids)
        (sarif_to_primitives is_wide decode resolve scope root sarif finding_ids)
unfolding sarif_to_primitives
sarif_to_primitives-IsSuspected is_wide decode resolve scope root sarif finding_ids =
    each_primitive-All is_wide finding_ids finding_ids
      (accepted_results decode resolve scope root sarif) (λ i h. h)
