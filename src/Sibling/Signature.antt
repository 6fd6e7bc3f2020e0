-- ===== src/Sibling/Signature.antt =====
-- `Signature` and its derivation (src/deepthought/sibling/signature.py).
pub mod Derived
use Prim.Native.String.{compare}
use text.Mathlib.Text.{is_lt}
use deep_thought.Prelude.{
  ℕ, String, Bool, true, false, not, ◌&&◌, Option, none, some, List, [], ◌∷◌, ◌==◌, keep, map, any,
  take, length, leb, member, if◌then◌else◌,
}
use deep_thought.Prelude.Text.{strip, strip_of}
use deep_thought.Ids.{size, take_chars}
use deep_thought.Result.{Result, ok, raise, value_error}
use deep_thought.Schema.Finding.{Finding, Reference}
use deep_thought.Schema.Envelope.{capability_taxonomy, Primitive, every, fits, fits_if}
use deep_thought.Sessions.Map.Loop.{fromkeys}
use deep_thought.Ingest.Capabilities.{heuristic, match_capability, or_else}
use deep_thought.Sibling.Locations.{find_all}

pub record Signature : Type 0 where
  pub source_finding : String
  pub source_project : String
  pub capability : String
  pub locus_pattern : Option String
  pub match_terms : List String

abbrev pub match_terms_max : ℕ
match_terms_max = 32

-- `_KNOWN_MATCH_TERMS`
unfoldable pub known_match_terms : List String
unfolding heuristic
known_match_terms = map (λ row. row.0) heuristic

-- The constraints of the fields with `_known_capability` and `_terms_are_known_keys`: whether a
-- signature may be constructed.
unfoldable pub signature_ok : Signature → Bool
unfolding known_match_terms
signature_ok g =
    fits 128 g.source_finding
    && fits 128 g.source_project
    && fits 128 g.capability
    && fits_if 256 g.locus_pattern
    && every (λ t. fits 64 t) g.match_terms
    && leb (length g.match_terms) match_terms_max
    && member g.capability capability_taxonomy
    && not (any (λ t. not (member t known_match_terms)) g.match_terms)

-- the first of two in the order of texts
abbrev pub earlier : String → Option String → Option String
earlier k none = some k
earlier k (some j) = if is_lt (compare j k) then some j else some k

-- `_bound_capability`: the first, sorted, of the kinds that are bound to the finding
unfoldable pub bound_capability : Finding → List Primitive → Option String
bound_capability f [] = none
bound_capability f (p ∷ ps) =
    let later = bound_capability f ps in
    if p.finding_ref == f.id && member p.kind capability_taxonomy
    then earlier p.kind later
    else later

-- `matches[-1]`
last_of : List String → Option String
last_of [] = none
last_of (s ∷ []) = some s
last_of (s ∷ t ∷ ss) = last_of (t ∷ ss)

-- a text that is not blank, stripped and cut
unfoldable pub short : Option String → Option String
unfolding strip_of take_chars
short none = none
short (some s) = if strip s == "" then none else some (take_chars 256 (strip s))

unfoldable pub first_url : List Reference → Option String
unfolding short
first_url [] = none
first_url (r ∷ rs) = or_else (short (some r.url)) (first_url rs)

-- `_locus_pattern`
unfoldable pub locus_pattern : Finding → Option String
unfolding short last_of find_all first_url
locus_pattern f = or_else (short (last_of (find_all f.body))) (first_url f.references)

-- `_TERMS_BY_CAPABILITY.get(capability, [])`
unfoldable pub terms_of : String → List String
unfolding heuristic
terms_of capability = map (λ row. row.0) (keep (λ row. row.1 == capability) heuristic)

-- `_match_terms`
unfoldable pub match_terms : String → List String
unfolding terms_of fromkeys
match_terms capability = take match_terms_max (fromkeys [] (terms_of capability))

-- a signature, if its checks pass
abbrev made : Signature → Result (Option Signature)
made g =
    if signature_ok g then ok (some g) else raise (value_error "validation errors for Signature")

unfoldable pub signature_of : Finding → String → Signature
unfolding take_chars locus_pattern match_terms
signature_of f capability = record {
  source_finding = take_chars 128 f.id;
  source_project = take_chars 128 f.project;
  capability = capability;
  locus_pattern = locus_pattern f;
  match_terms = match_terms capability;
}

from_capability : Finding → Option String → Result (Option Signature)
unfolding signature_ok signature_of
from_capability f none = ok none
from_capability f (some capability) =
    if not (member capability capability_taxonomy)
    then ok none
    else made (signature_of f capability)

module _ (is_wide : ℕ → Bool) where
  -- the class of a finding: of a bound primitive, or of the summary
  unfoldable pub capability_of : Finding → List Primitive → Option String
  unfolding bound_capability match_capability
  capability_of f primitives =
      or_else (bound_capability f primitives) (match_capability is_wide (some f.summary) [])

  unfoldable pub signature_from_finding : Finding → List Primitive → Result (Option Signature)
  unfolding from_capability capability_of
  signature_from_finding f primitives = from_capability f (capability_of f primitives)
