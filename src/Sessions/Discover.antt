-- ===== src/Sessions/Discover.antt =====
-- DISCOVER (src/deepthought/sessions/discover.py): reads a SARIF document for candidate findings and
-- suspected primitives, read-only. Here is what its parts share; Worker is the local worker, Run the
-- session, which takes from the worker only the envelope.
pub mod Worker
pub mod Run
pub mod Attested
pub mod Numbers
pub mod Kept
pub mod Written
pub mod Filed
pub mod Blocked
use Prim.Native.Char.{code}
use deep_thought.Prelude.{
  ℕ, ◌+◌, ◌-◌, ◌*◌, String, Bool, true, false, not, ◌&&◌, Option, none, some, List, [], ◌∷◌, ◌==◌,
  keep, map, truthy, ltb, if◌then◌else◌,
}
use deep_thought.Prelude.Text.{after, strip, strip_of, or_empty}
use deep_thought.Ids.{take_chars}
use deep_thought.Schema.Json.{Json}
use deep_thought.Schema.Status.{AuthorizationBasis, basis_value}
use deep_thought.Schema.Project.{Project}
use deep_thought.Schema.Finding.{Finding}
use deep_thought.Scope.{area_in_scope}
use deep_thought.Store.{Store, list_findings}
use deep_thought.Ingest.Patterns.{is_digit}
use deep_thought.Ingest.Documents.{Reading}
use deep_thought.Ingest.Scope.{Resolve}
use deep_thought.Sessions.Map.Loop.{fromkeys}

-- What the session meets outside: the file system, with what a file reads as, and the functions on
-- texts that the ingest takes.
pub record Outside : Type 0 where
  pub is_dir : String → Bool
  pub root_of : String → List String
  pub resolve : Resolve
  pub read : String → Reading
  pub json_repr : Option Json → String
  pub decode : List ℕ → String
  pub is_wide : ℕ → Bool

pub record DiscoverSession : Type 0 where
  pub project_id : String
  pub sarif_path : Option String
  pub root : Option String

abbrev basis_or_none : Option AuthorizationBasis → String
basis_or_none none = "none"
basis_or_none (some basis) = basis_value basis

-- `_attestation_ref`
unfoldable pub attestation_ref : Project → String
unfolding take_chars
attestation_ref p = take_chars 256 (
    if truthy p.authorization_ref
    then or_empty p.authorization_ref
    else basis_or_none p.authorization_basis)

-- `_resolve_checkout`, as the path resolves
unfoldable pub resolve_checkout : Outside → Option String → Option (List String)
resolve_checkout w none = none
resolve_checkout w (some path) =
    if not (path == "") && w.is_dir path then some (w.root_of path) else none

-- `_coverage_areas`
unfoldable pub coverage_areas : Outside → Project → Option (List String) → List String
unfolding fromkeys strip_of area_in_scope
coverage_areas w p root =
    keep (λ a. not (a == "") && area_in_scope w.resolve a root)
      (fromkeys [] (map (λ a. strip a) p.scope_allowlist))

-- a text of digits as a number, after the digits that were read
unfoldable pub digits_from : ℕ → String → Option ℕ
digits_from n String.[] = some n
digits_from n (String.◌∷◌ c s) =
    let rest = digits_from (n * 10 + (code c - b'0')) s in if is_digit (code c) then rest else none

unfoldable pub digits : String → Option ℕ
unfolding digits_from
digits String.[] = none
digits (String.◌∷◌ c s) = digits_from 0 (String.◌∷◌ c s)

abbrev number_after : Option String → Option ℕ
number_after none = none
number_after (some s) = digits s

-- `_FINDING_ID.match(id)` with `int` of its group; the ids on file are ASCII, on one line
unfoldable pub number_of : String → Option ℕ
unfolding after digits
number_of id = number_after (after "F-" id)

abbrev pub max_with : Option ℕ → ℕ → ℕ
max_with none n = n
max_with (some m) n = if ltb n m then m else n

unfoldable pub highest : List Finding → ℕ
unfolding number_of
highest [] = 0
highest (f ∷ fs) = max_with (number_of f.id) (highest fs)

-- `_next_finding_index`
unfoldable pub next_finding_index : Store → ℕ
unfolding highest list_findings
next_finding_index s = highest (list_findings s none) + 1
