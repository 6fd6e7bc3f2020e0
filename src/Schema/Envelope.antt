-- ===== src/Schema/Envelope.antt =====
-- src/deepthought/schema/envelope.py: the worker's envelope and the checks on its primitives.
use deep_thought.Prelude.{
  ℕ, String, Bool, true, false, not, ◌&&◌, Option, none, some, List, [], ◌∷◌, any, member, truthy,
  leb, length, if◌then◌else◌,
}
use deep_thought.Ids.{size}
use deep_thought.Schema.Session.{ContextCost}

abbrev pub capability_taxonomy : List String
capability_taxonomy =
    "read:arbitrary-file" ∷ "read:memory" ∷ "write:arbitrary-file" ∷ "write:logfile"
    ∷ "exec:command" ∷ "exec:code" ∷ "leak:info" ∷ "leak:secret" ∷ "control:flow" ∷ "auth:bypass"
    ∷ "escalate:privilege" ∷ "ssrf:request" ∷ "inject:sql" ∷ "inject:template"
    ∷ "deserialize:untrusted" ∷ []

pub data Outcome : Type 0 where
  resolved partial empty blocked error : Outcome

abbrev pub outcome_value : Outcome → String
outcome_value resolved = "resolved"
outcome_value partial = "partial"
outcome_value empty = "empty"
outcome_value blocked = "blocked"
outcome_value error = "error"

pub data Confidence : Type 0 where
  suspected demonstrated verified : Confidence

abbrev pub confidence_value : Confidence → String
confidence_value suspected = "suspected"
confidence_value demonstrated = "demonstrated"
confidence_value verified = "verified"

pub record Primitive : Type 0 where
  pub kind : String
  pub target_locus : String
  pub preconditions : List String
  pub grants : List String
  pub confidence : Confidence
  pub evidence_ref : Option String
  pub finding_ref : String

-- `_known_capabilities`
unfoldable pub known_capabilities : Primitive → Bool
known_capabilities p =
    if not (member p.kind capability_taxonomy)
    then false
    else not (any (λ g. not (member g capability_taxonomy)) p.grants)

abbrev is_shown : Confidence → Bool
is_shown suspected = false
is_shown _ = true

-- `_evidence_when_shown`
unfoldable pub evidence_when_shown : Primitive → Bool
evidence_when_shown p = not (is_shown p.confidence && not (truthy p.evidence_ref))

pub record CoverageDelta : Type 0 where
  pub area : String
  pub method : String
  pub depth : String

pub record GateAttestation : Type 0 where
  pub scope_ok : Bool
  pub authorization_ref : String

pub record Envelope : Type 0 where
  pub envelope_version : String
  pub session_ref : String
  pub worker_id : String
  pub task_ref : String
  pub outcome : Outcome
  pub primitives : List Primitive
  pub findings_written : List String
  pub coverage_delta : List CoverageDelta
  pub next_step_hints : List String
  pub context_cost : ContextCost
  pub detail_ref : Option String
  pub gate_attestation : GateAttestation

-- The constraints of the fields' types, which are checked where a value is made.
abbrev pub every {ℓ} : {A : Type ℓ} → (A → Bool) → List A → Bool
every p [] = true
every p (x ∷ xs) = p x && every p xs

-- `StringConstraints(max_length=n)`
abbrev pub fits : ℕ → String → Bool
fits n s = leb (size s) n

abbrev pub fits_if : ℕ → Option String → Bool
fits_if n none = true
fits_if n (some s) = fits n s

unfoldable pub primitive_ok : Primitive → Bool
unfolding known_capabilities evidence_when_shown
primitive_ok p =
    fits 128 p.kind
    && fits 256 p.target_locus
    && every (λ c. fits 256 c) p.preconditions
    && every (λ g. fits 128 g) p.grants
    && fits_if 256 p.evidence_ref
    && fits 128 p.finding_ref
    && known_capabilities p
    && evidence_when_shown p

abbrev pub delta_ok : CoverageDelta → Bool
delta_ok d = fits 128 d.area && fits 128 d.method && fits 128 d.depth

unfoldable pub envelope_ok : Envelope → Bool
unfolding primitive_ok
envelope_ok e =
    fits 128 e.envelope_version
    && fits 128 e.session_ref
    && fits 128 e.worker_id
    && fits 512 e.task_ref
    && every (λ p. primitive_ok p) e.primitives
    && every (λ f. fits 128 f) e.findings_written
    && every (λ d. delta_ok d) e.coverage_delta
    && every (λ h. fits 280 h) e.next_step_hints
    && leb (length e.next_step_hints) 32
    && fits_if 256 e.detail_ref
    && fits 256 e.gate_attestation.authorization_ref
