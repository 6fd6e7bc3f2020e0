-- ===== src/Ingest/Findings/Bounded.antt =====
-- What a document can put into a finding.
use deep_thought.Prelude.{
  ℕ, ◌+◌, ◌≤◌, String, ◌≡◌, refl, true, ◌&&◌, Option, none, some, List, [], ◌∷◌, All, leb, leb→le,
  arith, if_ind,
}
use deep_thought.Ids.{size}
use deep_thought.Ids.Safe.{size-take_chars}
use deep_thought.Schema.Json.{Fields}
use deep_thought.Schema.Status.{candidate}
use deep_thought.Schema.Finding.{Finding, Reference}
use deep_thought.Ingest.Patterns.{is_cve, is_safe_http_url}
use deep_thought.Ingest.Documents.VulnIds.{IfSome, known_vuln_ids-forms}
use deep_thought.Ingest.Documents.{rule_help_uri}
use deep_thought.Ingest.Results.{Accepted, accepted_results}
use deep_thought.Ingest.Scope.{Resolve}
use deep_thought.Ingest.Findings.{
  summary_of, references_of, body_of, aliases_of, finding_of, numbered, sarif_to_findings,
}

-- a link that may be persisted
abbrev pub IsSafeLink : Reference → Type 0
IsSafeLink r = (r.type ≡ "detection") × (is_safe_http_url r.url ≡ true) × (size r.url ≤ 2048)

-- a CVE that is only mentioned
abbrev pub IsAlias : String → Type 0
IsAlias s = is_cve s ≡ true

-- a candidate of a project without evidence, without a CVE of its own, and with nothing affected
abbrev pub IsInert : String → Finding → Type 0
IsInert project f =
    (f.project ≡ project)
    × (f.status ≡ candidate)
    × (f.evidence_ref ≡ none)
    × (f.cve ≡ none)
    × (f.affected ≡ [])

-- every text of the document that it carries is bounded and well formed
abbrev pub IsBounded : Finding → Type 0
IsBounded f =
    (size f.summary ≤ 200)
    × (size f.body ≤ 4096)
    × All IsSafeLink f.references
    × All IsAlias f.aliases

references_of-safe : (uri : Option String) → All IsSafeLink (references_of uri)
unfolding references_of
references_of-safe none = tt
references_of-safe (some uri) =
    if_ind (λ rs. All IsSafeLink rs) (leb (size uri) 2048 && is_safe_http_url uri)
      (record { type = "detection"; url = uri } ∷ []) []
      (λ h. ((refl, ground arith, leb→le (size uri) 2048 (ground arith)), tt)) (λ _. tt)

aliases_of-All : (o : Option String) → IfSome (λ s. is_cve s ≡ true) o → All IsAlias (aliases_of o)
aliases_of-All none h = tt
aliases_of-All (some cve) h = (h, tt)

finding_of-IsInert :
    (project : String) (n : ℕ) (a : Accepted) → IsInert project (finding_of project n a)
unfolding finding_of
finding_of-IsInert project n a = (refl, refl, refl, refl, refl)

finding_of-IsBounded :
    (project : String) (n : ℕ) (a : Accepted) → IsBounded (finding_of project n a)
unfolding finding_of summary_of body_of
finding_of-IsBounded project n a = (
  size-take_chars 200 _,
  size-take_chars 4096 _,
  references_of-safe (rule_help_uri a.rule),
  aliases_of-All _ ((known_vuln_ids-forms a.result a.rule).0),
)

numbered-All :
    (project : String) (n : ℕ) (results : List Accepted)
    → All (λ f. IsInert project f × IsBounded f) (numbered project n results)
unfolding numbered
numbered-All project n [] = tt
numbered-All project n (a ∷ rest) = (
  (finding_of-IsInert project n a, finding_of-IsBounded project n a),
  numbered-All project (n + 1) rest,
)

-- Whatever a document says, each finding that comes of it is a candidate of the project without
-- evidence, without a CVE of its own and with nothing affected; its summary and its body keep their
-- bounds, its links are safe and bounded, and the only CVEs that it mentions have the official form.
pub sarif_to_findings-IsInert :
    (decode : List ℕ → String) (resolve : Resolve) (scope : Option (List String))
    (root : Option (List String)) (sarif : Fields) (project : String) (id_start : ℕ)
    → All
        (λ f. IsInert project f × IsBounded f)
        (sarif_to_findings decode resolve scope root sarif project id_start)
unfolding sarif_to_findings
sarif_to_findings-IsInert decode resolve scope root sarif project id_start =
    numbered-All project id_start (accepted_results decode resolve scope root sarif)
