-- ===== src/Examples/Documents.antt =====
-- A small SARIF document: a result with a rule, one out of scope, and one without a message.
use deep_thought.Prelude.{
  ℕ, String, ◌≡◌, refl, Bool, true, false, Option, none, some, List, [], ◌∷◌, All, map, member, eqb,
  ◌&◌, if◌then◌else◌,
}
use deep_thought.Prelude.Ints.{pos}
use deep_thought.Prelude.Text.{path_parts}
use deep_thought.Schema.Json.{Json, integer, text, array, object, nil, cons, Fields, end, field}
use deep_thought.Schema.Finding.{Finding}
use deep_thought.Ingest.Patterns.{
  is_cve, is_cwe, is_safe_http_url, has_scheme, has_word, first_line,
}
use deep_thought.Ingest.Unquote.{unquote}
use deep_thought.Ingest.Scope.{in_scope}
use deep_thought.Ingest.Scope.Sound.{IsCovered, StaysInside, in_scope-IsCovered}
use deep_thought.Ingest.Capabilities.{match_capability}
use deep_thought.Ingest.Results.{Accepted}
use deep_thought.Ingest.Findings.{sarif_to_findings}
use deep_thought.Ingest.Findings.Bounded.{IsInert, IsBounded, sarif_to_findings-IsInert}
use deep_thought.Ingest.Primitives.{sarif_to_primitives}
use deep_thought.Ingest.Primitives.Suspected.{IsSuspected, sarif_to_primitives-IsSuspected}

abbrev pub decode : List ℕ → String
decode [] = ""
decode (byte ∷ bytes) = if eqb byte 46 then "." & decode bytes else "a" & decode bytes

abbrev pub is_wide : ℕ → Bool
is_wide c = false

abbrev pub resolve : List String → Option (List String)
resolve parts = some parts

abbrev only : String → Json → Fields
only key value = field key value end

abbrev location : String → Json
location uri = array (
    cons
      (object (
        only "physicalLocation" (
          object (
            field "artifactLocation" (object (only "uri" (text uri)))
              (only "region" (object (only "startLine" (integer (pos 12)))))))))
      nil)

abbrev result : String → String → String → Fields
result rule_id message uri = field "ruleId" (text rule_id) (
    field "message" (object (only "text" (text message))) (
      field "locations" (location uri) (
        only "properties"
          (object (field "cve" (text " cve-2024-12345 ") (only "cwe" (text "CWE-89")))))))

abbrev rules : Json
rules = array (
    cons (object (field "id" (text "php/sqli") (only "helpUri" (text "https://example.org/sqli"))))
      nil)

abbrev pub sarif : Fields
sarif = field "version" (text "2.1.0") (
    only "runs" (
      array (
        cons
          (object (
            field "tool" (object (only "driver" (object (only "rules" rules)))) (
              only "results" (
                array (
                  cons (object (result "php/sqli" "query built from input\nhere" "ext/soap/q.c"))
                    (cons (object (result "php/sqli" "elsewhere" "ext/soap/%2e%2e/x.c")) nil))))))
          nil)))

abbrev scope : Option (List String)
scope = some ("ext/soap" ∷ [])

abbrev pub ids : List Finding → List String
ids fs = map (λ (f : Finding). f.id) fs

patterns :
    (is_cve "CVE-2024-12345" ≡ true)
    × (is_cve "CVE-2024-123" ≡ false)
    × (is_cwe "CWE-89" ≡ true)
    × (is_safe_http_url "https:///x" ≡ false)
    × (has_scheme "file:/x" ≡ true)
    × (has_word is_wide "sql" "nosql" ≡ false)
    × (first_line "a\nb" ≡ "a")
unfolding is_cve is_cwe is_safe_http_url has_scheme has_word first_line
patterns = (refl, refl, refl, refl, refl, refl, refl)

decoded : unquote decode "a%2e%2E/%zz%" ≡ "a../%zz%"
unfolding unquote
decoded = refl

underscored : match_capability is_wide (some "php/sql_injection") [] ≡ some "inject:sql"
unfolding match_capability
underscored = refl

one_found : ids (sarif_to_findings decode resolve scope none sarif "php-src" 7) ≡ "F-0007" ∷ []
unfolding sarif_to_findings
one_found = refl

in_scope-IsCovered_example :
    (member ".." (path_parts (unquote decode "ext/%61/q.c")) ≡ false)
    × IsCovered (path_parts (unquote decode "ext/%61/q.c")) ("" ∷ "ext/" ∷ [])
    × StaysInside resolve (some ("src" ∷ [])) (path_parts (unquote decode "ext/%61/q.c"))
unfolding in_scope
in_scope-IsCovered_example =
    in_scope-IsCovered decode resolve "ext/%61/q.c" ("" ∷ "ext/" ∷ []) (some ("src" ∷ [])) refl

sarif_to_findings-IsInert_example :
    All
      (λ f. IsInert "php-src" f × IsBounded f)
      (sarif_to_findings decode resolve scope none sarif "php-src" 7)
sarif_to_findings-IsInert_example =
    sarif_to_findings-IsInert decode resolve scope none sarif "php-src" 7

sarif_to_primitives-IsSuspected_example :
    All
      (IsSuspected ("F-0007" ∷ []))
      (sarif_to_primitives is_wide decode resolve scope none sarif ("F-0007" ∷ []))
sarif_to_primitives-IsSuspected_example =
    sarif_to_primitives-IsSuspected is_wide decode resolve scope none sarif ("F-0007" ∷ [])

abbrev accepted : Accepted
accepted = record {
  result = result "php/sqli" "query built from input\nhere" "ext/soap/q.c";
  rule = none;
  message = "query built from input\nhere";
}
