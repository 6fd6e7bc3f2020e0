-- ===== src/Ingest/Capabilities.antt =====
-- The closed table from rules to capabilities (src/deepthought/ingest/sarif.py).
use deep_thought.Prelude.{
  ℕ, String, Bool, Option, none, some, List, [], ◌∷◌, any, map, keep, member, not, truthy,
  if◌then◌else◌,
}
use deep_thought.Prelude.Text.{lower, or_empty}
use deep_thought.Schema.Envelope.{capability_taxonomy}
use deep_thought.Ingest.Patterns.{hyphens, has_word}

abbrev pub Rows : Type 0
Rows = List (String × String)

-- `_HEURISTIC`
unfoldable pub heuristic : Rows
heuristic =
    ("sqli", "inject:sql")
    ∷ ("sql", "inject:sql")
    ∷ ("cwe-89", "inject:sql")
    ∷ ("ssti", "inject:template")
    ∷ ("template-injection", "inject:template")
    ∷ ("template", "inject:template")
    ∷ ("cwe-1336", "inject:template")
    ∷ ("deserialization", "deserialize:untrusted")
    ∷ ("deserialize", "deserialize:untrusted")
    ∷ ("deserialized", "deserialize:untrusted")
    ∷ ("unpickle", "deserialize:untrusted")
    ∷ ("unmarshal", "deserialize:untrusted")
    ∷ ("cwe-502", "deserialize:untrusted")
    ∷ ("ssrf", "ssrf:request")
    ∷ ("cwe-918", "ssrf:request")
    ∷ ("command-injection", "exec:command")
    ∷ ("os-command", "exec:command")
    ∷ ("shell", "exec:command")
    ∷ ("cwe-78", "exec:command")
    ∷ ("code-injection", "exec:code")
    ∷ ("eval", "exec:code")
    ∷ ("rce", "exec:code")
    ∷ ("cwe-94", "exec:code")
    ∷ ("arbitrary-file-write", "write:arbitrary-file")
    ∷ ("file-write", "write:arbitrary-file")
    ∷ ("arbitrary-file-read", "read:arbitrary-file")
    ∷ ("file-read", "read:arbitrary-file")
    ∷ ("path-traversal", "write:arbitrary-file")
    ∷ ("path-injection", "write:arbitrary-file")
    ∷ ("zip-slip", "write:arbitrary-file")
    ∷ ("cwe-22", "write:arbitrary-file")
    ∷ ("cwe-73", "write:arbitrary-file")
    ∷ ("path", "write:arbitrary-file")
    ∷ ("buffer", "write:arbitrary-file")
    ∷ ("oob-write", "write:arbitrary-file")
    ∷ ("use-after-free", "write:arbitrary-file")
    ∷ ("cwe-787", "write:arbitrary-file")
    ∷ ("cwe-416", "write:arbitrary-file")
    ∷ ("auth-bypass", "auth:bypass")
    ∷ ("missing-auth", "auth:bypass")
    ∷ ("authz", "auth:bypass")
    ∷ ("cwe-287", "auth:bypass")
    ∷ ("cwe-306", "auth:bypass")
    ∷ ("priv-esc", "escalate:privilege")
    ∷ ("privilege", "escalate:privilege")
    ∷ ("cwe-269", "escalate:privilege")
    ∷ ("hardcoded-credential", "leak:secret")
    ∷ ("api-key", "leak:secret")
    ∷ ("secret", "leak:secret")
    ∷ ("cwe-798", "leak:secret")
    ∷ ("info-leak", "leak:info")
    ∷ ("sensitive-exposure", "leak:info")
    ∷ ("cwe-200", "leak:info")
    ∷ []

-- `_unknown_caps`, which must be empty for the module to load
unfoldable pub unknown_caps : Rows → List String
unknown_caps rows =
    keep (λ capability. not (member capability capability_taxonomy)) (map (λ row. row.1) rows)

-- `s.lower().replace("_", "-")`
abbrev normal : String → String
normal s = hyphens (lower s)

-- The first row with a needle that passes a test.
unfoldable pub first_row : (String → Bool) → Rows → Option String
first_row p [] = none
first_row p ((needle, capability) ∷ rows) =
    let later = first_row p rows in if p needle then some capability else later

abbrev pub or_else : Option String → Option String → Option String
or_else none later = later
or_else (some capability) later = some capability

module _ (is_wide : ℕ → Bool) where
  unfoldable pub by_rule : Option String → Option String
  unfolding first_row heuristic hyphens lower has_word
  by_rule rule_id =
      let norm = normal (or_empty rule_id) in
      if truthy rule_id then first_row (λ needle. has_word is_wide needle norm) heuristic else none

  unfoldable pub by_tags : List String → Option String
  unfolding first_row heuristic hyphens lower has_word
  by_tags tags =
      let norms = map (λ t. normal t) tags in
      first_row (λ needle. any (λ norm. has_word is_wide needle norm) norms) heuristic

  -- `_match_capability`; `is_wide` says which characters beyond ASCII are alphanumeric
  unfoldable pub match_capability : Option String → List String → Option String
  unfolding by_rule by_tags
  match_capability rule_id tags = or_else (by_rule rule_id) (by_tags tags)
