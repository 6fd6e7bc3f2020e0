-- ===== src/Examples/Exports.antt =====
-- The OpenVEX draft of a finding, and documents that its validator refuses.
use deep_thought.Prelude.{ℕ, String, ◌≡◌, refl, true, some, [], ◌∷◌}
use deep_thought.Schema.Json.{null, object, end}
use deep_thought.Schema.Status.{verified}
use deep_thought.Schema.Finding.{Finding}
use deep_thought.Export.Dates.{is_date_time}
use deep_thought.Export.OpenVex.{vuln_name, products, finding_to_openvex}
use deep_thought.Export.OpenVex.Checks.{validate_openvex}
use deep_thought.Export.OpenVex.Conformant.{finding_to_openvex-conforms}
use deep_thought.Prelude.Time.{iso_z}
use deep_thought.Examples.Samples.{finding_at}

abbrev affected : Finding
affected = record (finding_at verified) {
  affected =
      record {
        ecosystem = "PyPI";
        package_name = "a/b c";
        ranges = [];
        versions = "1.0" ∷ "1.0" ∷ [];
      }
      ∷ record { ecosystem = ""; package_name = "d"; ranges = []; versions = [] }
      ∷ [];
}

abbrev as_is : String → String
as_is s = s

affected_products :
    products as_is affected
    ≡ "pkg:PyPI/a/b%20c@1.0" ∷ "https://deepthought.local/product/x_F-0001" ∷ []
unfolding products
affected_products = refl

-- The sentinel is not taken for a CVE, but one with a line break at its end is.
sentinel : vuln_name (record affected { cve = some "CVE-XXXX-XXXXX" }) ≡ "x_F-0001"
unfolding vuln_name
sentinel = refl

line_break : vuln_name (record affected { cve = some "CVE-2026-0001\n" }) ≡ "CVE-2026-0001\n"
unfolding vuln_name
line_break = refl

-- 2026-01-01T00:00:00Z
abbrev new_year : ℕ
new_year = 1767225600000000

new_year_prints : is_date_time (λ s. true) (iso_z new_year) ≡ true
unfolding is_date_time iso_z
new_year_prints = refl

not_an_object :
    validate_openvex (λ s. true) (λ j. "None") null ≡ "<root>: document must be an object" ∷ []
unfolding validate_openvex
not_an_object = refl

nothing_given :
    validate_openvex (λ s. true) (λ j. "None") (object end)
    ≡ "@context: must be 'https://openvex.dev/ns/v0.2.0'" ∷ "@id: must be a non-empty string"
      ∷ "author: must be a non-empty string" ∷ "statements: must be a non-empty list"
      ∷ "timestamp: must be a non-empty string" ∷ "version: must be a positive integer" ∷ []
unfolding validate_openvex
nothing_given = refl

finding_to_openvex-conforms_example :
    validate_openvex (λ s. true) (λ j. "None") (finding_to_openvex as_is new_year new_year affected)
    ≡ []
finding_to_openvex-conforms_example =
    finding_to_openvex-conforms as_is (λ s. true) (λ j. "None") new_year new_year affected
      new_year_prints
