-- ===== src/Examples/Areas.antt =====
-- The coverage of an area whose name has a slash, in a store that has it under the older name.
use deep_thought.Prelude.{String, ◌≡◌, ◌≢◌, refl, some, [], ◌∷◌, arith, eq_iff}
use deep_thought.Prelude.Text.{digit_in, strip_of}
use deep_thought.Prelude.Dirs.{lookup}
use deep_thought.Ids.{is_record_id}
use deep_thought.Schema.Status.{read, touched}
use deep_thought.Schema.Coverage.{Coverage}
use deep_thought.Store.{Store, empty}
use deep_thought.Store.Areas.{
  quote, area_slug, area_file, legacy_file, written, save_coverage, get_coverage,
}
use deep_thought.Store.Areas.Upgrade.{get_coverage-save_coverage}

abbrev no_digest : String → String
no_digest s = "da39a3ee5e6b4b0d3255bfef95601890afd80709"

abbrev soap : Coverage
soap = record {
  project = "php-src";
  area = "ext/soap";
  method = read;
  depth = touched;
  last_session = "S-2026-07-01-001";
  body = "";
}

-- written by the code of before
abbrev old_store : Store
old_store = record empty { coverage = ("php-src", ("ext-soap.md", soap) ∷ []) ∷ [] }

soap_file : area_file no_digest "ext/soap" ≡ "ext%2Fsoap.md"
unfolding area_slug quote digit_in
soap_file = refl

soap_legacy : legacy_file "ext/soap" ≡ "ext-soap.md"
unfolding legacy_file strip_of
soap_legacy = refl

old_is_found : get_coverage no_digest old_store "php-src" "ext/soap" ≡ some soap
unfolding get_coverage area_slug quote digit_in legacy_file strip_of lookup is_record_id
old_is_found = refl

get_coverage-save_coverage_example :
    get_coverage no_digest (save_coverage no_digest old_store soap) "php-src" "ext/soap"
    ≡ some (written soap)
unfolding is_record_id
get_coverage-save_coverage_example = get_coverage-save_coverage no_digest old_store soap refl

files_differ : legacy_file "ext/soap" ≢ area_file no_digest "ext/soap"
files_differ e = ground (arith, e, soap_file, soap_legacy, eq_iff "ext-soap.md" "ext%2Fsoap.md")
