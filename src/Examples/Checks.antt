-- ===== src/Examples/Checks.antt =====
-- The checks of a store at concrete stores, with the theorems about them.
use deep_thought.Prelude.{◌≡◌, ◌↔◌, refl, [], ◌∷◌}
use deep_thought.Prelude.Text.{repr}
use deep_thought.Prelude.Dirs.{values, lookup}
use deep_thought.Schema.Project.{identity}
use deep_thought.Schema.Status.{candidate}
use deep_thought.Store.{Store, list_coverage}
use deep_thought.Store.Check.{orphan_errors, identity_errors, duplicates, each}
use deep_thought.Store.Check.Links.{IsLinked, orphan_errors-IsLinked}
use deep_thought.Examples.Samples.{store, project, finding_at}

-- a finding of a project that nobody registered
abbrev orphaned : Store
orphaned = record store {
  findings = ("F-0001.md", record (finding_at candidate) { project = "curl" }) ∷ [];
}

orphan_reported : orphan_errors orphaned ≡ "finding 'F-0001' references unknown project 'curl'" ∷ []
unfolding orphan_errors each values list_coverage repr
orphan_reported = refl

orphan_errors-IsLinked_example : (orphan_errors orphaned ≡ []) ↔ IsLinked orphaned
orphan_errors-IsLinked_example = orphan_errors-IsLinked orphaned

-- one repository registered twice
abbrev twice : Store
twice = record store {
  projects = ("php-src.md", project) ∷ ("php.md", record project { id = "php" }) ∷ [];
}

duplicate_reported :
    identity_errors twice
    ≡ "duplicate project identity 'https://github.com/php/php-src': 'php-src' and 'php'" ∷ []
unfolding identity_errors duplicates values identity lookup repr
duplicate_reported = refl
