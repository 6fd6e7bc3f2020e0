-- ===== src/Examples.antt =====
-- The theorems at concrete inputs, and tests of the definitions.
mod Samples
mod Findings
mod Checks
mod Areas
mod Paths
mod Containers
mod Registrations
mod Surfaces
mod Verification
mod Sessions
mod Orchestration
mod Documents
mod Discoveries
mod Signatures
mod Exports
mod Reports
