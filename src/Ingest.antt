-- ===== src/Ingest.antt =====
-- SARIF results into candidate findings and suspected primitives
-- (src/deepthought/ingest/sarif.py): Documents is the reading of a document, Scope the filter on
-- locations, Capabilities the closed table, Results the accepted results, and Findings and
-- Primitives the two mappings.
pub mod Patterns
pub mod Documents
pub mod Unquote
pub mod Scope
pub mod Capabilities
pub mod Results
pub mod Findings
pub mod Primitives
