-- ===== src/Sibling.antt =====
-- Variant signatures (src/deepthought/sibling/signature.py): what SIBLING HUNT looks for, derived from
-- the typed fields of a finding.
pub mod Locations
pub mod Signature
