-- ===== src/Export.antt =====
-- The exporters (src/deepthought/export): OpenVex is the OpenVEX draft of a finding and its validator,
-- Dates the check of a date and time that they share.
pub mod Dates
pub mod OpenVex
