-- ===== src/Schema.antt =====
-- The records of the store (src/deepthought/schema): their enumerations, their fields and the
-- checks that construction makes.
pub mod Status
pub mod Json
pub mod Finding
pub mod Project
pub mod Session
pub mod Coverage
pub mod Loop
pub mod Envelope
