-- ===== src/Apps.antt =====
-- The reference applications below cpp/, each a publisher and a subscriber process.
pub mod Common
pub mod HelloWorld
pub mod Discovery
pub mod Presence
pub mod Registry
pub mod Catchup
pub mod Waitset
pub mod ParticipantConfig
