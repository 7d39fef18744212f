-- ===== src/Tests.antt =====
-- Runs at concrete inputs: the theorems applied, and small tests of the definitions.
pub mod Worlds
mod Args
mod HelloPublisher
mod HelloSubscriber
mod Discovery
mod ParticipantConfig
mod Main
mod ShapePublisher
mod ShapeSubscriber
mod Qos
mod Allocator
mod Presence
mod Registry
mod Catchup
mod ShapeRun
mod Waitset
mod Guard
