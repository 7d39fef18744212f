-- ===== src/Shape.antt =====
-- cpp/shape
pub mod Options
pub mod Args
pub mod Qos
pub mod Topics
pub mod Sample
pub mod Publisher
pub mod Subscriber
pub mod Main
