-- ===== src/Apps/Registry.antt =====
-- cpp/registry
pub mod Publisher
pub mod Subscriber
use zzdds_examples.Base.Int.{ℤ}

-- `SensorReading` of cpp/registry/idl, with the key sensor_id.
pub record SensorReading : Type 0 where
  pub sensor_id : ℤ
  pub value : ℤ
