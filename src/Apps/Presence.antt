-- ===== src/Apps/Presence.antt =====
-- cpp/presence
pub mod Publisher
pub mod Subscriber
use zzdds_examples.Base.Int.{ℤ}

-- `PresenceBeacon` of cpp/presence/idl
pub record PresenceBeacon : Type 0 where
  pub seq_num : ℤ
