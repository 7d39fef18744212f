-- ===== src/Apps/Catchup.antt =====
-- cpp/catchup
pub mod Publisher
pub mod Subscriber
use zzdds_examples.Base.{ℕ}
use zzdds_examples.Base.Int.{ℤ}

-- `HistoryEvent` of cpp/catchup/idl
pub record HistoryEvent : Type 0 where
  pub seq_num : ℤ

-- HISTORICAL_COUNT and LIVE_COUNT
abbrev pub historical_count : ℕ
historical_count = 10

abbrev pub live_count : ℕ
live_count = 5
