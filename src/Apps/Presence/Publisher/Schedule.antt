-- ===== src/Apps/Presence/Publisher/Schedule.antt =====
-- What a reader can notice of the presence publisher: its beacons and assertions, and the pauses.
use zzdds_examples.Base.{
  ℕ, zero, suc, ◌*◌, ◌≤◌, ◌≡◌, refl, ltb, if◌then◌else◌, List, [], ◌∷◌, ◌++◌, arith,
}
use zzdds_examples.Runtime.Event.{Event, called, slept, write, assert_liveliness, Observer}
use zzdds_examples.Apps.Common.Keeps.{IgnoresSetup}
use zzdds_examples.Apps.Presence.{PresenceBeacon}
use zzdds_examples.Apps.Presence.Publisher.{
  beacon, beacon_period_ms, online_beacon_count, offline_duration_ms,
}

pub data Beat : Type 0 where
  sent : PresenceBeacon → Beat
  asserted : Beat
  paused : (us : ℕ) → Beat

-- A pause is longer than the 20 ms of the polling loops.
abbrev pub beat_of : Event PresenceBeacon → List Beat
beat_of (called (write k s)) = sent s ∷ []
beat_of (called assert_liveliness) = asserted ∷ []
beat_of (slept us) = if ltb 20000 us then paused us ∷ [] else []
beat_of e = []

pub asleep : (us : ℕ) → us ≤ 20000 → beat_of (slept us) ≡ []
asleep us short = ground arith

abbrev pub beats : Observer PresenceBeacon Beat
beats = record { see = beat_of; blind = λ s args. refl; asleep = asleep }

pub beats-IgnoresSetup : IgnoresSetup beats
beats-IgnoresSetup = record {
  factory = refl;
  participant = λ domain. refl;
  registration = refl;
  topic = λ name type_name. refl;
  line = λ s name. refl;
}

-- `count` beacons from number `seq` on, each with the pause after it.
abbrev pub online : (seq count : ℕ) → List Beat
online seq zero = []
online seq (suc count) =
    sent (beacon seq) ∷ paused (beacon_period_ms * 1000) ∷ online (suc seq) count

-- The silence and the recovery.
abbrev pub gap : List Beat
gap = paused (offline_duration_ms * 1000) ∷ asserted ∷ []

abbrev pub schedule : List Beat
schedule = online 0 online_beacon_count ++ gap ++ online online_beacon_count online_beacon_count
