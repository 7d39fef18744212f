-- ===== src/Apps/Presence/Publisher.antt =====
-- cpp/presence/src/publisher.cpp
pub mod Schedule
pub mod Contract
use Prim.Native.String.{String}
use zzdds_examples.Base.{ℕ, zero, suc, ◌*◌, List, [], ◌∷◌}
use zzdds_examples.Base.Text.{Text, codes}
use zzdds_examples.Base.Int.{pos}
use zzdds_examples.Dds.{WriterQos, ReliabilityKind, HistoryKind, LivelinessKind}
use zzdds_examples.Runtime.Event.{
  num, create_publisher, create_datawriter, set_listener, write, assert_liveliness,
}
use zzdds_examples.Runtime.Program.{
  M, Env, ◌>>=◌, ◌>>◌, return, exit, printf, usleep, must_create, must_return,
}
use zzdds_examples.Runtime.Wait.{wait_until}
use zzdds_examples.Apps.Common.{
  PubState, PubCallback, pub_listener, drained, parse_domain, bring_up,
}
use zzdds_examples.Apps.Presence.{PresenceBeacon}

-- ONLINE_BEACON_COUNT, BEACON_PERIOD_MS, LEASE_DURATION_S and OFFLINE_DURATION_MS
abbrev pub online_beacon_count : ℕ
online_beacon_count = 8

abbrev pub beacon_period_ms : ℕ
beacon_period_ms = 500

abbrev pub lease_duration_s : ℕ
lease_duration_s = 2

abbrev pub offline_duration_ms : ℕ
offline_duration_ms = 5000

abbrev pub beacon : ℕ → PresenceBeacon
beacon seq = record { seq_num = pos seq }

abbrev pub writer_qos : WriterQos → WriterQos
writer_qos default = record default {
  reliability = ReliabilityKind.reliable;
  history = HistoryKind.keep_last;
  depth = pos 1;
  liveliness = LivelinessKind.manual_by_topic;
  lease = record { sec = pos lease_duration_s; nanosec = 0 };
}

module _ (env : Env PresenceBeacon PubCallback) where
  -- `for (; seq < seq + count; seq++) { … }`, in both phases.
  pub beacons : (seq count : ℕ) → M PresenceBeacon PubState (Unit {0})
  beacons seq zero = return tt
  beacons seq (suc count) = do
    must_return env (write 0 (beacon seq)) "FAIL: write() failed at sequence=%d\n" (num seq ∷ [])
    printf "Publisher: wrote sequence=%d\n" (num seq ∷ [])
    usleep (beacon_period_ms * 1000)
    beacons (suc seq) count

  -- The silence between the phases, and the recovery.
  pub offline : M PresenceBeacon PubState (Unit {0})
  offline = do
    printf "Publisher: going offline (no writes/asserts for %ds, lease is %ds)\n"
        (num 5 ∷ num lease_duration_s ∷ [])
    usleep (offline_duration_ms * 1000)
    printf "Publisher: asserting liveliness and resuming\n" []
    must_return env assert_liveliness "FAIL: assert_liveliness() failed\n" []

  pub body : List Text → M PresenceBeacon PubState (Unit {0})
  body argv = do
    bring_up env (parse_domain argv) (codes "PresenceBeacon")
    must_create env (create_publisher env.defaults.group) "FAIL: create_publisher() failed\n" []
    must_create env (create_datawriter (codes "PresenceBeacon") (writer_qos env.defaults.writer))
        "FAIL: create_datawriter() failed\n" []
    printf "Create writer for topic: PresenceBeacon\n" []
    must_return env set_listener "FAIL: set_listener_ex failed\n" []
    wait_until env pub_listener (λ st. st.reader_ready) 10000 20
        "FAIL: no reliable reader became ready within %ds\n" (λ _. num 10 ∷ [])
    beacons 0 online_beacon_count
    offline
    beacons online_beacon_count online_beacon_count
    wait_until env pub_listener drained 15000 20 "FAIL: subscriber did not disconnect within %ds\n"
        (λ _. num 15 ∷ [])
    printf "Publisher: done.\n" []

  pub main : List Text → M PresenceBeacon PubState (Unit {0})
  main argv = do body argv; exit 0
