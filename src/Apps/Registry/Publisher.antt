-- ===== src/Apps/Registry/Publisher.antt =====
-- cpp/registry/src/publisher.cpp
pub mod Contract
use Prim.Native.String.{String}
use zzdds_examples.Base.{ℕ, ◌*◌, ◌/◌, ◌%◌, ◌^◌, List, [], ◌∷◌}
use zzdds_examples.Base.Text.{Text, codes}
use zzdds_examples.Base.Int.{ℤ, pos, ◌==ℤ◌, to_i32, to_u32}
use zzdds_examples.Dds.{WriterQos, ReliabilityKind, HistoryKind, Duration, is_ok}
use zzdds_examples.Runtime.Event.{
  num, int, create_publisher, create_datawriter, set_listener, register_instance, write,
  write_w_timestamp, dispose, unregister_instance, get_key_value, clock,
}
use zzdds_examples.Runtime.Program.{
  M, Env, ◌>>=◌, ◌>>◌, return, exit, check, printf, query, invoke_with, must_create, must_return,
}
use zzdds_examples.Runtime.Wait.{wait_until}
use zzdds_examples.Apps.Common.{
  PubState, PubCallback, pub_listener, drained, parse_domain, bring_up,
}
use zzdds_examples.Apps.Registry.{SensorReading}

abbrev pub reading : ℕ → ℕ → SensorReading
reading sensor_id value = record { sensor_id = pos sensor_id; value = pos value }

abbrev pub writer_qos : WriterQos → WriterQos
writer_qos default = record default {
  reliability = ReliabilityKind.reliable;
  history = HistoryKind.keep_all;
}

-- `now_ns` as a DDS_Time_t.
abbrev pub time_of : ℕ → Duration
time_of now_ns = record {
  sec = to_i32 (pos (now_ns / 1000000000));
  nanosec = to_u32 (now_ns % 1000000000);
}

module _ (env : Env SensorReading PubCallback) where
  -- The instance with sensor_id 1. The result is handle_a.
  pub instance_a : M SensorReading PubState ℕ
  instance_a = do
    handle_a ← query env (register_instance 0 (reading 1 0))
    printf "Publisher: registered instance sensor_id=1\n" []
    must_return env (write 0 (reading 1 100)) "FAIL: write() failed for sensor_id=1\n" []
    printf "Publisher: wrote sensor_id=1 value=100\n" []
    must_return env (write 0 (reading 1 101)) "FAIL: write() failed for sensor_id=1\n" []
    printf "Publisher: wrote sensor_id=1 value=101\n" []
    must_return env (dispose 0 (reading 1 0)) "FAIL: dispose() failed for sensor_id=1\n" []
    printf "Publisher: disposed sensor_id=1\n" []
    return handle_a

  pub instance_b : M SensorReading PubState (Unit {0})
  instance_b = do
    handle_b ← query env (register_instance 0 (reading 2 0))
    printf "Publisher: registered instance sensor_id=2\n" []
    now_ns ← query env clock
    must_return env (write_w_timestamp 0 (reading 2 200) (time_of now_ns))
        "FAIL: write_w_timestamp() failed for sensor_id=2\n" []
    printf "Publisher: wrote sensor_id=2 value=200\n" []
    must_return env (unregister_instance 0 (reading 2 0))
        "FAIL: unregister_instance() failed for sensor_id=2\n" []
    printf "Publisher: unregistered sensor_id=2\n" []

  pub instance_c : M SensorReading PubState (Unit {0})
  instance_c = do
    handle_c ← query env (register_instance 0 (reading 3 0))
    printf "Publisher: registered instance sensor_id=3\n" []
    must_return env (write 0 (reading 3 300)) "FAIL: write() failed for sensor_id=3\n" []
    printf "Publisher: wrote sensor_id=3 value=300\n" []

  pub key_round_trip : ℕ → M SensorReading PubState (Unit {0})
  key_round_trip handle_a = do
    (rc, sensor_id) ← invoke_with env env.key_of (get_key_value handle_a)
    check (is_ok rc) "FAIL: get_key_value() failed for sensor_id=1\n" []
    check (sensor_id ==ℤ pos 1)
        "FAIL: get_key_value() round-trip mismatch: expected sensor_id=1, got sensor_id=%d\n"
        (int sensor_id ∷ [])
    printf "Publisher: get_key_value round-trip OK for sensor_id=1\n" []

  pub body : List Text → M SensorReading PubState (Unit {0})
  body argv = do
    bring_up env (parse_domain argv) (codes "SensorReading")
    must_create env (create_publisher env.defaults.group) "FAIL: create_publisher() failed\n" []
    must_create env (create_datawriter (codes "SensorReading") (writer_qos env.defaults.writer))
        "FAIL: create_datawriter() failed\n" []
    printf "Create writer for topic: SensorReading\n" []
    must_return env set_listener "FAIL: set_listener_ex failed\n" []
    wait_until env pub_listener (λ st. st.reader_ready) 10000 20
        "FAIL: no reliable reader became ready within %ds\n" (λ _. num 10 ∷ [])
    handle_a ← instance_a
    instance_b
    instance_c
    key_round_trip handle_a
    wait_until env pub_listener drained 15000 20 "FAIL: subscriber did not disconnect within %ds\n"
        (λ _. num 15 ∷ [])
    printf "Publisher: done.\n" []

  pub main : List Text → M SensorReading PubState (Unit {0})
  main argv = do body argv; exit 0
