-- ===== src/Apps/Registry/Subscriber.antt =====
-- cpp/registry/src/subscriber.cpp
pub mod Tracks
pub mod Lines
pub mod Contract
use Prim.Native.String.{String}
use zzdds_examples.Base.{
  ℕ, Bool, true, false, ◌==◌, ◌&&◌, ◌||◌, not, Option, none, some, List, [], ◌∷◌, if◌then◌else◌,
}
use zzdds_examples.Base.Text.{Text, codes}
use zzdds_examples.Base.Int.{ℤ, pos, ◌==ℤ◌}
use zzdds_examples.Dds.{
  ReaderQos, ReliabilityKind, HistoryKind, InstanceState, Taken, sample, take_error, SampleInfo,
}
use zzdds_examples.Runtime.Event.{
  num, int, text, create_subscriber, create_datareader, set_listener, delete_datareader,
  lookup_instance,
}
use zzdds_examples.Runtime.Program.{
  M, Env, ◌>>=◌, ◌>>◌, return, exit, get, modify, fail, check, printf, query, invoke, must_create,
  must_return, when,
}
use zzdds_examples.Runtime.Wait.{wait_until}
use zzdds_examples.Apps.Common.{parse_domain, bring_up}
use zzdds_examples.Apps.Common.Receiver.{NoSample}
use zzdds_examples.Apps.Registry.{SensorReading}

abbrev pub state_name : InstanceState → Text
state_name InstanceState.alive = codes "ALIVE"
state_name InstanceState.not_alive_disposed = codes "NOT_ALIVE_DISPOSED"
state_name InstanceState.not_alive_no_writers = codes "NOT_ALIVE_NO_WRITERS"
state_name (InstanceState.unknown_state n) = codes "UNKNOWN"

pub record InstanceTrack : Type 0 where
  pub sensor_id : ℤ
  pub seen_alive : Bool
  pub reached_terminal : Bool
  pub handle : ℕ

-- `SubState`
pub record SubState : Type 0 where
  pub tracks : List InstanceTrack
  pub all_done : Bool

abbrev fresh_track : ℕ → InstanceTrack
fresh_track n = record {
  sensor_id = pos n;
  seen_alive = false;
  reached_terminal = false;
  handle = 0;
}

abbrev pub fresh_sub_state : SubState
fresh_sub_state = record {
  tracks = fresh_track 1 ∷ fresh_track 2 ∷ fresh_track 3 ∷ [];
  all_done = false;
}

pub find_track : ℤ → List InstanceTrack → Option InstanceTrack
find_track sensor_id [] = none
find_track sensor_id (t ∷ tracks) =
    let more = find_track sensor_id tracks in if t.sensor_id ==ℤ sensor_id then some t else more

-- `track_for`. The caller's changes to `*track` are `set_track`.
found_track : ℤ → Option InstanceTrack → M NoSample SubState InstanceTrack
found_track sensor_id none = fail "FAIL: unexpected sensor_id=%d\n" (int sensor_id ∷ [])
found_track sensor_id (some t) = return t

pub track_for : ℤ → M NoSample SubState InstanceTrack
track_for sensor_id = do st ← get; found_track sensor_id (find_track sensor_id st.tracks)

pub put_track : InstanceTrack → List InstanceTrack → List InstanceTrack
put_track t [] = []
put_track t (u ∷ tracks) = (if u.sensor_id ==ℤ t.sensor_id then t else u) ∷ put_track t tracks

pub set_track : InstanceTrack → M NoSample SubState (Unit {0})
set_track t = modify λ st. record st { tracks = put_track t st.tracks }

pub all_instances_done : List InstanceTrack → Bool
all_instances_done [] = true
all_instances_done (t ∷ tracks) = t.reached_terminal && all_instances_done tracks

-- `switch (sample.info.instance_state) { … }`
pub change_state : InstanceState → InstanceTrack → M NoSample SubState (Unit {0})
change_state InstanceState.alive track = set_track (record track {
  seen_alive = true;
  reached_terminal = if track.sensor_id ==ℤ pos 3 then true else track.reached_terminal;
})
change_state InstanceState.not_alive_disposed track = do
  check (track.sensor_id ==ℤ pos 1) "FAIL: unexpected NOT_ALIVE_DISPOSED for sensor_id=%d\n"
      (int track.sensor_id ∷ [])
  check track.seen_alive "FAIL: sensor_id=1 reached NOT_ALIVE_DISPOSED without ever being ALIVE\n"
      []
  set_track (record track { reached_terminal = true })
change_state InstanceState.not_alive_no_writers track = do
  check (track.sensor_id ==ℤ pos 2) "FAIL: unexpected NOT_ALIVE_NO_WRITERS for sensor_id=%d\n"
      (int track.sensor_id ∷ [])
  check track.seen_alive "FAIL: sensor_id=2 reached NOT_ALIVE_NO_WRITERS without ever being ALIVE\n"
      []
  set_track (record track { reached_terminal = true })
change_state (InstanceState.unknown_state n) track =
    fail "FAIL: unknown instance_state=%u for sensor_id=%d\n" (num n ∷ int track.sensor_id ∷ [])

module _ (env : Env NoSample (List (Taken SensorReading))) where
  -- The round trip of lookup_instance(), once all instances are done.
  pub look_up : M NoSample SubState Bool
  look_up = do
    c_track ← track_for (pos 3)
    looked_up ← query env (lookup_instance (pos 3))
    check (not (looked_up == 0 || not (looked_up == c_track.handle)))
        "FAIL: lookup_instance() round-trip mismatch for sensor_id=3\n" []
    printf "Subscriber: lookup_instance round-trip OK for sensor_id=3\n" []
    return true

  pub confirm : Bool → M NoSample SubState Bool
  confirm became_done = do
    st ← get
    if all_instances_done st.tracks && not st.all_done && not became_done
        then look_up
        else return became_done

  -- One round of the loop that does not end it. The result is became_done.
  pub observe : SampleInfo → SensorReading → Bool → M NoSample SubState Bool
  observe info v became_done = do
    track ← track_for v.sensor_id
    printf "Subscriber: sensor_id=%d instance_state=%s\n"
        (int v.sensor_id ∷ text (state_name info.instance_state) ∷ [])
    set_track (record track { handle = info.instance_handle })
    change_state info.instance_state (record track { handle = info.instance_handle })
    confirm became_done

  pub take_loop : List (Taken SensorReading) → Bool → M NoSample SubState Bool
  take_loop [] became_done = return became_done
  take_loop (take_error rc ∷ rest) became_done =
      fail "FAIL: take() CDR error (rc=%d)\n" (num rc ∷ [])
  take_loop (sample info v ∷ rest) became_done = do
    became_done' ← observe info v became_done
    take_loop rest became_done'

  pub on_data_available : List (Taken SensorReading) → M NoSample SubState (Unit {0})
  on_data_available ts = do
    became_done ← take_loop ts false
    when became_done (modify λ st. record st { all_done = true })

abbrev pub reader_qos : ReaderQos → ReaderQos
reader_qos default = record default {
  reliability = ReliabilityKind.reliable;
  history = HistoryKind.keep_all;
}

module _ (env : Env NoSample (List (Taken SensorReading))) where
  pub body : List Text → M NoSample SubState (Unit {0})
  body argv = do
    bring_up env (parse_domain argv) (codes "SensorReading")
    must_create env (create_subscriber env.defaults.group) "FAIL: create_subscriber() failed\n" []
    must_create env (create_datareader (codes "SensorReading") (reader_qos env.defaults.reader))
        "FAIL: create_datareader() failed\n" []
    printf "Create reader for topic: SensorReading\n" []
    must_return env set_listener "FAIL: set_listener() failed\n" []
    printf "Subscriber: waiting for all three instance lifecycles...\n" []
    wait_until env (on_data_available env) (λ st. st.all_done) 30000 20
        "FAIL: did not observe all three instance lifecycles within %ds\n" (λ _. num 30 ∷ [])
    rc ← invoke env delete_datareader
    printf "Subscriber: all three instance lifecycles observed correctly.\n" []

  pub main : List Text → M NoSample SubState (Unit {0})
  main argv = do body argv; exit 0
