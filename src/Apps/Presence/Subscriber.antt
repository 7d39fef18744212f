-- ===== src/Apps/Presence/Subscriber.antt =====
-- cpp/presence/src/subscriber.cpp
pub mod Cycle
pub mod Contract
use Prim.Native.String.{String}
use zzdds_examples.Base.{ℕ, Bool, true, false, List, [], ◌∷◌, if◌then◌else◌, not}
use zzdds_examples.Base.Text.{Text, codes}
use zzdds_examples.Base.Int.{ℤ, pos, ltb_ℤ}
use zzdds_examples.Dds.{
  ReaderQos, ReliabilityKind, HistoryKind, LivelinessKind, Taken, sample, take_error,
}
use zzdds_examples.Runtime.Event.{
  Arg, num, int, create_subscriber, create_datareader, set_listener, delete_datareader,
}
use zzdds_examples.Runtime.Program.{
  M, Env, ◌>>=◌, ◌>>◌, return, exit, modify, fail, printf, invoke, must_create, must_return,
}
use zzdds_examples.Runtime.Wait.{wait_until}
use zzdds_examples.Apps.Common.{parse_domain, bring_up}
use zzdds_examples.Apps.Common.Receiver.{NoSample}
use zzdds_examples.Apps.Presence.{PresenceBeacon}

pub data Phase : Type 0 where
  waiting_first_online waiting_offline waiting_second_online done : Phase

-- `SubState`
pub record SubState : Type 0 where
  pub phase : Phase
  pub step : ℕ
  pub cycle_complete : Bool

abbrev pub fresh_sub_state : SubState
fresh_sub_state = record { phase = waiting_first_online; step = 0; cycle_complete = false }

-- What the library calls: with LivelinessChangedStatus, and with what the calls of take() give.
pub data SubCallback : Type 0 where
  liveliness_changed : (alive_count not_alive_count : ℤ) → SubCallback
  data_available : List (Taken PresenceBeacon) → SubCallback

-- `switch (state_->phase) { … }`
unfoldable pub advance : (online : Bool) → Phase → SubState → SubState
advance online waiting_first_online st =
    if online then record st { phase = waiting_offline; step = 1 } else st
advance online waiting_offline st =
    if not online then record st { phase = waiting_second_online; step = 2 } else st
advance online waiting_second_online st =
    if online then record { phase = done; step = 3; cycle_complete = true } else st
advance online done st = st

pub on_liveliness_changed : (alive_count not_alive_count : ℤ) → M NoSample SubState (Unit {0})
on_liveliness_changed alive_count not_alive_count = do
  let online = ltb_ℤ (pos 0) alive_count
  printf
      (if online
        then "ONLINE alive_count=%d not_alive_count=%d\n"
        else "OFFLINE alive_count=%d not_alive_count=%d\n")
      (int alive_count ∷ int not_alive_count ∷ [])
  modify λ st. advance online st.phase st

pub on_data_available : List (Taken PresenceBeacon) → M NoSample SubState (Unit {0})
on_data_available [] = return tt
on_data_available (take_error rc ∷ rest) = fail "FAIL: take() CDR error (rc=%d)\n" (num rc ∷ [])
on_data_available (sample info v ∷ rest) = do
  if not info.valid_data
      then return tt
      else printf "Subscriber: received sequence=%d\n" (int v.seq_num ∷ [])
  on_data_available rest

pub listener : SubCallback → M NoSample SubState (Unit {0})
listener (liveliness_changed alive_count not_alive_count) =
    on_liveliness_changed alive_count not_alive_count
listener (data_available ts) = on_data_available ts

abbrev pub reader_qos : ReaderQos → ReaderQos
reader_qos default = record default {
  reliability = ReliabilityKind.reliable;
  history = HistoryKind.keep_last;
  depth = pos 1;
  liveliness = LivelinessKind.manual_by_topic;
  lease = record { sec = pos 2; nanosec = 0 };
}

module _ (env : Env NoSample SubCallback) where
  pub body : List Text → M NoSample SubState (Unit {0})
  body argv = do
    bring_up env (parse_domain argv) (codes "PresenceBeacon")
    must_create env (create_subscriber env.defaults.group) "FAIL: create_subscriber() failed\n" []
    must_create env (create_datareader (codes "PresenceBeacon") (reader_qos env.defaults.reader))
        "FAIL: create_datareader() failed\n" []
    printf "Create reader for topic: PresenceBeacon\n" []
    must_return env set_listener "FAIL: set_listener() failed\n" []
    printf "Subscriber: waiting for online -> offline -> online cycle...\n" []
    wait_until env listener (λ st. st.cycle_complete) 30000 20
        "FAIL: did not observe the full cycle within %ds (stuck at step=%d)\n"
        (λ st. num 30 ∷ num st.step ∷ [])
    rc ← invoke env delete_datareader
    printf "Subscriber: observed full online -> offline -> online cycle.\n" []

  pub main : List Text → M NoSample SubState (Unit {0})
  main argv = do body argv; exit 0
