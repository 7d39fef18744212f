-- ===== src/Apps/ParticipantConfig/Subscriber.antt =====
-- cpp/participant-config/src/subscriber.cpp. Its listener is `on_data_available` of Apps/Common/Receiver.
pub mod Contract
use zzdds_examples.Base.{ℕ, List, [], ◌∷◌}
use zzdds_examples.Base.Text.{Text, codes}
use zzdds_examples.Apps.ParticipantConfig.{ConfigPing, config_ping, parse_options, set_up}
use zzdds_examples.Dds.{ReaderQos, ReliabilityKind, HistoryKind, Taken}
use zzdds_examples.Runtime.Event.{
  Arg, num, text, create_subscriber, create_datareader, delete_datareader, set_listener,
}
use zzdds_examples.Runtime.Program.{
  M, Env, ◌>>=◌, ◌>>◌, return, exit, printf, invoke, must_create, must_return,
}
use zzdds_examples.Runtime.Wait.{wait_until}
use zzdds_examples.Apps.Common.{parse_domain, bring_up}
use zzdds_examples.Apps.Common.Receiver.{SubState, NoSample, on_data_available}

abbrev reader_qos : ReaderQos → ReaderQos
reader_qos default = record default {
  reliability = ReliabilityKind.reliable;
  history = HistoryKind.keep_all;
}

-- `SubListener::on_data_available`
abbrev listener : List (Taken ConfigPing) → M NoSample SubState (Unit {0})
listener =
    on_data_available 3 (λ (v : ConfigPing). v.count) "Subscriber: received count=%d\n" (λ v. [])

abbrev timed_out : SubState → List Arg
timed_out st = num st.expected_next ∷ num 3 ∷ num 30 ∷ []

module _ (env : Env NoSample (List (Taken ConfigPing))) where
  body : List Text → M NoSample SubState (Unit {0})
  body argv = do
    set_up env (parse_options argv)
    must_create env (create_subscriber env.defaults.group) "FAIL: create_subscriber() failed\n" []
    must_create env (create_datareader (config_ping) (reader_qos env.defaults.reader))
        "FAIL: create_datareader() failed\n" []
    printf "Create reader for topic: ConfigPing\n" []
    must_return env set_listener "FAIL: set_listener() failed\n" []
    printf "Subscriber: waiting for %d samples...\n" (num 3 ∷ [])
    wait_until env listener (λ st. st.all_received) 30000 20
        "FAIL: only received %d/%d samples within %ds\n" timed_out
    rc ← invoke env delete_datareader
    printf "Subscriber: received all %d samples in order.\n" (num 3 ∷ [])

  pub main : List Text → M NoSample SubState (Unit {0})
  main argv = do body argv; exit 0
