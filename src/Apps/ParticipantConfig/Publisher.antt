-- ===== src/Apps/ParticipantConfig/Publisher.antt =====
-- cpp/participant-config/src/publisher.cpp/src/publisher.cpp
pub mod Contract
use zzdds_examples.Base.{ℕ, List, [], ◌∷◌}
use zzdds_examples.Base.Text.{Text, codes}
use zzdds_examples.Base.Int.{pos}
use zzdds_examples.Apps.ParticipantConfig.{ConfigPing, config_ping, parse_options, set_up}
use zzdds_examples.Dds.{WriterQos, ReliabilityKind, HistoryKind}
use zzdds_examples.Runtime.Event.{num, create_publisher, create_datawriter, set_listener}
use zzdds_examples.Runtime.Program.{
  World, M, Env, ◌>>=◌, ◌>>◌, exit, printf, must_create, must_return,
}
use zzdds_examples.Runtime.Wait.{wait_until}
use zzdds_examples.Apps.Common.{
  PubState, fresh_pub_state, PubCallback, pub_listener, drained, write_loop,
}

abbrev pub sample : ℕ → ConfigPing
sample i = record { count = pos i }

abbrev writer_qos : WriterQos → WriterQos
writer_qos default = record default {
  reliability = ReliabilityKind.reliable;
  history = HistoryKind.keep_all;
}

module _ (env : Env ConfigPing PubCallback) where
  body : List Text → M ConfigPing PubState (Unit {0})
  body argv = do
    set_up env (parse_options argv)
    must_create env (create_publisher env.defaults.group) "FAIL: create_publisher() failed\n" []
    must_create env (create_datawriter (config_ping) (writer_qos env.defaults.writer))
        "FAIL: create_datawriter() failed\n" []
    printf "Create writer for topic: ConfigPing\n" []
    must_return env set_listener "FAIL: set_listener_ex failed\n" []
    wait_until env pub_listener (λ st. st.reader_ready) 10000 20
        "FAIL: no reliable reader became ready within %ds\n" (λ _. num 10 ∷ [])
    write_loop env sample "Publisher: wrote count=%d\n" "FAIL: write() failed at count=%d\n" 0 3
    wait_until env pub_listener drained 15000 20 "FAIL: subscriber did not disconnect within %ds\n"
        (λ _. num 15 ∷ [])
    printf "Publisher: done.\n" []

  pub main : List Text → M ConfigPing PubState (Unit {0})
  main argv = do body argv; exit 0
