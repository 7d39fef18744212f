-- ===== src/Apps/HelloWorld/Subscriber.antt =====
-- cpp/hello_world/src/subscriber.cpp. Its listener is `on_data_available` of Apps/Common/Receiver.
pub mod Contract
use zzdds_examples.Base.{ℕ, List, [], ◌∷◌}
use zzdds_examples.Base.Text.{Text, codes}
use zzdds_examples.Apps.HelloWorld.{HelloWorld}
use zzdds_examples.Dds.{ReaderQos, ReliabilityKind, HistoryKind, Taken}
use zzdds_examples.Runtime.Event.{
  Arg, num, text, create_subscriber, create_datareader, delete_datareader,
}
use zzdds_examples.Runtime.Program.{
  M, Env, ◌>>=◌, ◌>>◌, return, exit, null_pointer, printf, invoke, must_create,
}
use zzdds_examples.Runtime.Wait.{wait_until}
use zzdds_examples.Apps.Common.{parse_domain, bring_up}
use zzdds_examples.Apps.Common.Receiver.{SubState, NoSample, on_data_available}

abbrev reader_qos : ReaderQos → ReaderQos
reader_qos default = record default {
  reliability = ReliabilityKind.reliable;
  history = HistoryKind.keep_all;
}

-- `SubListener::on_data_available`
abbrev listener : List (Taken HelloWorld) → M NoSample SubState (Unit {0})
listener =
    on_data_available 10 (λ (v : HelloWorld). v.count)
      "Subscriber: received count=%d message=\"%s\"\n" (λ v. text v.message ∷ [])

abbrev timed_out : SubState → List Arg
timed_out st = num st.expected_next ∷ num 10 ∷ num 30 ∷ []

-- The callbacks that come while `state.reader` is still null: the first take() reads through it, which
-- the program does not survive.
unfoldable pub without_reader : List (List (Taken HelloWorld)) → M NoSample SubState (Unit {0})
without_reader [] = return tt
without_reader (ts ∷ callbacks) = null_pointer

module _ (env : Env NoSample (List (Taken HelloWorld))) where
  unfoldable pub early_callbacks : M NoSample SubState (Unit {0})
  early_callbacks w = without_reader (env.arrivals w.log) w

  body : List Text → M NoSample SubState (Unit {0})
  body argv = do
    bring_up env (parse_domain argv) (codes "HelloWorld")
    must_create env (create_subscriber env.defaults.group) "FAIL: create_subscriber() failed\n" []
    must_create env (create_datareader (codes "HelloWorld") (reader_qos env.defaults.reader))
        "FAIL: create_datareader() failed\n" []
    early_callbacks
    printf "Create reader for topic: HelloWorld\n" []
    early_callbacks
    printf "Subscriber: waiting for %d samples...\n" (num 10 ∷ [])
    wait_until env listener (λ st. st.all_received) 30000 20
        "FAIL: only received %d/%d samples within %ds\n" timed_out
    rc ← invoke env delete_datareader
    printf "Subscriber: received all %d samples in order.\n" (num 10 ∷ [])

  pub main : List Text → M NoSample SubState (Unit {0})
  main argv = do body argv; exit 0
