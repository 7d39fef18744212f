-- ===== src/Tests/HelloSubscriber.antt =====
-- Runs of the hello_world subscriber.
use zzdds_examples.Base.{ℕ, refl, true, List, [], ◌∷◌}
use zzdds_examples.Base.Text.{codes}
use zzdds_examples.Base.Int.{pos}
use zzdds_examples.Dds.{InstanceState, SampleInfo, Taken, sample}
use zzdds_examples.Runtime.Event.{Arg, Log, text, called, printed, create_datareader}
use zzdds_examples.Runtime.Contract.{Holds, Ends, Does, At, Failed}
use zzdds_examples.Apps.Common.Receiver.{NoSample, reports, on_data_available}
use zzdds_examples.Apps.Common.Receiver.InOrder.{InOrder, Counts, Received, on_data_available-At}
use zzdds_examples.Apps.HelloWorld.{HelloWorld}
use zzdds_examples.Apps.HelloWorld.Subscriber.{main}
use zzdds_examples.Apps.HelloWorld.Subscriber.Contract.{start, hello_subscriber-Ends}
use zzdds_examples.Tests.Worlds.{willing}

abbrev alive : SampleInfo
alive = record { valid_data = true; instance_state = InstanceState.alive; instance_handle = 1 }

abbrev hello : ℕ → Taken HelloWorld
hello n = sample alive record { count = pos n; message = codes "Hello world!" }

abbrev hellos : List (Taken HelloWorld)
hellos = hello 0 ∷ hello 1 ∷ hello 2 ∷ []

abbrev args : HelloWorld → List Arg
args v = text v.message ∷ []

on_data_available_example :
    Does
      (At reports (InOrder 3))
      (on_data_available 3 (λ (v : HelloWorld). v.count) "received %d %s" args hellos)
      (λ _. At reports (InOrder 3))
      (Failed reports Counts)
on_data_available_example =
    on_data_available-At 3 (λ (v : HelloWorld). v.count) "received %d %s" args hellos

-- Callbacks come after calls and naps only.
abbrev after_setup : Log NoSample → List (List (Taken HelloWorld))
after_setup (called (create_datareader type_name qos) ∷ log) = []
after_setup (printed s args' ∷ log) = []
after_setup log = hellos ∷ []

hello_subscriber-Ends_example :
    Holds (λ _ _. ⊥) (Ends reports (Received 10) Counts) (main (willing after_setup) [] start)
hello_subscriber-Ends_example =
    hello_subscriber-Ends (willing after_setup) [] (λ type_name qos log. refl) (λ log. refl)
