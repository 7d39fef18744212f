-- ===== src/Tests/Registry.antt =====
-- Runs of the registry publisher and subscriber.
use zzdds_examples.Base.{true, List, [], ◌∷◌}
use zzdds_examples.Dds.{InstanceState, Taken, sample}
use zzdds_examples.Runtime.Program.{Env}
use zzdds_examples.Runtime.Contract.{Holds, Ends}
use zzdds_examples.Apps.Common.{PubCallback, publication_matched, reliable_reader_ready}
use zzdds_examples.Apps.Common.Receiver.{NoSample}
use zzdds_examples.Apps.Common.Script.{PartOf, Followed}
use zzdds_examples.Apps.Registry.{SensorReading}
use zzdds_examples.Apps.Registry.Publisher.{reading}
use zzdds_examples.Apps.Registry.Publisher
use zzdds_examples.Apps.Registry.Publisher.Contract.{deeds, lifecycles, registry_publisher-Ends}
use zzdds_examples.Apps.Registry.Publisher.Contract
use zzdds_examples.Apps.Registry.Subscriber.{main}
use zzdds_examples.Apps.Registry.Subscriber.Lines.{lines, Observed, Known, start}
use zzdds_examples.Apps.Registry.Subscriber.Contract.{registry_subscriber-Ends}
use zzdds_examples.Tests.Worlds.{willing}

abbrev one_reader : Env SensorReading PubCallback
one_reader =
    willing (λ log. publication_matched 1 ∷ reliable_reader_ready true ∷ publication_matched 0 ∷ [])

registry_publisher-Ends_example :
    Holds
      (λ _ _. ⊥)
      (Ends deeds (Followed deeds lifecycles) (PartOf lifecycles))
      (Publisher.main one_reader [] Publisher.Contract.start)
registry_publisher-Ends_example = registry_publisher-Ends one_reader []

abbrev seen : InstanceState → SensorReading → Taken SensorReading
seen state r = sample (record { valid_data = true; instance_state = state; instance_handle = 1 }) r

-- The three lifecycles, where the look-up answers with the handle 1.
abbrev three_sensors : List (Taken SensorReading)
three_sensors =
    seen InstanceState.alive (reading 1 100)
    ∷ seen InstanceState.not_alive_disposed (reading 1 0)
    ∷ seen InstanceState.alive (reading 2 200)
    ∷ seen InstanceState.not_alive_no_writers (reading 2 0)
    ∷ seen InstanceState.alive (reading 3 300)
    ∷ []

abbrev one_writer : Env NoSample (List (Taken SensorReading))
one_writer = willing (λ log. three_sensors ∷ [])

registry_subscriber-Ends_example :
    Holds (λ _ _. ⊥) (Ends lines Observed Known) (main one_writer [] start)
registry_subscriber-Ends_example = registry_subscriber-Ends one_writer []
