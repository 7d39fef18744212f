-- ===== src/Tests/Catchup.antt =====
-- Runs of the catchup publisher and subscriber.
use zzdds_examples.Base.{true, List, [], ◌∷◌, ℕ, map}
use zzdds_examples.Dds.{InstanceState, Taken, sample}
use zzdds_examples.Runtime.Event.{samples}
use zzdds_examples.Runtime.Program.{Env}
use zzdds_examples.Runtime.Contract.{Holds, Ends}
use zzdds_examples.Apps.Common.Keeps.{UpTo}
use zzdds_examples.Apps.Common.Receiver.{NoSample}
use zzdds_examples.Apps.Catchup.{HistoryEvent}
use zzdds_examples.Apps.Catchup.Publisher.{event}
use zzdds_examples.Apps.Catchup.Publisher
use zzdds_examples.Apps.Catchup.Publisher.Contract.{catchup_publisher-Ends}
use zzdds_examples.Apps.Catchup.Publisher.Contract
use zzdds_examples.Apps.Catchup.Subscriber.{main}
use zzdds_examples.Apps.Catchup.Subscriber.Flags.{count_from}
use zzdds_examples.Apps.Catchup.Subscriber.Progress.{live, CaughtUp, IsLive, start}
use zzdds_examples.Apps.Catchup.Subscriber.Contract.{Delivered, catchup_subscriber-Ends}
use zzdds_examples.Base.{All}
use zzdds_examples.Tests.Worlds.{willing}

-- A reader that comes and goes.
abbrev one_reader : Env HistoryEvent ℕ
one_reader = willing (λ log. 1 ∷ 0 ∷ [])

catchup_publisher-Ends_example :
    Holds
      (λ _ _. ⊥)
      (Ends samples Publisher.Contract.CaughtUp (UpTo event 15))
      (Publisher.main one_reader [] Publisher.Contract.start)
catchup_publisher-Ends_example = catchup_publisher-Ends one_reader []

abbrev arrived : ℕ → Taken HistoryEvent
arrived n =
    sample (record { valid_data = true; instance_state = InstanceState.alive; instance_handle = 1 })
      (event n)

abbrev one_writer : Env NoSample (List (Taken HistoryEvent))
one_writer = willing (λ log. map arrived (count_from 0 15) ∷ [])

catchup_subscriber-Ends_example :
    Holds
      (λ _ _. ⊥)
      (Ends live (CaughtUp (Delivered one_writer)) (All IsLive))
      (main one_writer [] start)
catchup_subscriber-Ends_example = catchup_subscriber-Ends one_writer []
