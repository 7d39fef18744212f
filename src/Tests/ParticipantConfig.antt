-- ===== src/Tests/ParticipantConfig.antt =====
-- Runs of the participant-config applications.
use zzdds_examples.Base.{ℕ, true, List, [], ◌∷◌}
use zzdds_examples.Base.Text.{Text, codes}
use zzdds_examples.Base.Int.{pos}
use zzdds_examples.Dds.{InstanceState, Taken, sample}
use zzdds_examples.Runtime.Event.{samples}
use zzdds_examples.Runtime.Program.{Env}
use zzdds_examples.Runtime.Contract.{Holds, Ends}
use zzdds_examples.Apps.Common.{PubCallback, publication_matched, reliable_reader_ready}
use zzdds_examples.Apps.Common.Keeps.{Sent, UpTo}
use zzdds_examples.Apps.Common.Receiver.{reports}
use zzdds_examples.Apps.Common.Receiver.InOrder.{Counts, Received}
use zzdds_examples.Apps.ParticipantConfig.{ConfigPing}
use zzdds_examples.Apps.ParticipantConfig.Publisher as Publisher
use zzdds_examples.Apps.ParticipantConfig.Publisher.Contract as Sending
use zzdds_examples.Apps.ParticipantConfig.Subscriber as Subscriber
use zzdds_examples.Apps.ParticipantConfig.Subscriber.Contract as Receiving
use zzdds_examples.Tests.Worlds.{willing}

abbrev one_reader : Env ConfigPing PubCallback
one_reader =
    willing (λ log. publication_matched 1 ∷ reliable_reader_ready true ∷ publication_matched 0 ∷ [])

abbrev on_domain_7 : List Text
on_domain_7 = codes "--config" ∷ codes "zzdds.toml" ∷ codes "-d" ∷ codes "7" ∷ []

config_publisher-Ends_example :
    Holds
      (λ _ _. ⊥)
      (Ends samples (Sent Publisher.sample 3) (UpTo Publisher.sample 3))
      (Publisher.main one_reader on_domain_7 Sending.start)
config_publisher-Ends_example = Sending.config_publisher-Ends one_reader on_domain_7

abbrev ping : ℕ → Taken ConfigPing
ping n =
    sample record { valid_data = true; instance_state = InstanceState.alive; instance_handle = 1 }
      record { count = pos n }

abbrev pings : List (Taken ConfigPing)
pings = ping 0 ∷ ping 1 ∷ ping 2 ∷ []

config_subscriber-Ends_example :
    Holds
      (λ _ _. ⊥)
      (Ends reports (Received 3) Counts)
      (Subscriber.main (willing (λ log. pings ∷ [])) [] Receiving.start)
config_subscriber-Ends_example = Receiving.config_subscriber-Ends (willing (λ log. pings ∷ [])) []
