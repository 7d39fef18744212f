-- ===== src/Tests/Presence.antt =====
-- Runs of the presence publisher and subscriber.
use zzdds_examples.Base.{◌≡◌, ◌↔◌, true, false, List, [], ◌∷◌, Bool}
use zzdds_examples.Base.Text.{codes}
use zzdds_examples.Base.Int.{pos}
use zzdds_examples.Base.Embeds.{Embeds}
use zzdds_examples.Runtime.Program.{Env}
use zzdds_examples.Runtime.Contract.{Holds, Ends}
use zzdds_examples.Apps.Common.{PubCallback, publication_matched, reliable_reader_ready}
use zzdds_examples.Apps.Common.Receiver.{NoSample}
use zzdds_examples.Apps.Common.Script.{PartOf, Followed}
use zzdds_examples.Apps.Presence.{PresenceBeacon}
use zzdds_examples.Apps.Presence.Publisher.Schedule.{beats, schedule}
use zzdds_examples.Apps.Presence.Publisher
use zzdds_examples.Apps.Presence.Publisher.Contract.{presence_publisher-Ends}
use zzdds_examples.Apps.Presence.Publisher.Contract
use zzdds_examples.Apps.Presence.Subscriber.{SubCallback, liveliness_changed, fresh_sub_state, main}
use zzdds_examples.Apps.Presence.Subscriber.Cycle.{advance_all, cycle_complete_iff}
use zzdds_examples.Apps.Presence.Subscriber.Contract.{
  statuses, Cycled, Anything, start, presence_subscriber-Ends,
}
use zzdds_examples.Tests.Worlds.{willing}

abbrev one_reader : Env PresenceBeacon PubCallback
one_reader =
    willing (λ log. publication_matched 1 ∷ reliable_reader_ready true ∷ publication_matched 0 ∷ [])

presence_publisher-Ends_example :
    Holds
      (λ _ _. ⊥)
      (Ends beats (Followed beats schedule) (PartOf schedule))
      (Publisher.main one_reader [] Publisher.Contract.start)
presence_publisher-Ends_example = presence_publisher-Ends one_reader []

-- Online twice, offline, and online again.
abbrev history : List Bool
history = true ∷ true ∷ false ∷ true ∷ []

cycle_complete_iff_example :
    ((advance_all history fresh_sub_state).cycle_complete ≡ true)
    ↔ Embeds (true ∷ false ∷ true ∷ []) history
cycle_complete_iff_example = cycle_complete_iff history

abbrev one_writer : Env NoSample SubCallback
one_writer = willing (λ log.
    liveliness_changed (pos 1) (pos 0)
    ∷ liveliness_changed (pos 0) (pos 1)
    ∷ liveliness_changed (pos 1) (pos 0)
    ∷ [])

presence_subscriber-Ends_example :
    Holds (λ _ _. ⊥) (Ends statuses Cycled Anything) (main one_writer (codes "-d" ∷ []) start)
presence_subscriber-Ends_example = presence_subscriber-Ends one_writer (codes "-d" ∷ [])
