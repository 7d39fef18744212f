-- ===== src/Tests/Waitset.antt =====
-- Runs of the waitset publisher and subscriber.
use zzdds_examples.Base.{ℕ, ◌≤◌, ◌≡◌, refl, true, leb, List, [], ◌∷◌, if◌then◌else◌, arith}
use zzdds_examples.Base.Text.{codes}
use zzdds_examples.Base.Int.{pos}
use zzdds_examples.Dds.{SampleInfo, InstanceState}
use zzdds_examples.Runtime.Event.{Log, observed}
use zzdds_examples.Runtime.Program.{Env}
use zzdds_examples.Runtime.Contract.{Holds, Ends}
use zzdds_examples.Apps.Common.Receiver.{NoSample}
use zzdds_examples.Apps.Waitset.{
  WaitsetSample, Condition, status_condition, read_condition, query_condition, guard_condition,
  condition_active,
}
use zzdds_examples.Apps.Waitset.Subscriber.{Answers, main}
use zzdds_examples.Apps.Waitset.Subscriber.Sights.{sights, start, wait_count, Received, TooFew}
use zzdds_examples.Apps.Waitset.Subscriber.Contract.{waitset_subscriber-Ends}
use zzdds_examples.Apps.Waitset.Publisher
use zzdds_examples.Apps.Waitset.Publisher.Tale
use zzdds_examples.Apps.Waitset.Publisher.Contract.{waitset_publisher-Ends}
use zzdds_examples.Tests.Worlds.{willing}

-- Every round takes two samples of high and three of low priority.
abbrev arrived : ℕ → SampleInfo × WaitsetSample
arrived n = (
  record { valid_data = true; instance_state = InstanceState.alive; instance_handle = 1 },
  record { count = pos n; priority = pos n; message = codes "m" },
)

-- The watchdog fires after three waits.
abbrev active_after : ℕ → List Condition
active_after waits =
    if leb 3 waits then guard_condition ∷ [] else read_condition ∷ status_condition ∷ []

abbrev five_a_round : Answers
five_a_round = record {
  attached = λ log. status_condition ∷ read_condition ∷ query_condition ∷ guard_condition ∷ [];
  active = λ log. active_after (wait_count (observed sights log));
  high = λ log. arrived 8 ∷ arrived 9 ∷ [];
  low = λ log. arrived 1 ∷ arrived 2 ∷ arrived 3 ∷ [];
}

abbrev one_writer : Env NoSample NoSample
one_writer = willing (λ log. [])

le_true : (waits : ℕ) → 3 ≤ waits → leb 3 waits ≡ true
le_true waits late = ground arith

fires_in_time :
    (waits : ℕ) → 3 ≤ waits → condition_active (active_after waits) guard_condition ≡ true
unfolding condition_active
fires_in_time waits late = let e = le_true waits late in rw e refl

waitset_subscriber-Ends_example :
    Holds (λ _ _. ⊥) (Ends sights Received TooFew) (main one_writer five_a_round [] 4 start)
waitset_subscriber-Ends_example =
    waitset_subscriber-Ends one_writer five_a_round [] 3
      λ log late. (refl, fires_in_time (wait_count (observed sights log)) late)

-- A reader that is there at the first wait and is gone with the second.
abbrev one_reader : Env WaitsetSample NoSample
one_reader = record (willing (λ log. [])) {
  number = λ log c.
      if leb 2 (Publisher.Tale.wait_count (observed Publisher.Tale.steps log)) then 0 else 1;
}

abbrev listed : Log WaitsetSample → List Condition
listed log = active_after (Publisher.Tale.wait_count (observed Publisher.Tale.steps log))

waitset_publisher-Ends_example :
    Holds
      (λ _ _. ⊥)
      (Ends Publisher.Tale.steps Publisher.Tale.Whole Publisher.Tale.FirstPart)
      (Publisher.main one_reader listed [] 4 Publisher.Tale.start)
waitset_publisher-Ends_example = waitset_publisher-Ends one_reader listed [] 3 λ log late.
    (refl, fires_in_time (Publisher.Tale.wait_count (observed Publisher.Tale.steps log)) late)
