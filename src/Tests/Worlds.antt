-- ===== src/Tests/Worlds.antt =====
-- Environments to run the models in.
use zzdds_examples.Base.{true, false, List, [], ◌∷◌}
use zzdds_examples.Base.Text.{codes}
use zzdds_examples.Base.Int.{pos}
use zzdds_examples.Dds.{
  ReturnCode, Defaults, Duration, ReliabilityKind, DurabilityKind, HistoryKind, OwnershipKind,
  LivelinessKind, AccessScope,
}
use zzdds_examples.Runtime.Event.{Log}
use zzdds_examples.Runtime.Program.{Env}

abbrev infinite : Duration
infinite = record { sec = pos 2147483647; nanosec = 2147483647 }

abbrev zero_duration : Duration
zero_duration = record { sec = pos 0; nanosec = 0 }

-- The default QoS values of the DDS specification.
abbrev pub defaults : Defaults
defaults = record {
  group = record {
    access_scope = AccessScope.instance_scope;
    coherent_access = false;
    ordered_access = false;
    partition = [];
  };
  writer = record {
    reliability = ReliabilityKind.reliable;
    durability = DurabilityKind.volatile;
    history = HistoryKind.keep_last;
    depth = pos 1;
    deadline = infinite;
    lifespan = infinite;
    ownership = OwnershipKind.shared;
    ownership_strength = pos 0;
    representation = [];
    liveliness = LivelinessKind.automatic;
    lease = infinite;
  };
  reader = record {
    reliability = ReliabilityKind.best_effort;
    durability = DurabilityKind.volatile;
    history = HistoryKind.keep_last;
    depth = pos 1;
    deadline = infinite;
    ownership = OwnershipKind.shared;
    minimum_separation = zero_duration;
    representation = [];
    liveliness = LivelinessKind.automatic;
    lease = infinite;
  };
  config = record { name = []; fragment_size = 0; announcement_period_ms = 0 };
}

-- Every call works, and `arrivals` tells what comes in.
abbrev pub willing : {S B : Type 0} → (Log S → List B) → Env S B
willing arrivals = record {
  defaults = defaults;
  creates = λ log c. true;
  returns = λ log c. ReturnCode.ok;
  number = λ log c. 1;
  handles = λ log c. 5 ∷ [];
  key_of = λ log c. pos 1;
  topic_data =
      λ log c. record { topic_name = codes "DiscoveryPing"; type_name = codes "DiscoveryPing" };
  participant_config = λ log c. record {
    name = codes "participant-config-example";
    fragment_size = 9000;
    announcement_period_ms = 0;
  };
  arrivals = arrivals;
  interrupted = λ log. false;
}
