-- ===== src/Runtime/Event.antt =====
-- What a program does that its environment can see. `S` is the type of the samples it writes.
use Prim.Native.String.{String}
use zzdds_examples.Base.{ℕ, ◌+◌, ◌≤◌, ◌≡◌, refl, List, [], ◌∷◌, ◌++◌}
use zzdds_examples.Base.Text.{Text}
use zzdds_examples.Base.Int.{ℤ}
use zzdds_examples.Dds.{ParticipantConfig, Duration, WriterQos, ReaderQos, GroupQos}

-- The arguments of a printf call.
pub data Arg : Type 0 where
  num : ℕ → Arg
  int : ℤ → Arg
  text : Text → Arg

-- The calls of the DDS library. A number names one of several writers or readers.
pub data Call (S : Type 0) : Type 0 where
  create_factory register_type : Call S
  create_participant : ℕ → Call S
  create_topic : Text → Text → Call S
  create_contentfilteredtopic : Text → Text → Call S
  lookup_topicdescription : Text → Call S
  create_publisher create_subscriber : GroupQos → Call S
  create_datawriter : Text → WriterQos → Call S
  create_datareader : Text → ReaderQos → Call S
  get_default_datawriter_qos get_default_datareader_qos : Call S
  set_listener get_publication_matched_status : Call S
  write dispose unregister_instance register_instance : ℕ → S → Call S
  write_w_timestamp : ℕ → S → Duration → Call S
  wait_for_acknowledgments take read_n : ℕ → Call S
  assert_liveliness : Call S
  wait_for_historical_data : Duration → Call S
  lookup_instance : ℤ → Call S
  get_key_value : ℕ → Call S
  begin_coherent_changes end_coherent_changes begin_access end_access : Call S
  delete_datareader delete_datawriter delete_contentfilteredtopic : Call S
  configure_from_file : Text → Call S
  get_discovered_topics get_matched_subscriptions get_matched_publications : Call S
  get_discovered_topic_data get_matched_subscription_data get_matched_publication_data : ℕ → Call S
  set_default_participant_config : ParticipantConfig → Call S
  get_default_participant_config : Call S
  create_participant_ex : ℕ → ParticipantConfig → Call S
  random clock : Call S
  create_waitset set_enabled_statuses create_readcondition create_guardcondition : Call S
  create_querycondition : Text → Text → Call S
  attach_condition detach_condition : ℕ → Call S
  delete_readcondition : ℕ → Call S
  get_conditions wait get_subscription_matched_status take_w_condition take_n : Call S

-- A line on stdout, a line on stderr, a call, and usleep with its microseconds.
pub data Event (S : Type 0) : Type 0 where
  printed failed : String → List Arg → Event S
  called : Call S → Event S
  slept : ℕ → Event S

-- The newest event stands first.
abbrev pub Log : Type 0 → Type 0
Log S = List (Event S)

-- The samples that an event hands to a writer.
abbrev pub sample_of : {S : Type 0} → Event S → List S
sample_of (called (write k s)) = s ∷ []
sample_of (called (write_w_timestamp k s time)) = s ∷ []
sample_of e = []

-- Which events count for a contract. A line on stderr and a nap of up to 20 ms, as in the polling
-- loops, do not.
pub record Observer (S X : Type 0) : Type 0 where
  pub see : Event S → List X
  pub blind : (s : String) (args : List Arg) → see (failed s args) ≡ []
  pub asleep : (us : ℕ) → us ≤ 20000 → see (slept us) ≡ []

-- What an observer has seen, oldest first.
unfoldable pub observed : {S X : Type 0} → Observer S X → Log S → List X
observed seen [] = []
observed seen (e ∷ log) = observed seen log ++ seen.see e

-- The samples that are handed to a writer.
abbrev pub samples : {S : Type 0} → Observer S S
samples = record { see = sample_of; blind = λ s args. refl; asleep = λ us short. refl }

abbrev pub written : {S : Type 0} → Log S → List S
written = observed samples

abbrev pub failure_of : {S : Type 0} → Event S → ℕ
failure_of (failed s args) = 1
failure_of e = 0

-- The number of lines on stderr.
unfoldable pub failures : {S : Type 0} → Log S → ℕ
failures [] = 0
failures (e ∷ log) = failures log + failure_of e

abbrev pub nap_of : {S : Type 0} → Event S → ℕ
nap_of (slept us) = us
nap_of e = 0

-- The microseconds that the program has slept.
unfoldable pub nap : {S : Type 0} → Log S → ℕ
nap [] = 0
nap (e ∷ log) = nap log + nap_of e
