-- ===== src/Dds.antt =====
-- The types of the DDS C++ binding that the sources name: return codes, QoS policies, instance
-- states. The binding is generated code outside the repository, so a QoS record has the members
-- that the sources read or assign and no others, and its default value is always a parameter.
use zzdds_examples.Base.{ℕ, Bool, List}
use zzdds_examples.Base.Text.{Text}
use zzdds_examples.Base.Int.{ℤ}

-- DDS::ReturnCode_t, as far as the sources tell its values apart.
pub data ReturnCode : Type 0 where
  ok timeout no_data : ReturnCode
  other : ℕ → ReturnCode

-- `rc == RETCODE_OK`
abbrev pub is_ok : ReturnCode → Bool
is_ok ReturnCode.ok = Bool.true
is_ok ReturnCode.timeout = Bool.false
is_ok ReturnCode.no_data = Bool.false
is_ok (ReturnCode.other n) = Bool.false

-- The number that a line on stderr shows.
abbrev pub rc_number : ReturnCode → ℕ
rc_number ReturnCode.ok = 0
rc_number ReturnCode.timeout = 10
rc_number ReturnCode.no_data = 11
rc_number (ReturnCode.other n) = n

pub data ReliabilityKind : Type 0 where
  best_effort reliable : ReliabilityKind

pub data DurabilityKind : Type 0 where
  volatile transient_local transient persistent : DurabilityKind

pub data HistoryKind : Type 0 where
  keep_last keep_all : HistoryKind

pub data OwnershipKind : Type 0 where
  shared exclusive : OwnershipKind

pub data LivelinessKind : Type 0 where
  automatic manual_by_participant manual_by_topic : LivelinessKind

pub data AccessScope : Type 0 where
  instance_scope topic_scope group_scope : AccessScope

pub data Representation : Type 0 where
  xcdr xcdr2 : Representation

-- Duration_t and Time_t: int32_t seconds and uint32_t nanoseconds.
pub record Duration : Type 0 where
  pub sec : ℤ
  pub nanosec : ℕ

pub record WriterQos : Type 0 where
  pub reliability : ReliabilityKind
  pub durability : DurabilityKind
  pub history : HistoryKind
  pub depth : ℤ
  pub deadline : Duration
  pub lifespan : Duration
  pub ownership : OwnershipKind
  pub ownership_strength : ℤ
  pub representation : List Representation
  pub liveliness : LivelinessKind
  pub lease : Duration

pub record ReaderQos : Type 0 where
  pub reliability : ReliabilityKind
  pub durability : DurabilityKind
  pub history : HistoryKind
  pub depth : ℤ
  pub deadline : Duration
  pub ownership : OwnershipKind
  pub minimum_separation : Duration
  pub representation : List Representation
  pub liveliness : LivelinessKind
  pub lease : Duration

-- PublisherQos and SubscriberQos.
pub record GroupQos : Type 0 where
  pub access_scope : AccessScope
  pub coherent_access : Bool
  pub ordered_access : Bool
  pub partition : List Text

-- zzdds::DomainParticipantConfig: participant.name and announcement_period_ms, rtps.fragment_size.
pub record ParticipantConfig : Type 0 where
  pub name : Text
  pub fragment_size : ℕ
  pub announcement_period_ms : ℕ

-- The default values of the binding.
pub record Defaults : Type 0 where
  pub group : GroupQos
  pub writer : WriterQos
  pub reader : ReaderQos
  pub config : ParticipantConfig

pub data InstanceState : Type 0 where
  alive not_alive_disposed not_alive_no_writers : InstanceState
  unknown_state : ℕ → InstanceState

-- The sample info members that the sources read.
pub record SampleInfo : Type 0 where
  pub valid_data : Bool
  pub instance_state : InstanceState
  pub instance_handle : ℕ

-- What one take() on a typed reader gives, where it is not RETCODE_NO_DATA.
pub data Taken (V : Type 0) : Type 0 where
  sample : SampleInfo → V → Taken V
  take_error : ℕ → Taken V

-- TopicBuiltinTopicData, SubscriptionBuiltinTopicData and PublicationBuiltinTopicData.
pub record TopicData : Type 0 where
  pub topic_name : Text
  pub type_name : Text
