-- ===== src/Shape/Qos.antt =====
-- The QoS builders of cpp/shape/src/shape_main.cpp.
pub mod Match
use zzdds_examples.Base.{
  ℕ, ◌*◌, ◌/◌, ◌%◌, ◌&&◌, ltb, ◌==◌, Bool, true, false, not, Option, none, some, List, [], ◌∷◌,
  if◌then◌else◌,
}
use zzdds_examples.Base.Text.{Text, codes}
use zzdds_examples.Base.Int.{ℤ, pos, negsuc, ltb_ℤ, is_negative, ◌==ℤ◌, to_i32, to_u32}
use zzdds_examples.Dds.{
  ReliabilityKind, DurabilityKind, HistoryKind, OwnershipKind, AccessScope, Representation,
  Duration, WriterQos, ReaderQos, GroupQos,
}
use zzdds_examples.Runtime.Event.{get_default_datawriter_qos, get_default_datareader_qos}
use zzdds_examples.Runtime.Program.{M, Env, ◌>>=◌, ◌>>◌, return, must_return}
use zzdds_examples.Shape.Options.{Options}

pub policy_name : ℕ → Text
policy_name id =
    if id == 2
    then codes "DURABILITY"
    else if id == 4
    then codes "DEADLINE"
    else if id == 5
    then codes "LATENCYBUDGET"
    else if id == 6
    then codes "OWNERSHIP"
    else if id == 8
    then codes "LIVELINESS"
    else if id == 10
    then codes "PARTITION"
    else if id == 11
    then codes "RELIABILITY"
    else if id == 12
    then codes "DESTINATIONORDER"
    else if id == 23
    then codes "DATAREPRESENTATION"
    else codes "UNKNOWN"

-- `-r` wins over `-b`.
pub reliability_kind : Options → ReliabilityKind
reliability_kind opts =
    if opts.best_effort && not opts.reliable
    then ReliabilityKind.best_effort
    else ReliabilityKind.reliable

pub durability_kind : ℕ → DurabilityKind
durability_kind d =
    if d == b'l'
    then DurabilityKind.transient_local
    else if d == b't'
    then DurabilityKind.transient
    else if d == b'p'
    then DurabilityKind.persistent
    else DurabilityKind.volatile

pub access_scope_kind : ℕ → AccessScope
access_scope_kind c =
    if c == b't'
    then AccessScope.topic_scope
    else if c == b'g'
    then AccessScope.group_scope
    else AccessScope.instance_scope

pub set_representation : ℕ → List Representation
set_representation data_representation =
    (if data_representation == 2 then Representation.xcdr2 else Representation.xcdr) ∷ []

-- `static_cast<int32_t>(ms / 1000)`, `static_cast<uint32_t>((ms % 1000) * 1000000)`; `ms` is a uint64_t.
pub duration_from_ms : ℕ → Duration
duration_from_ms ms = record {
  sec = to_i32 (pos (ms / 1000));
  nanosec = to_u32 (ms % 1000 * 1000000);
}

-- An option of 0 leaves the default as it is.
period_or : Duration → ℕ → Duration
period_or default ms = if ltb 0 ms then duration_from_ms ms else default

history_or : HistoryKind → ℤ → HistoryKind
history_or default depth =
    if depth ==ℤ pos 0
    then HistoryKind.keep_all
    else if ltb_ℤ (pos 0) depth
    then HistoryKind.keep_last
    else default

depth_or : ℤ → ℤ → ℤ
depth_or default depth = if ltb_ℤ (pos 0) depth then depth else default

ownership_or : OwnershipKind → ℤ → OwnershipKind
ownership_or default strength = if is_negative strength then default else OwnershipKind.exclusive

strength_or : ℤ → ℤ → ℤ
strength_or default strength = if is_negative strength then default else strength

-- What `build_writer_qos` makes of the default.
pub writer_qos : Options → WriterQos → WriterQos
writer_qos opts qos = record qos {
  reliability = reliability_kind opts;
  history = history_or qos.history opts.history_depth;
  depth = depth_or qos.depth opts.history_depth;
  durability = durability_kind opts.durability;
  deadline = period_or qos.deadline opts.deadline_ms;
  lifespan = period_or qos.lifespan opts.lifespan_ms;
  ownership = ownership_or qos.ownership opts.ownership_strength;
  ownership_strength = strength_or qos.ownership_strength opts.ownership_strength;
  representation = set_representation opts.data_representation;
}

pub reader_qos : Options → ReaderQos → ReaderQos
reader_qos opts qos = record qos {
  reliability = reliability_kind opts;
  history = history_or qos.history opts.history_depth;
  depth = depth_or qos.depth opts.history_depth;
  durability = durability_kind opts.durability;
  deadline = period_or qos.deadline opts.deadline_ms;
  ownership = ownership_or qos.ownership opts.ownership_strength;
  minimum_separation = period_or qos.minimum_separation opts.time_filter_ms;
  representation = set_representation opts.data_representation;
}

partition_or : List Text → Option Text → List Text
partition_or default none = default
partition_or default (some name) = name ∷ []

-- The publisher's QoS in `run_publisher` and the subscriber's in `run_subscriber`.
pub group_qos : Options → GroupQos → GroupQos
group_qos opts qos = record {
  access_scope = access_scope_kind opts.access_scope;
  coherent_access = opts.coherent_access;
  ordered_access = opts.ordered_access;
  partition = partition_or qos.partition opts.partition;
}

module _ {S St B : Type 0} (env : Env S B) where
  unfoldable pub build_writer_qos : Options → M S St WriterQos
  build_writer_qos opts = do
    must_return env get_default_datawriter_qos "FAIL: get_default_datawriter_qos() failed\n" []
    return (writer_qos opts env.defaults.writer)

  unfoldable pub build_reader_qos : Options → M S St ReaderQos
  build_reader_qos opts = do
    must_return env get_default_datareader_qos "FAIL: get_default_datareader_qos() failed\n" []
    return (reader_qos opts env.defaults.reader)
