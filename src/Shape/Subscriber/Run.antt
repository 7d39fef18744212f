-- ===== src/Shape/Subscriber/Run.antt =====
-- `run_subscriber` of cpp/shape/src/shape_main.cpp: its set-up, the two ways to read a topic, and the
-- loop. std::sort and the samples of the readers are parameters.
pub mod Loop
pub mod Ends
pub mod Accepts
use Prim.Native.String.{String}
use zzdds_examples.Base.{
  ℕ, zero, suc, ◌==◌, ◌&&◌, ◌||◌, not, ◌++◌, Bool, true, false, Option, none, some, List, [], ◌∷◌,
  if◌then◌else◌,
}
use zzdds_examples.Base.Text.{Text, codes}
use zzdds_examples.Dds.{ReaderQos, SampleInfo, Taken, is_ok}
use zzdds_examples.Runtime.Event.{
  num, text, Log, create_subscriber, create_contentfilteredtopic, lookup_topicdescription,
  create_datareader, delete_contentfilteredtopic, begin_access, end_access, take, read_n,
}
use zzdds_examples.Runtime.Program.{
  M, Env, ◌>>=◌, ◌>>◌, return, exit, out_of_fuel, modify, printf, usleep, invoke, invoke_with,
  must_create, signalled, for_each, when,
}
use zzdds_examples.Runtime.Wait.{deliver}
use zzdds_examples.Apps.Common.Receiver.{NoSample}
use zzdds_examples.Shape.Options.{Options}
use zzdds_examples.Shape.Qos.{group_qos, build_reader_qos}
use zzdds_examples.Shape.Topics.{ExtraTopics, create_extra_topics, name_at, found, extra}
use zzdds_examples.Shape.Sample.{ShapeType}
use zzdds_examples.Shape.Publisher.{useconds, gating}
use zzdds_examples.Shape.Publisher.Run.{finished}
use zzdds_examples.Shape.Subscriber.{
  SubRun, ReaderCallback, reader_listener, is_not_alive, key_color, print_not_alive, accept_sample,
  take_all,
}

-- A sample that read_n() gives.
abbrev pub Read : Type 0
Read = SampleInfo × ShapeType

-- What the readers give, by the number of the topic: the calls of take() up to RETCODE_NO_DATA, and one
-- call of read_n(), where `[]` stands for a negative number of samples as well.
pub record Readers : Type 0 where
  pub taken : Log NoSample → ℕ → List (Taken ShapeType)
  pub read : Log NoSample → ℕ → List Read

-- `effective_cft_expr`
pub effective_expression : Option Text → Option Text → Option Text
effective_expression (some expression) color = some expression
effective_expression none none = none
effective_expression none (some color) = some (codes "color = '" ++ color ++ codes "'")

abbrev pub is_some : {A : Type 0} → Option A → Bool
is_some none = false
is_some (some a) = true

abbrev pub filtered_name : Text → Text
filtered_name base = base ++ codes "_cft"

-- The loop over the samples of one read_n().
pub read_all : Text → List Read → M NoSample SubRun (Unit {0})
read_all topic [] = return tt
read_all topic ((info, v) ∷ rest) = do
  if not info.valid_data || is_not_alive info.instance_state
      then (do
        color ← key_color info.instance_handle v
        print_not_alive topic color info.instance_state)
      else accept_sample topic info.instance_handle v
  read_all topic rest

module _ (env : Env NoSample ReaderCallback) (opts : Options) where
  -- `cft`; the result says whether there is one.
  pub create_cft : Option Text → M NoSample SubRun Bool
  create_cft none = return false
  create_cft (some expression) = do
    must_create env (create_contentfilteredtopic (filtered_name opts.topic_name) expression)
        "FAIL: create_contentfilteredtopic returned null\n" []
    return true

  -- `topic_desc`; the result is the name of the topic that the reader is for.
  pub describe : Bool → ℕ → Text → M NoSample SubRun Text
  describe cft i name = if i == 0 && cft then return (filtered_name opts.topic_name) else do
    must_create env (lookup_topicdescription name)
        "FAIL: lookup_topicdescription returned null for '%s'\n" (text name ∷ [])
    return name

  -- The readers of the topics i, …, i + count - 1; the result is topic_names.
  pub create_readers : ExtraTopics → Bool → ReaderQos → ℕ → ℕ → M NoSample SubRun (List Text)
  create_readers et cft qos i zero = return []
  create_readers et cft qos i (suc count) = do
    name ← found (name_at opts.topic_name et i)
    topic ← describe cft i name
    printf "Create reader for topic: %s\n" (text name ∷ [])
    must_create env (create_datareader topic qos) "FAIL: create_datareader returned null\n" []
    names ← create_readers et cft qos (suc i) count
    return (name ∷ names)

  pub enter_access : ℕ → M NoSample SubRun (Unit {0})
  enter_access iteration = when (gating opts) (do
    when opts.coherent_access (printf "Reading coherent sets, iteration %d\n" (num iteration ∷ []))
    when opts.ordered_access
        (printf "Reading with ordered access, iteration %d\n" (num iteration ∷ []))
    rc ← invoke env begin_access
    return tt)

  pub leave_access : M NoSample SubRun (Unit {0})
  leave_access = when (gating opts) (do rc ← invoke env end_access; return tt)

  module _ (readers : Readers) (sort : List Read → List Read) where
    -- One topic in one round.
    pub read_topic : ℕ → Text → M NoSample SubRun (Unit {0})
    read_topic ti name =
        if opts.read_only
        then (do
          (rc, samples) ← invoke_with env (λ log c. readers.read log ti) (read_n ti)
          read_all name (if opts.take_read then samples else sort samples))
        else do
          (rc, samples) ← invoke_with env (λ log c. readers.taken log ti) (take ti)
          take_all name samples

    -- The while loop.
    pub subscribe : List Text → ℕ → ℕ → M NoSample SubRun (Unit {0})
    subscribe names zero iteration = out_of_fuel
    subscribe names (suc fuel) iteration = do
      deliver env reader_listener
      all_done ← signalled env
      if all_done || finished opts iteration then return tt else do
        enter_access iteration
        for_each read_topic 0 names
        leave_access
        usleep (useconds opts.read_period_ms)
        subscribe names fuel (suc iteration)

    pub run_subscriber : ℕ → M NoSample SubRun (Unit {0})
    run_subscriber fuel = do
      created ← create_extra_topics env opts.topic_name opts.num_topics
      et ← extra created
      cft ← create_cft (effective_expression opts.cft_expression opts.color)
      must_create env (create_subscriber (group_qos opts env.defaults.group))
          "FAIL: create_subscriber returned null\n" []
      qos ← build_reader_qos env opts
      names ← create_readers et cft qos 0 opts.num_topics
      modify λ st. record { ih_cache = [] }
      subscribe names fuel 0
      when cft (do rc ← invoke env delete_contentfilteredtopic; return tt)
      exit 0
