-- ===== src/Shape/Publisher/Run.antt =====
-- The loop and the two ends of `run_publisher`.
pub mod Safety
pub mod Termination
use Prim.Native.String.{String}
use zzdds_examples.Base.{
  ℕ, zero, suc, ◌+◌, ◌*◌, ◌-◌, ◌%◌, ◌^◌, ltb, leb, ◌==◌, ◌&&◌, ◌||◌, not, Bool, true, false, Option,
  none, some, List, [], ◌∷◌, if◌then◌else◌, get_elem?,
}
use zzdds_examples.Base.Text.{Text, codes}
use zzdds_examples.Base.Int.{ℤ, pos, negsuc, pos_part, ltb_ℤ, ◌==ℤ◌, is_negative}
use zzdds_examples.Dds.{WriterQos, ReturnCode, is_ok, rc_number}
use zzdds_examples.Runtime.Event.{
  Arg, num, int, text, create_publisher, create_datawriter, get_publication_matched_status, write,
  dispose, unregister_instance, wait_for_acknowledgments, begin_coherent_changes,
  end_coherent_changes, random, clock,
}
use zzdds_examples.Runtime.Program.{
  M, Env, ◌>>=◌, ◌>>◌, return, exit, fail, check, out_of_fuel, out_of_range, get, modify, printf,
  usleep, create, invoke, query, signalled, must_create, for_range, for_each, when,
}
use zzdds_examples.Runtime.Wait.{deliver}
use zzdds_examples.Shape.Options.{Options}
use zzdds_examples.Shape.Qos.{group_qos, build_writer_qos, policy_name}
use zzdds_examples.Shape.Topics.{
  ExtraTopics, create_extra_topics, topic_at, name_at, instance_color, found, extra,
}
use zzdds_examples.Shape.Sample.{ShapeType, empty_shape, shape_line, increment, payload}
use zzdds_examples.Shape.Publisher.{
  PubRun, WriterCallback, writer_listener, base_color, first_shape, useconds, gating,
  look_for_reader, write_round,
}

abbrev pub finished : Options → ℕ → Bool
finished opts iteration =
    not (is_negative opts.num_iterations) && leb (pos_part opts.num_iterations) iteration

abbrev acknowledged : ReturnCode → Bool
acknowledged ReturnCode.ok = true
acknowledged ReturnCode.timeout = true
acknowledged ReturnCode.no_data = false
acknowledged (ReturnCode.other n) = false

module _ (env : Env ShapeType WriterCallback) (opts : Options) where
  -- The while loop. A round that waits for the first reader does not count.
  pub publish : List Text → Text → ℕ → ℕ → ℕ → M ShapeType PubRun (Unit {0})
  publish names first_name match_deadline zero iteration = out_of_fuel
  publish names first_name match_deadline (suc fuel) iteration = do
    deliver env writer_listener
    all_done ← signalled env
    if all_done || finished opts iteration then return tt else do
      look_for_reader env opts first_name match_deadline
      st ← get
      if gating opts && not st.printed_matched
          then (do
            usleep (useconds opts.write_period_ms)
            publish names first_name match_deadline fuel iteration)
          else do
            write_round env opts names
            usleep (useconds opts.write_period_ms)
            publish names first_name match_deadline fuel (suc iteration)

  abbrev key : ℕ → ShapeType
  key inst = record empty_shape { color = instance_color (base_color opts) inst }

  -- `do_dispose ? dispose(key) : unregister_instance(key)`
  pub end_instance : ℕ → ℕ → M ShapeType PubRun (Unit {0})
  end_instance ti inst =
      if opts.final_instance_state == b'd'
      then (do
        rc ← invoke env (dispose ti (key inst))
        check (is_ok rc) "FAIL: %s() failed: %d\n"
            (text (codes "dispose") ∷ num (rc_number rc) ∷ []))
      else do
        rc ← invoke env (unregister_instance ti (key inst))
        check (is_ok rc) "FAIL: %s() failed: %d\n"
            (text (codes "unregister_instance") ∷ num (rc_number rc) ∷ [])

  pub await_acknowledgments : ℕ → M ShapeType PubRun (Unit {0})
  await_acknowledgments ti = do
    rc ← invoke env (wait_for_acknowledgments ti)
    check (acknowledged rc) "FAIL: wait_for_acknowledgments() failed: %d\n"
        (num (rc_number rc) ∷ [])

  -- After a finite run.
  pub end_instances : ℕ → M ShapeType PubRun (Unit {0})
  end_instances n = when (not (is_negative opts.num_iterations)) (do
    for_range (λ ti. for_range (end_instance ti) 0 opts.num_instances) 0 n
    for_range await_acknowledgments 0 n)

  -- The writers of the topics i, …, i + count - 1; the result is their topics' names.
  create_writers : ExtraTopics → WriterQos → ℕ → ℕ → M ShapeType PubRun (List Text)
  create_writers et qos i zero = return []
  create_writers et qos i (suc count) = do
    name ← found (name_at opts.topic_name et i)
    topic ← found (topic_at opts.topic_name et i)
    must_create env (create_datawriter topic qos) "FAIL: create_datawriter returned null\n" []
    printf "Create writer for topic: %s color: %s\n" (text name ∷ text (base_color opts) ∷ [])
    names ← create_writers et qos (suc i) count
    return (name ∷ names)

  -- `base_topic` is the topic that main created.
  pub run_publisher : ℕ → M ShapeType PubRun (Unit {0})
  run_publisher fuel = do
    created ← create_extra_topics env opts.topic_name opts.num_topics
    et ← extra created
    must_create env (create_publisher (group_qos opts env.defaults.group))
        "FAIL: create_publisher returned null\n" []
    qos ← build_writer_qos env opts
    names ← create_writers et qos 0 opts.num_topics
    modify λ st. record { shape = first_shape opts; printed_matched = false }
    seed ← query env clock
    now ← query env clock
    first_name ← found (get_elem? names 0)
    publish names first_name (now + 10000000000) fuel 0
    end_instances opts.num_topics
    exit 0
