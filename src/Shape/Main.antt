-- ===== src/Shape/Main.antt =====
-- main of cpp/shape/src/shape_main.cpp, up to the run of the publisher or the subscriber.
pub mod Prepared
use zzdds_examples.Base.{
  ℕ, ◌||◌, ◌&&◌, ◌==◌, ltb, not, Bool, true, false, Option, none, some, List, [], ◌∷◌,
  if◌then◌else◌,
}
use zzdds_examples.Base.Text.{Text, codes}
use zzdds_examples.Dds.{ParticipantConfig, is_ok, rc_number}
use zzdds_examples.Runtime.Event.{
  num, text, failed, create_factory, create_participant, create_participant_ex, register_type,
  create_topic, configure_from_file, get_default_participant_config,
}
use zzdds_examples.Runtime.Program.{
  M, Env, ◌>>=◌, ◌>>◌, return, exit, emit, fail, check, printf, invoke, invoke_with, must_create,
  must_return,
}
use zzdds_examples.Shape.Options.{Options}
use zzdds_examples.Shape.Args.{
  Parsed, accepted, rejected, helped, Complaint, unknown_option, bad_datafrag_size, parse_args,
}

abbrev fragment_or : ℕ → ParticipantConfig → ParticipantConfig
fragment_or datafrag_size cfg =
    if ltb 0 datafrag_size then record cfg { fragment_size = datafrag_size } else cfg

abbrev announce_or : ℕ → ParticipantConfig → ParticipantConfig
announce_or period cfg =
    if ltb 0 period then record cfg { announcement_period_ms = period } else cfg

module _ {S St : Type 0} where
  -- The lines of `parse_args` on stderr.
  warn_all : List Complaint → M S St (Unit {0})
  warn_all [] = return tt
  warn_all (unknown_option arg ∷ more) = do
    emit (failed "warning: unrecognised option: %s\n" (text arg ∷ []))
    warn_all more
  warn_all (bad_datafrag_size ∷ more) = do
    emit (failed "incorrect value for datafrag-size, must be a non-negative integer <= 65535\n" [])
    warn_all more

  -- The usage ends the process in `parse_args`.
  options : Parsed → M S St Options
  options (accepted opts) = return opts
  options rejected = fail "argument error\n" []
  options helped = exit 0

  -- MAX_TOPICS is 16.
  validate : Options → M S St (Unit {0})
  validate opts = do
    check (opts.publish || opts.subscribe) "specify -P (publish) or -S (subscribe)\n" []
    check (ltb 0 opts.num_topics && ltb opts.num_topics 17)
        "--num-topics must be between 1 and %u (got %u)\n" (num 16 ∷ num opts.num_topics ∷ [])

  module _ {B : Type 0} (env : Env S B) where
    load_config : Option Text → M S St (Unit {0})
    load_config none = return tt
    load_config (some path) = do
      cfg_rc ← invoke env (configure_from_file path)
      check (is_ok cfg_rc) "failed to load config file '%s' (rc=%d)\n"
          (text path ∷ num (rc_number cfg_rc) ∷ [])

    create_dp : Options → M S St (Unit {0})
    create_dp opts =
        if ltb 0 opts.datafrag_size || ltb 0 opts.periodic_announcement_ms
        then (do
          (rc, cfg) ← invoke_with env env.participant_config get_default_participant_config
          check (is_ok rc) "FAIL: get_default_participant_config() failed\n" []
          must_create env
              (create_participant_ex opts.domain_id
                (announce_or opts.periodic_announcement_ms (fragment_or opts.datafrag_size cfg)))
              "failed to create participant on domain %u\n" (num opts.domain_id ∷ []))
        else must_create env (create_participant opts.domain_id)
            "failed to create participant on domain %u\n" (num opts.domain_id ∷ [])

    -- What main has when it calls `run_publisher` or `run_subscriber`.
    pub prepare : List Text → M S St Options
    prepare argv = do
      warn_all (parse_args argv).warnings
      opts ← options (parse_args argv).parsed
      validate opts
      load_config opts.config_path
      must_create env create_factory "FAIL: create_factory returned null\n" []
      create_dp opts
      must_return env register_type "registerTypeSupport() failed\n" []
      must_create env (create_topic opts.topic_name (codes "ShapeType"))
          "failed to create topic '%s'\n" (text opts.topic_name ∷ [])
      printf "Create topic: %s\n" (text opts.topic_name ∷ [])
      return opts
