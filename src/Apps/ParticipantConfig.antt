-- ===== src/Apps/ParticipantConfig.antt =====
-- cpp/participant-config: what its two programs share, up to the topic.
pub mod Keeps
pub mod Publisher
pub mod Subscriber
use zzdds_examples.Base.{
  ℕ, ◌||◌, ◌==◌, Bool, true, false, Option, none, some, List, [], ◌∷◌, if◌then◌else◌,
}
use zzdds_examples.Base.Text.{Text, codes, str_eq}
use zzdds_examples.Base.Int.{ℤ, to_u32}
use zzdds_examples.Base.Number.{strtoul}
use zzdds_examples.Dds.{ParticipantConfig, is_ok, rc_number}
use zzdds_examples.Runtime.Event.{
  num, text, create_factory, create_participant, create_participant_ex, register_type, create_topic,
  configure_from_file, set_default_participant_config, get_default_participant_config,
}
use zzdds_examples.Runtime.Program.{
  M, Env, ◌>>=◌, ◌>>◌, return, check, printf, invoke, invoke_with, must_create, must_return,
}

-- `ConfigPing` of cpp/participant-config/idl/config_ping.idl
pub record ConfigPing : Type 0 where
  pub count : ℤ

pub record Options : Type 0 where
  pub domain_id : ℕ
  pub config_path : Option Text

-- The last of each option that has a word after it counts. `argv` is without the program's name.
parse_from : List Text → Options → Options
unfolding str_eq
parse_from [] opts = opts
parse_from (arg ∷ []) opts = opts
parse_from (arg ∷ v ∷ rest) opts =
    let with_domain = parse_from rest (record opts { domain_id = to_u32 (strtoul v) }) in
    let with_config = parse_from rest (record opts { config_path = some v }) in
    let without = parse_from (v ∷ rest) opts in
    if str_eq arg (codes "-d") || str_eq arg (codes "--domain")
    then with_domain
    else if str_eq arg (codes "--config")
    then with_config
    else without

pub parse_options : List Text → Options
parse_options argv = parse_from argv record { domain_id = 0; config_path = none }

abbrev config_name : Text
config_name = codes "participant-config-example"

abbrev pub config_ping : Text
config_ping = codes "ConfigPing"

abbrev configured : ParticipantConfig → ParticipantConfig
configured default = record default { name = config_name; fragment_size = 9000 }

module _ {S St B : Type 0} (env : Env S B) where
  -- `if (opts.config_path) …`, before the factory.
  load_config : Option Text → M S St (Unit {0})
  load_config none = return tt
  load_config (some path) = do
    cfg_rc ← invoke env (configure_from_file path)
    check (is_ok cfg_rc) "FAIL: failed to load config file '%s' (rc=%d)\n"
        (text path ∷ num (rc_number cfg_rc) ∷ [])

  -- The configuration is set, read back and compared.
  round_trip : M S St (Unit {0})
  round_trip = do
    must_return env (set_default_participant_config (configured env.defaults.config))
        "FAIL: set_default_participant_config() failed\n" []
    (rc, readback) ← invoke_with env env.participant_config get_default_participant_config
    check (is_ok rc) "FAIL: get_default_participant_config() failed\n" []
    check (str_eq readback.name config_name)
        "FAIL: participant.name round-trip mismatch: expected '%s', got '%s'\n"
        (text config_name ∷ text readback.name ∷ [])
    check (readback.fragment_size == 9000)
        "FAIL: rtps.fragment_size round-trip mismatch: expected %u, got %u\n"
        (num 9000 ∷ num readback.fragment_size ∷ [])
    printf "Config round-trip OK: participant.name='%s' rtps.fragment_size=%u\n"
        (text readback.name ∷ num readback.fragment_size ∷ [])

  -- Programmatic mode without a file, the configured defaults with one.
  participant : ℕ → Option Text → M S St (Unit {0})
  participant domain_id none = do
    round_trip
    must_create env (create_participant_ex domain_id (configured env.defaults.config))
        "FAIL: create_participant() failed on domain %u\n" (num domain_id ∷ [])
  participant domain_id (some path) =
      must_create env (create_participant domain_id)
        "FAIL: create_participant() failed on domain %u\n" (num domain_id ∷ [])

  -- Both mains, up to the topic.
  pub set_up : Options → M S St (Unit {0})
  set_up opts = do
    load_config opts.config_path
    must_create env create_factory "FAIL: createFactory() failed\n" []
    participant opts.domain_id opts.config_path
    must_return env register_type "FAIL: register_type failed\n" []
    must_create env (create_topic config_ping config_ping) "FAIL: create_topic() failed\n" []
    printf "Create topic: ConfigPing\n" []
