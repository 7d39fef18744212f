-- ===== src/Shape/Args.antt =====
-- `parse_args` of cpp/shape/src/shape_main.cpp. `argv` is the list of arguments after the program's
-- name. The chain of strcmp tests is `flag_of`; the assignments are `set_switch` and `set_value`.
pub mod Valid
pub mod Words
pub mod RoundTrip
use zzdds_examples.Base.{ℕ, ◌==◌, Bool, true, false, ◌||◌, Option, none, some, List, [], ◌∷◌}
use zzdds_examples.Base.{ltb, not, if◌then◌else◌}
use zzdds_examples.Base.Text.{Text, codes, str_eq}
use zzdds_examples.Base.Int.{to_u32, to_u16, to_i32}
use zzdds_examples.Base.Number.{strtoul, strtol, converts}
use zzdds_examples.Shape.Options.{Options, default_options}

-- The options with no argument.
pub data Switch : Type 0 where
  publish subscribe best_effort reliable print_writer_samples read_only : Switch
  ordered coherent take_read : Switch

-- The options with one argument. `matches` stands for --publisher-matches and --subscriber-matches,
-- whose argument is ignored.
pub data Setting : Type 0 where
  domain history deadline strength topic color partition durability representation : Setting
  size instances write_period read_period iterations payload size_modulo cft : Setting
  time_filter lifespan final_state access_scope topics sample_count announcement : Setting
  config datafrag matches : Setting

pub data Flag : Type 0 where
  switch : Switch → Flag
  setting : Setting → Flag
  help unrecognised : Flag

infixr 2 ◌or_else◌
abbrev ◌or_else◌ : Option Flag → Flag → Flag
some f or_else g = f
none or_else g = g

-- `if (strcmp(arg, name) == 0) …`
abbrev matching : Text → Text → Flag → Option Flag
matching arg name f = if str_eq arg name then some f else none

abbrev matching2 : Text → Text → Text → Flag → Option Flag
matching2 arg name other f = if str_eq arg name || str_eq arg other then some f else none

pub flag_of : Text → Flag
unfolding str_eq
flag_of arg =
    matching arg (codes "-P") (switch publish)
    or_else matching arg (codes "-S") (switch subscribe)
    or_else matching arg (codes "-b") (switch best_effort)
    or_else matching arg (codes "-r") (switch reliable)
    or_else matching arg (codes "-w") (switch print_writer_samples)
    or_else matching arg (codes "-R") (switch read_only)
    or_else matching arg (codes "-d") (setting domain)
    or_else matching arg (codes "-k") (setting history)
    or_else matching2 arg (codes "-f") (codes "--deadline") (setting deadline)
    or_else matching arg (codes "-s") (setting strength)
    or_else matching arg (codes "-t") (setting topic)
    or_else matching arg (codes "-c") (setting color)
    or_else matching arg (codes "-p") (setting partition)
    or_else matching arg (codes "-D") (setting durability)
    or_else matching arg (codes "-x") (setting representation)
    or_else matching arg (codes "-z") (setting size)
    or_else matching2 arg (codes "-n") (codes "--num-instances") (setting instances)
    or_else matching arg (codes "--write-period") (setting write_period)
    or_else matching arg (codes "--read-period") (setting read_period)
    or_else matching2 arg (codes "-i") (codes "--num-iterations") (setting iterations)
    or_else matching2 arg (codes "--additional-payload") (codes "--additional-payload-size")
        (setting payload)
    or_else matching arg (codes "--size-modulo") (setting size_modulo)
    or_else matching arg (codes "--cft") (setting cft)
    or_else matching arg (codes "--time-filter") (setting time_filter)
    or_else matching arg (codes "--lifespan") (setting lifespan)
    or_else matching arg (codes "--final-instance-state") (setting final_state)
    or_else matching arg (codes "--access-scope") (setting access_scope)
    or_else matching arg (codes "--ordered") (switch ordered)
    or_else matching arg (codes "--coherent") (switch coherent)
    or_else matching arg (codes "--num-topics") (setting topics)
    or_else matching arg (codes "--take-read") (switch take_read)
    or_else matching arg (codes "--coherent-sample-count") (setting sample_count)
    or_else matching arg (codes "--periodic-announcement") (setting announcement)
    or_else matching arg (codes "--config") (setting config)
    or_else matching2 arg (codes "-Z") (codes "--datafrag-size") (setting datafrag)
    or_else matching2 arg (codes "--publisher-matches") (codes "--subscriber-matches")
        (setting matches)
    or_else matching2 arg (codes "-h") (codes "--help") help
    or_else unrecognised

pub set_switch : Switch → Options → Options
set_switch publish o = record o { publish = true }
set_switch subscribe o = record o { subscribe = true }
set_switch best_effort o = record o { best_effort = true }
set_switch reliable o = record o { reliable = true }
set_switch print_writer_samples o = record o { print_writer_samples = true }
set_switch read_only o = record o { read_only = true }
set_switch ordered o = record o { ordered_access = true }
set_switch coherent o = record o { coherent_access = true }
set_switch take_read o = record o { take_read = true }

-- `v[0] ? v[0] : other`
pub first_byte : Text → ℕ → ℕ
first_byte [] other = other
first_byte (c ∷ s) other = c

-- `none` is the return of -1, for a fragment size that is no number or above 65535.
pub set_value : Setting → Text → Options → Option Options
unfolding first_byte
set_value domain v o = some (record o { domain_id = to_u32 (strtoul v) })
set_value history v o = some (record o { history_depth = to_i32 (strtol v) })
set_value deadline v o = some (record o { deadline_ms = strtoul v })
set_value strength v o = some (record o { ownership_strength = to_i32 (strtol v) })
set_value topic v o = some (record o { topic_name = v })
set_value color v o = some (record o { color = some v })
set_value partition v o = some (record o { partition = some v })
set_value durability v o = some (record o { durability = first_byte v b'v' })
set_value representation v o =
    some (record o { data_representation = if to_u16 (strtoul v) == 2 then 2 else 1 })
set_value size v o = some (record o { shapesize = to_i32 (strtol v) })
set_value instances v o = some (record o { num_instances = to_u32 (strtoul v) })
set_value write_period v o = some (record o { write_period_ms = strtol v })
set_value read_period v o = some (record o { read_period_ms = strtol v })
set_value iterations v o = some (record o { num_iterations = strtol v })
set_value payload v o = some (record o { additional_payload = to_u32 (strtoul v) })
set_value size_modulo v o = some (record o { size_modulo = to_i32 (strtol v) })
set_value cft v o = some (record o { cft_expression = some v })
set_value time_filter v o = some (record o { time_filter_ms = strtoul v })
set_value lifespan v o = some (record o { lifespan_ms = strtoul v })
set_value final_state v o = some (record o { final_instance_state = first_byte v 0 })
set_value access_scope v o = some (record o { access_scope = first_byte v b'i' })
set_value topics v o = some (record o { num_topics = to_u32 (strtoul v) })
set_value sample_count v o = some (record o { coherent_sample_count = to_u32 (strtoul v) })
set_value announcement v o = some (record o { periodic_announcement_ms = to_u32 (strtoul v) })
set_value config v o = some (record o { config_path = some v })
set_value datafrag v o =
    if not (converts v) || ltb 65535 (strtoul v)
    then none
    else some (record o { datafrag_size = to_u16 (strtoul v) })
set_value matches v o = some o

-- The return of 0 with the options that `opts` then holds, the return of -1, and the exit with
-- status 0 after the usage text.
pub data Parsed : Type 0 where
  accepted : Options → Parsed
  rejected helped : Parsed

-- The lines on stderr: a warning that names an argument, and the one about --datafrag-size.
pub data Complaint : Type 0 where
  unknown_option : Text → Complaint
  bad_datafrag_size : Complaint

-- The outcome, and the lines on stderr, in order.
abbrev pub Report : Type 0
Report = record { parsed : Parsed; warnings : List Complaint }

abbrev pub warn : Complaint → Report → Report
warn c r = record { parsed = r.parsed; warnings = c ∷ r.warnings }

abbrev pub stop : Parsed → Report
stop p = record { parsed = p; warnings = [] }

-- The loop from `argv[i]` on; `waits` is the option whose argument comes next.
pub parse_loop : List Text → Option Setting → Options → Report
parse_loop [] (some s) o = stop rejected
parse_loop [] none o = stop (accepted o)
parse_loop (v ∷ rest) (some s) o = elim (set_value s v o) [
  | none ↦ warn bad_datafrag_size (stop rejected)
  | some o' ↦ parse_loop rest none o'
]
parse_loop (arg ∷ rest) none o = elim (flag_of arg) [
  | switch s ↦ parse_loop rest none (set_switch s o)
  | setting s ↦ parse_loop rest (some s) o
  | help ↦ stop helped
  | unrecognised ↦ warn (unknown_option arg) (parse_loop rest none o)
]

unfoldable pub parse_args : List Text → Report
unfolding parse_loop flag_of set_switch set_value
parse_args argv = parse_loop argv none default_options
