-- ===== src/Shape/Options.antt =====
-- `struct Options` of cpp/shape/src/shape_main.cpp with its default member values. A `char` option
-- is the number of its byte, a C string or std::string is a `Text`, a null pointer is `none`.
use zzdds_examples.Base.{ℕ, Bool, false, Option, none}
use zzdds_examples.Base.Text.{Text, codes}
use zzdds_examples.Base.Int.{ℤ, pos, negsuc}

pub record Options : Type 0 where
  pub publish : Bool
  pub subscribe : Bool
  pub domain_id : ℕ
  pub best_effort : Bool
  pub reliable : Bool
  pub history_depth : ℤ
  pub deadline_ms : ℕ
  pub lifespan_ms : ℕ
  pub ownership_strength : ℤ
  pub topic_name : Text
  pub color : Option Text
  pub partition : Option Text
  pub durability : ℕ
  pub data_representation : ℕ
  pub print_writer_samples : Bool
  pub shapesize : ℤ
  pub write_period_ms : ℤ
  pub read_period_ms : ℤ
  pub num_iterations : ℤ
  pub num_instances : ℕ
  pub additional_payload : ℕ
  pub size_modulo : ℤ
  pub cft_expression : Option Text
  pub time_filter_ms : ℕ
  pub final_instance_state : ℕ
  pub access_scope : ℕ
  pub ordered_access : Bool
  pub coherent_access : Bool
  pub num_topics : ℕ
  pub take_read : Bool
  pub read_only : Bool
  pub coherent_sample_count : ℕ
  pub periodic_announcement_ms : ℕ
  pub config_path : Option Text
  pub datafrag_size : ℕ

abbrev pub default_options : Options
default_options = record {
  publish = false;
  subscribe = false;
  domain_id = 0;
  best_effort = false;
  reliable = false;
  history_depth = negsuc 0;
  deadline_ms = 0;
  lifespan_ms = 0;
  ownership_strength = negsuc 0;
  topic_name = codes "Square";
  color = none;
  partition = none;
  durability = b'v';
  data_representation = 1;
  print_writer_samples = false;
  shapesize = pos 20;
  write_period_ms = pos 33;
  read_period_ms = pos 100;
  num_iterations = negsuc 0;
  num_instances = 1;
  additional_payload = 0;
  size_modulo = pos 0;
  cft_expression = none;
  time_filter_ms = 0;
  final_instance_state = 0;
  access_scope = b'i';
  ordered_access = false;
  coherent_access = false;
  num_topics = 1;
  take_read = false;
  read_only = false;
  coherent_sample_count = 0;
  periodic_announcement_ms = 0;
  config_path = none;
  datafrag_size = 0;
}
