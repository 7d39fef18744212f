-- ===== src/Shape/Args/Words/Numbers.antt =====
-- The options that hold a number.
use zzdds_examples.Base.{ℕ, ◌<◌, ◌^◌, ◌≡◌, refl, ap, none, some, List, ◌∷◌}
use zzdds_examples.Base.Text.{Text, codes}
use zzdds_examples.Base.Int.{ℤ, IsI32, IsI64}
use zzdds_examples.Base.Number.{to_string, int_to_string, strtoul-to_string, strtol-int_to_string}
use zzdds_examples.Shape.Options.{Options}
use zzdds_examples.Shape.Args.{Setting, flag_of, set_value, parse_loop}
use zzdds_examples.Shape.Args.Words.{value_step, u32_word, i32_word}

pub domain_id_step :
    (v : ℕ) (rest : List Text) (a : Options)
    → v < 2 ^ 32
    → parse_loop (codes "-d" ∷ to_string v ∷ rest) none a
      ≡ parse_loop rest none (record a { domain_id = v })
unfolding flag_of set_value
domain_id_step v rest a h =
    value_step Setting.domain _ _ rest a _ refl
      (ap (λ k. some (record a { domain_id = k })) (u32_word v h))

pub num_instances_step :
    (v : ℕ) (rest : List Text) (a : Options)
    → v < 2 ^ 32
    → parse_loop (codes "-n" ∷ to_string v ∷ rest) none a
      ≡ parse_loop rest none (record a { num_instances = v })
unfolding flag_of set_value
num_instances_step v rest a h =
    value_step Setting.instances _ _ rest a _ refl
      (ap (λ k. some (record a { num_instances = k })) (u32_word v h))

pub additional_payload_step :
    (v : ℕ) (rest : List Text) (a : Options)
    → v < 2 ^ 32
    → parse_loop (codes "--additional-payload" ∷ to_string v ∷ rest) none a
      ≡ parse_loop rest none (record a { additional_payload = v })
unfolding flag_of set_value
additional_payload_step v rest a h =
    value_step Setting.payload _ _ rest a _ refl
      (ap (λ k. some (record a { additional_payload = k })) (u32_word v h))

pub num_topics_step :
    (v : ℕ) (rest : List Text) (a : Options)
    → v < 2 ^ 32
    → parse_loop (codes "--num-topics" ∷ to_string v ∷ rest) none a
      ≡ parse_loop rest none (record a { num_topics = v })
unfolding flag_of set_value
num_topics_step v rest a h =
    value_step Setting.topics _ _ rest a _ refl
      (ap (λ k. some (record a { num_topics = k })) (u32_word v h))

pub coherent_sample_count_step :
    (v : ℕ) (rest : List Text) (a : Options)
    → v < 2 ^ 32
    → parse_loop (codes "--coherent-sample-count" ∷ to_string v ∷ rest) none a
      ≡ parse_loop rest none (record a { coherent_sample_count = v })
unfolding flag_of set_value
coherent_sample_count_step v rest a h =
    value_step Setting.sample_count _ _ rest a _ refl
      (ap (λ k. some (record a { coherent_sample_count = k })) (u32_word v h))

pub periodic_announcement_ms_step :
    (v : ℕ) (rest : List Text) (a : Options)
    → v < 2 ^ 32
    → parse_loop (codes "--periodic-announcement" ∷ to_string v ∷ rest) none a
      ≡ parse_loop rest none (record a { periodic_announcement_ms = v })
unfolding flag_of set_value
periodic_announcement_ms_step v rest a h =
    value_step Setting.announcement _ _ rest a _ refl
      (ap (λ k. some (record a { periodic_announcement_ms = k })) (u32_word v h))

pub deadline_ms_step :
    (v : ℕ) (rest : List Text) (a : Options)
    → v < 2 ^ 64
    → parse_loop (codes "-f" ∷ to_string v ∷ rest) none a
      ≡ parse_loop rest none (record a { deadline_ms = v })
unfolding flag_of set_value
deadline_ms_step v rest a h =
    value_step Setting.deadline _ _ rest a _ refl
      (ap (λ k. some (record a { deadline_ms = k })) (strtoul-to_string v h))

pub lifespan_ms_step :
    (v : ℕ) (rest : List Text) (a : Options)
    → v < 2 ^ 64
    → parse_loop (codes "--lifespan" ∷ to_string v ∷ rest) none a
      ≡ parse_loop rest none (record a { lifespan_ms = v })
unfolding flag_of set_value
lifespan_ms_step v rest a h =
    value_step Setting.lifespan _ _ rest a _ refl
      (ap (λ k. some (record a { lifespan_ms = k })) (strtoul-to_string v h))

pub time_filter_ms_step :
    (v : ℕ) (rest : List Text) (a : Options)
    → v < 2 ^ 64
    → parse_loop (codes "--time-filter" ∷ to_string v ∷ rest) none a
      ≡ parse_loop rest none (record a { time_filter_ms = v })
unfolding flag_of set_value
time_filter_ms_step v rest a h =
    value_step Setting.time_filter _ _ rest a _ refl
      (ap (λ k. some (record a { time_filter_ms = k })) (strtoul-to_string v h))

pub history_depth_step :
    (v : ℤ) (rest : List Text) (a : Options)
    → IsI32 v
    → parse_loop (codes "-k" ∷ int_to_string v ∷ rest) none a
      ≡ parse_loop rest none (record a { history_depth = v })
unfolding flag_of set_value
history_depth_step v rest a h =
    value_step Setting.history _ _ rest a _ refl
      (ap (λ k. some (record a { history_depth = k })) (i32_word v h))

pub ownership_strength_step :
    (v : ℤ) (rest : List Text) (a : Options)
    → IsI32 v
    → parse_loop (codes "-s" ∷ int_to_string v ∷ rest) none a
      ≡ parse_loop rest none (record a { ownership_strength = v })
unfolding flag_of set_value
ownership_strength_step v rest a h =
    value_step Setting.strength _ _ rest a _ refl
      (ap (λ k. some (record a { ownership_strength = k })) (i32_word v h))

pub shapesize_step :
    (v : ℤ) (rest : List Text) (a : Options)
    → IsI32 v
    → parse_loop (codes "-z" ∷ int_to_string v ∷ rest) none a
      ≡ parse_loop rest none (record a { shapesize = v })
unfolding flag_of set_value
shapesize_step v rest a h =
    value_step Setting.size _ _ rest a _ refl
      (ap (λ k. some (record a { shapesize = k })) (i32_word v h))

pub size_modulo_step :
    (v : ℤ) (rest : List Text) (a : Options)
    → IsI32 v
    → parse_loop (codes "--size-modulo" ∷ int_to_string v ∷ rest) none a
      ≡ parse_loop rest none (record a { size_modulo = v })
unfolding flag_of set_value
size_modulo_step v rest a h =
    value_step Setting.size_modulo _ _ rest a _ refl
      (ap (λ k. some (record a { size_modulo = k })) (i32_word v h))

pub write_period_ms_step :
    (v : ℤ) (rest : List Text) (a : Options)
    → IsI64 v
    → parse_loop (codes "--write-period" ∷ int_to_string v ∷ rest) none a
      ≡ parse_loop rest none (record a { write_period_ms = v })
unfolding flag_of set_value
write_period_ms_step v rest a h =
    value_step Setting.write_period _ _ rest a _ refl
      (ap (λ k. some (record a { write_period_ms = k })) (strtol-int_to_string v h))

pub read_period_ms_step :
    (v : ℤ) (rest : List Text) (a : Options)
    → IsI64 v
    → parse_loop (codes "--read-period" ∷ int_to_string v ∷ rest) none a
      ≡ parse_loop rest none (record a { read_period_ms = v })
unfolding flag_of set_value
read_period_ms_step v rest a h =
    value_step Setting.read_period _ _ rest a _ refl
      (ap (λ k. some (record a { read_period_ms = k })) (strtol-int_to_string v h))

pub num_iterations_step :
    (v : ℤ) (rest : List Text) (a : Options)
    → IsI64 v
    → parse_loop (codes "-i" ∷ int_to_string v ∷ rest) none a
      ≡ parse_loop rest none (record a { num_iterations = v })
unfolding flag_of set_value
num_iterations_step v rest a h =
    value_step Setting.iterations _ _ rest a _ refl
      (ap (λ k. some (record a { num_iterations = k })) (strtol-int_to_string v h))
