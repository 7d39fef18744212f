-- ===== src/Shape/Args/RoundTrip.antt =====
-- Every value of the options can be given on the command line.
use zzdds_examples.Base.{◌≡◌, refl, ◌∙◌, ◌<◌, none, List, [], ◌∷◌}
use zzdds_examples.Base.Text.{Text, codes}
use zzdds_examples.Base.Number.{to_string, int_to_string}
use zzdds_examples.Shape.Options.{Options, default_options}
use zzdds_examples.Shape.Args.{accepted, stop, parse_loop, parse_args}
use zzdds_examples.Shape.Args.Valid.{IsWellFormed}
use zzdds_examples.Shape.Args.Words.{switch_word, option_word, char_word}
use zzdds_examples.Shape.Args.Words.Switches.{
  publish_step, subscribe_step, best_effort_step, reliable_step, print_writer_samples_step,
  read_only_step, ordered_access_step, coherent_access_step, take_read_step, color_step,
  partition_step, cft_expression_step, config_path_step,
}
use zzdds_examples.Shape.Args.Words.Numbers.{
  domain_id_step, num_instances_step, additional_payload_step, num_topics_step,
  coherent_sample_count_step, periodic_announcement_ms_step, deadline_ms_step, lifespan_ms_step,
  time_filter_ms_step, history_depth_step, ownership_strength_step, shapesize_step,
  size_modulo_step, write_period_ms_step, read_period_ms_step, num_iterations_step,
}
use zzdds_examples.Shape.Args.Words.Letters.{
  durability_step, access_scope_step, final_instance_state_step, topic_name_step,
  data_representation_step, datafrag_size_step,
}

-- The words that say what `o` holds, one option for each member.
pub command_line : Options → List Text
command_line o = switch_word o.publish (codes "-P") (
    switch_word o.subscribe (codes "-S") (
      switch_word o.best_effort (codes "-b") (
        switch_word o.reliable (codes "-r") (
          switch_word o.print_writer_samples (codes "-w") (
            switch_word o.read_only (codes "-R") (
              switch_word o.ordered_access (codes "--ordered") (
                switch_word o.coherent_access (codes "--coherent") (
                  switch_word o.take_read (codes "--take-read") (
                    option_word o.color (codes "-c") (
                      option_word o.partition (codes "-p") (
                        option_word o.cft_expression (codes "--cft") (
                          option_word o.config_path (codes "--config") (
                            codes "-d"
                            ∷ (to_string o.domain_id)
                            ∷ codes "-n"
                            ∷ (to_string o.num_instances)
                            ∷ codes "--additional-payload"
                            ∷ (to_string o.additional_payload)
                            ∷ codes "--num-topics"
                            ∷ (to_string o.num_topics)
                            ∷ codes "--coherent-sample-count"
                            ∷ (to_string o.coherent_sample_count)
                            ∷ codes "--periodic-announcement"
                            ∷ (to_string o.periodic_announcement_ms)
                            ∷ codes "-f"
                            ∷ (to_string o.deadline_ms)
                            ∷ codes "--lifespan"
                            ∷ (to_string o.lifespan_ms)
                            ∷ codes "--time-filter"
                            ∷ (to_string o.time_filter_ms)
                            ∷ codes "-k"
                            ∷ (int_to_string o.history_depth)
                            ∷ codes "-s"
                            ∷ (int_to_string o.ownership_strength)
                            ∷ codes "-z"
                            ∷ (int_to_string o.shapesize)
                            ∷ codes "--size-modulo"
                            ∷ (int_to_string o.size_modulo)
                            ∷ codes "--write-period"
                            ∷ (int_to_string o.write_period_ms)
                            ∷ codes "--read-period"
                            ∷ (int_to_string o.read_period_ms)
                            ∷ codes "-i"
                            ∷ (int_to_string o.num_iterations)
                            ∷ codes "-D"
                            ∷ (char_word o.durability)
                            ∷ codes "--access-scope"
                            ∷ (char_word o.access_scope)
                            ∷ codes "--final-instance-state"
                            ∷ (char_word o.final_instance_state)
                            ∷ codes "-t"
                            ∷ o.topic_name
                            ∷ codes "-x"
                            ∷ (to_string o.data_representation)
                            ∷ codes "-Z"
                            ∷ (to_string o.datafrag_size)
                            ∷ [])))))))))))))

parse_args-parse_loop : (argv : List Text) → parse_args argv ≡ parse_loop argv none default_options
unfolding parse_args
parse_args-parse_loop argv = refl

parse_loop-nil : (o : Options) → parse_loop [] none o ≡ stop (accepted o)
unfolding parse_loop
parse_loop-nil o = refl

-- Options within the ranges of their types, with a data representation of 1 or 2 and with durability
-- and access-scope bytes that are not 0, are what `parse_args` makes of the command line printed from
-- them, without a line on stderr.
pub parse_args-command_line :
    (o : Options)
    → IsWellFormed o
    → 0 < o.durability
    → 0 < o.access_scope
    → parse_args (command_line o) ≡ stop (accepted o)
unfolding command_line
parse_args-command_line o w lasting scoped =
    parse_args-parse_loop (command_line o)
    ∙ publish_step o.publish _ default_options refl
    ∙ subscribe_step o.subscribe _ _ refl
    ∙ best_effort_step o.best_effort _ _ refl
    ∙ reliable_step o.reliable _ _ refl
    ∙ print_writer_samples_step o.print_writer_samples _ _ refl
    ∙ read_only_step o.read_only _ _ refl
    ∙ ordered_access_step o.ordered_access _ _ refl
    ∙ coherent_access_step o.coherent_access _ _ refl
    ∙ take_read_step o.take_read _ _ refl
    ∙ color_step o.color _ _ refl
    ∙ partition_step o.partition _ _ refl
    ∙ cft_expression_step o.cft_expression _ _ refl
    ∙ config_path_step o.config_path _ _ refl
    ∙ domain_id_step o.domain_id _ _ w.domain
    ∙ num_instances_step o.num_instances _ _ w.instances
    ∙ additional_payload_step o.additional_payload _ _ w.payload
    ∙ num_topics_step o.num_topics _ _ w.topics
    ∙ coherent_sample_count_step o.coherent_sample_count _ _ w.sample_count
    ∙ periodic_announcement_ms_step o.periodic_announcement_ms _ _ w.announcement
    ∙ deadline_ms_step o.deadline_ms _ _ w.deadline
    ∙ lifespan_ms_step o.lifespan_ms _ _ w.lifespan
    ∙ time_filter_ms_step o.time_filter_ms _ _ w.time_filter
    ∙ history_depth_step o.history_depth _ _ w.history
    ∙ ownership_strength_step o.ownership_strength _ _ w.strength
    ∙ shapesize_step o.shapesize _ _ w.size
    ∙ size_modulo_step o.size_modulo _ _ w.modulo
    ∙ write_period_ms_step o.write_period_ms _ _ w.write_period
    ∙ read_period_ms_step o.read_period_ms _ _ w.read_period
    ∙ num_iterations_step o.num_iterations _ _ w.iterations
    ∙ durability_step o.durability _ _ lasting
    ∙ access_scope_step o.access_scope _ _ scoped
    ∙ final_instance_state_step o.final_instance_state _ _
    ∙ topic_name_step o.topic_name _ _
    ∙ data_representation_step o.data_representation _ _ w.representation
    ∙ datafrag_size_step o.datafrag_size _ _ w.datafrag
    ∙ parse_loop-nil o
