-- ===== src/Tests/Args.antt =====
-- Runs of `parse_args`.
use zzdds_examples.Base.{◌≡◌, refl, true, List, [], ◌∷◌, some, arith}
use zzdds_examples.Base.Text.{Text, codes}
use zzdds_examples.Base.Int.{pos, negsuc}
use zzdds_examples.Base.Number.{strtoul}
use zzdds_examples.Shape.Options.{Options, default_options}
use zzdds_examples.Shape.Args.{unknown_option, accepted, stop, parse_args}
use zzdds_examples.Shape.Args.RoundTrip.{command_line, parse_args-command_line}

abbrev publisher_options : Options
publisher_options = record default_options {
  publish = true;
  domain_id = 4294967295;
  history_depth = negsuc 2147483647;
  color = some (codes "RED");
  deadline_ms = 2000;
  num_iterations = pos 9223372036854775807;
  size_modulo = pos 50;
}

parse_args-command_line_example :
    parse_args (command_line publisher_options) ≡ stop (accepted publisher_options)
parse_args-command_line_example =
    parse_args-command_line publisher_options (ground arith) (omega arith) (omega arith)

abbrev words : List Text
words = codes "-P" ∷ codes "--verbose" ∷ codes "-x" ∷ codes "2" ∷ []

abbrev word_options : Options
word_options = record default_options { publish = true; data_representation = 2 }

parse_words :
    parse_args words
    ≡ record { parsed = accepted word_options; warnings = unknown_option (codes "--verbose") ∷ [] }
unfolding parse_args strtoul
parse_words = refl
