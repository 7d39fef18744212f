-- ===== src/Shape/Args/Words/Switches.antt =====
-- The switches and the options that hold a text.
use zzdds_examples.Base.{◌≡◌, refl, sym, ◌∙◌, Bool, false, Option, none, some, List}
use zzdds_examples.Base.Text.{Text, codes}
use zzdds_examples.Shape.Options.{Options}
use zzdds_examples.Shape.Args.{Switch, Setting, flag_of, set_switch, set_value, parse_loop}
use zzdds_examples.Shape.Args.Words.{switch_word, option_word, switch_step, value_step}

pub publish_step :
    (b : Bool) (rest : List Text) (a : Options)
    → a.publish ≡ false
    → parse_loop (switch_word b (codes "-P") rest) none a
      ≡ parse_loop rest none (record a { publish = b })
unfolding flag_of set_switch
publish_step b rest a h =
    switch_step Switch.publish _ b rest a _ refl (λ e i. record a { publish = sym e i })
      (λ e i. record a { publish = (h ∙ sym e) i })

pub subscribe_step :
    (b : Bool) (rest : List Text) (a : Options)
    → a.subscribe ≡ false
    → parse_loop (switch_word b (codes "-S") rest) none a
      ≡ parse_loop rest none (record a { subscribe = b })
unfolding flag_of set_switch
subscribe_step b rest a h =
    switch_step Switch.subscribe _ b rest a _ refl (λ e i. record a { subscribe = sym e i })
      (λ e i. record a { subscribe = (h ∙ sym e) i })

pub best_effort_step :
    (b : Bool) (rest : List Text) (a : Options)
    → a.best_effort ≡ false
    → parse_loop (switch_word b (codes "-b") rest) none a
      ≡ parse_loop rest none (record a { best_effort = b })
unfolding flag_of set_switch
best_effort_step b rest a h =
    switch_step Switch.best_effort _ b rest a _ refl (λ e i. record a { best_effort = sym e i })
      (λ e i. record a { best_effort = (h ∙ sym e) i })

pub reliable_step :
    (b : Bool) (rest : List Text) (a : Options)
    → a.reliable ≡ false
    → parse_loop (switch_word b (codes "-r") rest) none a
      ≡ parse_loop rest none (record a { reliable = b })
unfolding flag_of set_switch
reliable_step b rest a h =
    switch_step Switch.reliable _ b rest a _ refl (λ e i. record a { reliable = sym e i })
      (λ e i. record a { reliable = (h ∙ sym e) i })

pub print_writer_samples_step :
    (b : Bool) (rest : List Text) (a : Options)
    → a.print_writer_samples ≡ false
    → parse_loop (switch_word b (codes "-w") rest) none a
      ≡ parse_loop rest none (record a { print_writer_samples = b })
unfolding flag_of set_switch
print_writer_samples_step b rest a h =
    switch_step Switch.print_writer_samples _ b rest a _ refl
      (λ e i. record a { print_writer_samples = sym e i })
      (λ e i. record a { print_writer_samples = (h ∙ sym e) i })

pub read_only_step :
    (b : Bool) (rest : List Text) (a : Options)
    → a.read_only ≡ false
    → parse_loop (switch_word b (codes "-R") rest) none a
      ≡ parse_loop rest none (record a { read_only = b })
unfolding flag_of set_switch
read_only_step b rest a h =
    switch_step Switch.read_only _ b rest a _ refl (λ e i. record a { read_only = sym e i })
      (λ e i. record a { read_only = (h ∙ sym e) i })

pub ordered_access_step :
    (b : Bool) (rest : List Text) (a : Options)
    → a.ordered_access ≡ false
    → parse_loop (switch_word b (codes "--ordered") rest) none a
      ≡ parse_loop rest none (record a { ordered_access = b })
unfolding flag_of set_switch
ordered_access_step b rest a h =
    switch_step Switch.ordered _ b rest a _ refl (λ e i. record a { ordered_access = sym e i })
      (λ e i. record a { ordered_access = (h ∙ sym e) i })

pub coherent_access_step :
    (b : Bool) (rest : List Text) (a : Options)
    → a.coherent_access ≡ false
    → parse_loop (switch_word b (codes "--coherent") rest) none a
      ≡ parse_loop rest none (record a { coherent_access = b })
unfolding flag_of set_switch
coherent_access_step b rest a h =
    switch_step Switch.coherent _ b rest a _ refl (λ e i. record a { coherent_access = sym e i })
      (λ e i. record a { coherent_access = (h ∙ sym e) i })

pub take_read_step :
    (b : Bool) (rest : List Text) (a : Options)
    → a.take_read ≡ false
    → parse_loop (switch_word b (codes "--take-read") rest) none a
      ≡ parse_loop rest none (record a { take_read = b })
unfolding flag_of set_switch
take_read_step b rest a h =
    switch_step Switch.take_read _ b rest a _ refl (λ e i. record a { take_read = sym e i })
      (λ e i. record a { take_read = (h ∙ sym e) i })

pub color_step :
    (v : Option Text) (rest : List Text) (a : Options)
    → a.color ≡ none
    → parse_loop (option_word v (codes "-c") rest) none a
      ≡ parse_loop rest none (record a { color = v })
unfolding flag_of set_value
color_step none rest a h = λ i. parse_loop rest none (record a { color = h i })
color_step (some v) rest a h = value_step Setting.color _ v rest a _ refl refl

pub partition_step :
    (v : Option Text) (rest : List Text) (a : Options)
    → a.partition ≡ none
    → parse_loop (option_word v (codes "-p") rest) none a
      ≡ parse_loop rest none (record a { partition = v })
unfolding flag_of set_value
partition_step none rest a h = λ i. parse_loop rest none (record a { partition = h i })
partition_step (some v) rest a h = value_step Setting.partition _ v rest a _ refl refl

pub cft_expression_step :
    (v : Option Text) (rest : List Text) (a : Options)
    → a.cft_expression ≡ none
    → parse_loop (option_word v (codes "--cft") rest) none a
      ≡ parse_loop rest none (record a { cft_expression = v })
unfolding flag_of set_value
cft_expression_step none rest a h = λ i. parse_loop rest none (record a { cft_expression = h i })
cft_expression_step (some v) rest a h = value_step Setting.cft _ v rest a _ refl refl

pub config_path_step :
    (v : Option Text) (rest : List Text) (a : Options)
    → a.config_path ≡ none
    → parse_loop (option_word v (codes "--config") rest) none a
      ≡ parse_loop rest none (record a { config_path = v })
unfolding flag_of set_value
config_path_step none rest a h = λ i. parse_loop rest none (record a { config_path = h i })
config_path_step (some v) rest a h = value_step Setting.config _ v rest a _ refl refl
