-- ===== src/Tests/ShapePublisher.antt =====
-- Runs of the shape publisher.
use zzdds_examples.Base.{ℕ, ◌≡◌, refl, true, [], ◌∷◌, arith, inr, All}
use zzdds_examples.Base.Text.{codes}
use zzdds_examples.Base.Int.{pos}
use zzdds_examples.Runtime.Event.{samples, failures, written}
use zzdds_examples.Runtime.Program.{Env}
use zzdds_examples.Runtime.Contract.{Holds, Does, At, Failed}
use zzdds_examples.Shape.Options.{Options, default_options}
use zzdds_examples.Shape.Sample.{ShapeType}
use zzdds_examples.Shape.Topics.{create_extra_topics}
use zzdds_examples.Shape.Topics.Created.{Gives, create_extra_topics_complete}
use zzdds_examples.Shape.Topics.Distinct.{instance_color_injective}
use zzdds_examples.Shape.Publisher.{PubRun, WriterCallback, offered_deadline_missed}
use zzdds_examples.Shape.Publisher.Samples.{InBounds, SizeOption}
use zzdds_examples.Shape.Publisher.Run.{run_publisher}
use zzdds_examples.Shape.Publisher.Run.Safety.{start, run_publisher_in_bounds}
use zzdds_examples.Shape.Publisher.Run.Termination.{Over, run_publisher_ends}
use zzdds_examples.Tests.Worlds.{willing}

-- Two topics with two instances each, and a size that goes from 1 to 3.
abbrev cycling : Options
cycling = record default_options {
  publish = true;
  num_iterations = pos 5;
  num_topics = 2;
  num_instances = 2;
  shapesize = pos 0;
  size_modulo = pos 3;
}

abbrev late : Env ShapeType WriterCallback
late = willing (λ log. offered_deadline_missed (codes "Square") 1 1 ∷ [])

run_publisher_ends_example : Holds (λ _ _. ⊥) Over (run_publisher late cycling 6 (start cycling))
unfolding failures
run_publisher_ends_example =
    run_publisher_ends late cycling 5 refl refl (omega arith) (start cycling) refl

run_publisher_in_bounds_example :
    All InBounds (written (run_publisher late cycling 4 (start cycling)).1.log)
unfolding SizeOption
run_publisher_in_bounds_example =
    run_publisher_in_bounds late cycling (inr (refl, omega arith, omega arith)) 4

create_extra_topics_complete_example :
    Does
      (At samples (λ _ _. Unit {0}))
      (create_extra_topics late (codes "Square") 3)
      (λ r w. At samples (λ _ _. Unit {0}) w × Gives (codes "Square") 3 r)
      (Failed {St = PubRun} samples (λ _. Unit {0}))
create_extra_topics_complete_example =
    create_extra_topics_complete late (codes "Square") {seen = samples} {J = λ _ _. Unit {0}}
      {K = λ _. Unit {0}} (λ s name. refl) (λ name type_name. refl) 3

abbrev three : ℕ
three = 3

instance_color_injective_example : three ≡ 3
instance_color_injective_example = instance_color_injective (codes "BLUE") 3 3 refl
