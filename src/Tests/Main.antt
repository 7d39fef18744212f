-- ===== src/Tests/Main.antt =====
-- Starts of the shape application.
use zzdds_examples.Base.{List, [], ◌∷◌}
use zzdds_examples.Base.Text.{Text, codes}
use zzdds_examples.Runtime.Program.{Env}
use zzdds_examples.Runtime.Contract.{Does}
use zzdds_examples.Shape.Sample.{ShapeType}
use zzdds_examples.Shape.Publisher.{PubRun, WriterCallback}
use zzdds_examples.Shape.Main.{prepare}
use zzdds_examples.Shape.Main.Prepared.{Any, Prepared, Status, prepare-Prepared}
use zzdds_examples.Tests.Worlds.{willing}

abbrev words : List Text
words = codes "-P" ∷ codes "--num-topics" ∷ codes "3" ∷ codes "-Z" ∷ codes "9000" ∷ []

abbrev silent : Env ShapeType WriterCallback
silent = willing (λ log. [])

prepare-Prepared_example :
    Does (Any {St = PubRun}) (prepare silent words) (λ opts _. Prepared opts) Status
prepare-Prepared_example = prepare-Prepared silent words
