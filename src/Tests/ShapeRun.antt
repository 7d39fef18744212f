-- ===== src/Tests/ShapeRun.antt =====
-- Runs of the whole shape subscriber.
use mathlib.Core.List.{Permᴰ}
use zzdds_examples.Base.{
  ℕ, leb, ◌==◌, refl, true, inl, inr, List, [], ◌∷◌, if◌then◌else◌, Bool-cases, All, arith,
}
use zzdds_examples.Base.Text.{Text, codes}
use zzdds_examples.Base.Int.{pos}
use zzdds_examples.Dds.{InstanceState, SampleInfo, sample}
use zzdds_examples.Runtime.Event.{Log, samples, failures}
use zzdds_examples.Runtime.Program.{World, Env}
use zzdds_examples.Runtime.Contract.{Does, Holds, At}
use zzdds_examples.Apps.Common.Receiver.{NoSample}
use zzdds_examples.Shape.Options.{Options, default_options}
use zzdds_examples.Shape.Sample.{ShapeType, out_of_bounds}
use zzdds_examples.Shape.Subscriber.{SubRun, ReaderCallback, requested_deadline_missed}
use zzdds_examples.Shape.Subscriber.Accepts.{Fits, Agrees}
use zzdds_examples.Shape.Subscriber.Run.{Read, Readers, subscribe, run_subscriber}
use zzdds_examples.Shape.Subscriber.Run.Ends.{Over, run_subscriber_ends}
use zzdds_examples.Shape.Subscriber.Run.Accepts.{FitsRead, subscribe_accepts}
use zzdds_examples.Tests.Worlds.{willing}

-- A way to sort by handle.
insert : Read → List Read → List Read
insert r [] = r ∷ []
insert r (s ∷ rest) =
    let more = insert r rest in
    if leb r.0.instance_handle s.0.instance_handle then r ∷ s ∷ rest else s ∷ more

sort_by_handle : List Read → List Read
sort_by_handle [] = []
sort_by_handle (r ∷ rest) = insert r (sort_by_handle rest)

refl-Permᴰ : (rs : List Read) → Permᴰ rs rs
refl-Permᴰ [] = Permᴰ.nil
refl-Permᴰ (r ∷ rs) = Permᴰ.cons refl (refl-Permᴰ rs)

insert-Permᴰ : (r : Read) (rs : List Read) → Permᴰ (r ∷ rs) (insert r rs)
unfolding insert
insert-Permᴰ r [] = refl-Permᴰ _
insert-Permᴰ r (s ∷ rest) = elim (Bool-cases (leb r.0.instance_handle s.0.instance_handle)) [
  | inl before ↦ rw before (refl-Permᴰ _)
  | inr after ↦
      rw after (Permᴰ.trans (Permᴰ.swap refl refl) (Permᴰ.cons refl (insert-Permᴰ r rest)))
]

sort-Permᴰ : (rs : List Read) → Permᴰ rs (sort_by_handle rs)
unfolding sort_by_handle
sort-Permᴰ [] = Permᴰ.nil
sort-Permᴰ (r ∷ rest) = Permᴰ.trans (Permᴰ.cons refl (sort-Permᴰ rest)) (insert-Permᴰ r _)

abbrev key : ℕ → Text
key ih = if ih == 1 then codes "BLUE" else codes "RED"

abbrev alive : ℕ → SampleInfo
alive ih = record { valid_data = true; instance_state = InstanceState.alive; instance_handle = ih }

abbrev shape : ℕ → ShapeType
shape ih = record {
  color = key ih;
  x = pos 0;
  y = pos 239;
  shapesize = pos 1;
  additional_payload_size = [];
}

-- Each round gives a red and a blue shape.
abbrev two_shapes : Readers
two_shapes = record {
  taken = λ log ti. sample (alive 2) (shape 2) ∷ sample (alive 1) (shape 1) ∷ [];
  read = λ log ti. (alive 2, shape 2) ∷ (alive 1, shape 1) ∷ [];
}

-- Two topics, three rounds, without taking what is read.
abbrev reading : Options
reading = record default_options {
  subscribe = true;
  num_iterations = pos 3;
  num_topics = 2;
  read_only = true;
  coherent_access = true;
}

abbrev late : Env NoSample ReaderCallback
late = willing (λ log. requested_deadline_missed (codes "Square") 1 1 ∷ [])

abbrev fresh : World NoSample SubRun
fresh = record { log = []; state = record { ih_cache = [] } }

run_subscriber_ends_example :
    Holds (λ _ _. ⊥) Over (run_subscriber late reading two_shapes sort_by_handle 4 fresh)
unfolding failures
run_subscriber_ends_example =
    run_subscriber_ends late reading two_shapes sort_by_handle 3 refl (omega arith) fresh refl

shapes_fit : (log : Log NoSample) (ti : ℕ) → All (Fits key) (two_shapes.taken log ti)
unfolding Fits out_of_bounds
shapes_fit log ti = (inl (refl, refl, refl), (inl (refl, refl, refl), tt))

reads_fit : (log : Log NoSample) (ti : ℕ) → All (FitsRead key) (two_shapes.read log ti)
unfolding FitsRead out_of_bounds
reads_fit log ti = (inl (refl, refl, refl), (inl (refl, refl, refl), tt))

subscribe_accepts_example :
    Does
      (At samples (λ st _. Agrees key st.ih_cache))
      (subscribe late reading two_shapes sort_by_handle (codes "Square" ∷ codes "Square1" ∷ []) 4 0)
      (λ _. At samples (λ st _. Agrees key st.ih_cache))
      (λ _ _. ⊥)
subscribe_accepts_example =
    subscribe_accepts key late reading two_shapes sort_by_handle sort-Permᴰ shapes_fit reads_fit 3 4
      (codes "Square" ∷ codes "Square1" ∷ []) refl (omega arith)
