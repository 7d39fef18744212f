-- ===== src/Shape/Subscriber/Run/Ends.antt =====
-- How a run of the shape subscriber ends.
use zzdds_examples.Base.{
  ℕ, zero, suc, ◌+◌, ◌<◌, ◌≡◌, refl, Bool, true, false, Option, none, some, List, [], ◌∷◌, arith,
  Bool-cases, inl, inr,
}
use zzdds_examples.Base.Text.{Text}
use zzdds_examples.Base.Int.{pos}
use zzdds_examples.Dds.{InstanceState, ReaderQos, Taken, sample, take_error}
use zzdds_examples.Runtime.Program.{World, M, Env}
use zzdds_examples.Runtime.Event.{samples, failures, take, read_n, delete_contentfilteredtopic}
use zzdds_examples.Runtime.Contract.{
  Does, At, Failed, Ends, Holds, Covers, bind, chain, given, or_done, when-Does, if-Does, exit-Does,
  known, get-Does, return-Does,
}
use zzdds_examples.Runtime.Contract.Seen.{
  emit-At, modify-At, fail-At, invoke-At, invoke_with-At, unwritten, must_create-keeps,
  must_return-keeps,
}
use zzdds_examples.Apps.Common.Receiver.{NoSample}
use zzdds_examples.Shape.Options.{Options}
use zzdds_examples.Shape.Sample.{ShapeType, out_of_bounds}
use zzdds_examples.Shape.Qos.{build_reader_qos}
use zzdds_examples.Shape.Topics.{ExtraTopics, found, extra}
use zzdds_examples.Shape.Topics.Created.{IsComplete, Gives, create_extra_topics_complete}
use zzdds_examples.Shape.Subscriber.{
  SubRun, ReaderCallback, find, differs, key_color, assert_sample_content, print_not_alive,
  print_sample, accept_sample, take_all,
}
use zzdds_examples.Shape.Subscriber.Run.{
  Read, Readers, read_all, create_cft, describe, create_readers, read_topic, run_subscriber,
}
use zzdds_examples.Shape.Subscriber.Run.Loop.{Steps, subscribe-Steps}

-- Nothing is asked of the state.
abbrev Any : SubRun → List NoSample → Type 0
Any st xs = Unit

abbrev Anything : List NoSample → Type 0
Anything xs = Unit

abbrev Quiet : World NoSample SubRun → Type 0
Quiet = At samples Any

-- The end of a process.
abbrev pub Over : ℕ → World NoSample SubRun → Type 0
Over = Ends samples (λ w. failures w.log ≡ 0) Anything

abbrev Goes : {A : Type 0} → M NoSample SubRun A → Type 0
Goes m = Steps Any Anything m

anyhow : Covers Any Anything
anyhow st xs h = h

key_color-Goes : (ih : ℕ) (v : ShapeType) → Goes (key_color ih v)
unfolding key_color
key_color-Goes ih v =
    if-Does _ (return-Does _)
      (bind get-Does λ st. given (λ w h. h.0) (chain (modify-At _ (λ st xs h. h)) (return-Does _)))

assert-Goes : (ih : ℕ) (v : ShapeType) → Goes (assert_sample_content ih v)
unfolding assert_sample_content
assert-Goes ih v = bind get-Does λ st.
    given (λ w h. h.0)
      (elim (Bool-cases (differs (find st.ih_cache ih) v.color)) [
        | inl changed ↦ rw changed (fail-At _ _ anyhow)
        | inr same ↦ elim (Bool-cases (out_of_bounds v)) [
          | inl outside ↦ rw (same, outside) (fail-At _ _ anyhow)
          | inr inside ↦ rw (same, inside) (return-Does tt)
        ]
      ])

print-Goes : (topic : Text) (v : ShapeType) (bytes : List ℕ) → Goes (print_sample topic v bytes)
unfolding print_sample
print-Goes topic v [] = emit-At _ refl refl
print-Goes topic v (b ∷ bytes) = emit-At _ refl refl

accept-Goes : (topic : Text) (ih : ℕ) (v : ShapeType) → Goes (accept_sample topic ih v)
unfolding accept_sample
accept-Goes topic ih v =
    chain (assert-Goes ih v)
      (chain (modify-At _ (λ st xs h. h)) (print-Goes topic v v.additional_payload_size))

print_not_alive-Goes :
    (topic color : Text) (state : InstanceState) → Goes (print_not_alive topic color state)
unfolding print_not_alive
print_not_alive-Goes topic color state = emit-At _ refl refl

take_all-Goes : (topic : Text) (ts : List (Taken ShapeType)) → Goes (take_all topic ts)
unfolding take_all
take_all-Goes topic [] = return-Does tt
take_all-Goes topic (take_error rc ∷ rest) = return-Does tt
take_all-Goes topic (sample info v ∷ rest) =
    if-Does _ (chain (accept-Goes topic _ v) (take_all-Goes topic rest)) (
      if-Does _
        (bind (key_color-Goes _ v)
          λ color. chain (print_not_alive-Goes _ _ _) (take_all-Goes topic rest))
        (return-Does tt))

read_all-Goes : (topic : Text) (rs : List Read) → Goes (read_all topic rs)
unfolding read_all
read_all-Goes topic [] = return-Does tt
read_all-Goes topic ((info, v) ∷ rest) =
    chain
      (if-Does _ (bind (key_color-Goes _ v) λ color. print_not_alive-Goes _ _ _)
        (accept-Goes topic _ v))
      (read_all-Goes topic rest)

module _ (env : Env NoSample ReaderCallback) (opts : Options) where
  create_cft-Goes : (o : Option Text) → Goes (create_cft env opts o)
  unfolding create_cft
  create_cft-Goes none = return-Does false
  create_cft-Goes (some e) = chain (must_create-keeps env _ _ _ refl anyhow) (return-Does true)

  describe-Goes : (cft : Bool) (i : ℕ) (name : Text) → Goes (describe env opts cft i name)
  unfolding describe
  describe-Goes cft i name =
      if-Does _ (return-Does _) (chain (must_create-keeps env _ _ _ refl anyhow) (return-Does name))

  build_reader_qos-Goes : Goes (build_reader_qos env opts)
  unfolding build_reader_qos
  build_reader_qos-Goes = chain (must_return-keeps env _ _ _ refl anyhow) (return-Does _)

  extra-Goes :
      (base : Text) (n : ℕ) (o : Option ExtraTopics)
      → Gives base n o
      → Does Quiet (extra o) (λ et w. Quiet w × IsComplete base n et) (Failed samples Anything)
  unfolding extra
  extra-Goes base n o (inl e) = rw e (fail-At _ _ anyhow)
  extra-Goes base n o (inr (et, e, complete)) = rw e (given (λ w h. (h, complete)) (return-Does et))

  found-Goes : {A : Type 0} (o : Option A) (a : A) → o ≡ some a → Goes (found o)
  unfolding found
  found-Goes o a e = rw e (return-Does a)

  create_readers-Goes :
      (et : ExtraTopics) (cft : Bool) (qos : ReaderQos) (i count : ℕ)
      → IsComplete opts.topic_name opts.num_topics et
      → i + count ≡ opts.num_topics
      → Goes (create_readers env opts et cft qos i count)
  unfolding create_readers
  create_readers-Goes et cft qos i zero complete e = return-Does []
  create_readers-Goes et cft qos i (suc count) complete e =
      bind (found-Goes _ _ (complete.named i (omega arith))) λ name.
        bind (describe-Goes cft i name) λ topic. chain (emit-At _ refl refl) (
          chain (must_create-keeps env _ _ _ refl anyhow) (
            bind (create_readers-Goes et cft qos (suc i) count complete (omega arith))
              λ names. return-Does (name ∷ names)))

  module _ (readers : Readers) (sort : List Read → List Read) where
    read_topic-Goes : (ti : ℕ) (name : Text) → Goes (read_topic env opts readers sort ti name)
    unfolding read_topic
    read_topic-Goes ti name =
        if-Does _
          (bind
            (invoke_with-At env {J' = Any} _ _
              (unwritten {S = NoSample} samples Any (read_n ti) refl))
            λ r. read_all-Goes name _)
          (bind
            (invoke_with-At env {J' = Any} _ _
              (unwritten {S = NoSample} samples Any (take ti) refl))
            λ r. take_all-Goes name r.1)

    module _ (n : ℕ) (finite : opts.num_iterations ≡ pos n) (topics : 0 < opts.num_topics) where
      run-Does : Does Quiet (run_subscriber env opts readers sort (suc n)) (λ _ _. ⊥) Over
      unfolding run_subscriber
      run-Does =
          bind
            (or_done (
              create_extra_topics_complete env opts.topic_name {K = Anything} (λ s name. refl)
                (λ name type_name. refl) opts.num_topics))
            λ created. known λ gives.
              bind (or_done (extra-Goes opts.topic_name opts.num_topics created gives)) λ et.
                known λ complete. bind (or_done (create_cft-Goes _)) λ cft.
                  chain (or_done (must_create-keeps env _ _ _ refl anyhow)) (
                    bind (or_done build_reader_qos-Goes) λ qos.
                      bind (or_done (create_readers-Goes et cft qos 0 _ complete (omega arith)))
                        λ names. chain (or_done (modify-At _ λ st xs h. h)) (
                          chain
                            (or_done (
                              subscribe-Steps env opts readers sort read_topic-Goes n finite names
                                (suc n) 0 (omega arith) (omega arith)))
                            (chain
                              (when-Does _ (
                                bind
                                  (or_done (
                                    invoke-At env {J' = Any} _ (
                                      unwritten {S = NoSample} samples Any
                                        delete_contentfilteredtopic refl)))
                                  λ rc. return-Does tt))
                              (exit-Does 0 λ w h. inl (refl, h.quiet)))))

      -- A subscriber of n iterations ends within n + 1 rounds of its loop, in both ways to read, whatever
      -- the library answers and delivers: with status 0 and nothing on stderr, or with status 1 and one
      -- line on stderr. It never looks past the end of a vector.
      pub run_subscriber_ends :
          (w : World NoSample SubRun)
          → failures w.log ≡ 0
          → Holds (λ _ _. ⊥) Over (run_subscriber env opts readers sort (suc n) w)
      run_subscriber_ends w quiet = run-Does.run w record { quiet = quiet; holds = tt }
