-- ===== src/Shape/Publisher/Run/Safety.antt =====
-- Every run of the shape publisher, of whatever length, writes samples that the subscriber accepts.
use zzdds_examples.Base.{ℕ, zero, suc, false, Option, none, some, List, [], All}
use zzdds_examples.Base.Text.{Text}
use zzdds_examples.Dds.{WriterQos}
use zzdds_examples.Runtime.Program.{World, M, Env}
use zzdds_examples.Runtime.Event.{written, observed}
use zzdds_examples.Runtime.Invariant.{
  Always, Always-bind, Always-chain, Always-get, Always-given, Always-when, Always-range, Always-if,
  Always-return, Always-exit, Always-out_of_fuel, Always-out_of_range, Always-deliver, emit-Sound,
  modify-Sound, fail-Sound, check-Sound, signalled-Sound, invoke-Sound, query-Sound,
  must_create-Sound, must_return-Sound,
}
use zzdds_examples.Shape.Options.{Options}
use zzdds_examples.Shape.Sample.{ShapeType}
use zzdds_examples.Shape.Qos.{build_writer_qos}
use zzdds_examples.Shape.Topics.{ExtraTopics, found, extra}
use zzdds_examples.Shape.Topics.Created.{create_extra_topics-Sound}
use zzdds_examples.Shape.Publisher.{
  PubRun, WriterCallback, offered_incompatible_qos, offered_deadline_missed, writer_listener,
  first_shape, look_for_reader,
}
use zzdds_examples.Shape.Publisher.Samples.{
  SizeOption, InBounds, Good, first_shape-Good, write_round-Good,
}
use zzdds_examples.Shape.Publisher.Run.{
  publish, end_instance, await_acknowledgments, end_instances, create_writers, run_publisher,
}

-- The locals of `run_publisher` at its start.
abbrev pub start : Options → World ShapeType PubRun
start opts = record {
  log = [];
  state = record { shape = first_shape opts; printed_matched = false };
}

module _ (env : Env ShapeType WriterCallback) (opts : Options) (sizes : SizeOption opts) where
  abbrev Stays : {A : Type 0} → M ShapeType PubRun A → Type 0
  Stays m = Always (Good opts sizes) (Good opts sizes) m

  writer_listener-Good : (c : WriterCallback) → Stays (writer_listener c)
  unfolding writer_listener
  writer_listener-Good (offered_incompatible_qos topic id) = emit-Sound _ tt
  writer_listener-Good (offered_deadline_missed topic total change) = emit-Sound _ tt

  look_for_reader-Good :
      (name : Text) (match_deadline : ℕ) → Stays (look_for_reader env opts name match_deadline)
  unfolding look_for_reader
  look_for_reader-Good name match_deadline = Always-get λ st.
      Always-given (λ w h. h.0)
        (Always-if _ (Always-return tt) (
          Always-bind (query-Sound env _ tt) λ current_count.
            Always-if _
              (Always-chain (emit-Sound _ tt) (
                modify-Sound _
                  λ st h. record { inside_x = h.inside_x; inside_y = h.inside_y; sized = h.sized }))
              (Always-bind (query-Sound env _ tt)
                λ now. Always-if _ (Always-exit 0) (Always-return tt))))

  publish-Good :
      (names : List Text) (name : Text) (match_deadline fuel iteration : ℕ)
      → Stays (publish env opts names name match_deadline fuel iteration)
  unfolding publish
  publish-Good names name match_deadline zero iteration = Always-out_of_fuel
  publish-Good names name match_deadline (suc fuel) iteration =
      Always-chain (Always-deliver env _ writer_listener-Good) (
        Always-bind (signalled-Sound env) λ all_done. Always-if _ (Always-return tt) (
          Always-chain (look_for_reader-Good name match_deadline) (
            Always-get λ st.
              Always-given (λ w h. h.0)
                (Always-if _
                  (Always-chain (emit-Sound _ tt)
                    (publish-Good names name match_deadline fuel iteration))
                  (Always-chain (write_round-Good opts sizes env names) (
                    Always-chain (emit-Sound _ tt)
                      (publish-Good names name match_deadline fuel (suc iteration))))))))

  end_instances-Good : (n : ℕ) → Stays (end_instances env opts n)
  unfolding end_instances end_instance await_acknowledgments
  end_instances-Good n = Always-when _ (
      Always-chain
        (Always-range _
          (λ ti.
            Always-range _
              (λ inst.
                Always-if _ (Always-bind (invoke-Sound env _ tt) λ rc. check-Sound _ _ _)
                  (Always-bind (invoke-Sound env _ tt) λ rc. check-Sound _ _ _))
              0 _)
          0 n)
        (Always-range _ (λ ti. Always-bind (invoke-Sound env _ tt) λ rc. check-Sound _ _ _) 0 n))

  found-Good : {A : Type 0} (o : Option A) → Stays (found o)
  unfolding found
  found-Good none = Always-out_of_range
  found-Good (some a) = Always-return a

  extra-Good : (o : Option ExtraTopics) → Stays (extra o)
  unfolding extra
  extra-Good none = fail-Sound _ _
  extra-Good (some et) = Always-return et

  create_writers-Good :
      (et : ExtraTopics) (qos : WriterQos) (i count : ℕ)
      → Stays (create_writers env opts et qos i count)
  unfolding create_writers
  create_writers-Good et qos i zero = Always-return []
  create_writers-Good et qos i (suc count) = Always-bind (found-Good _) λ name.
      Always-bind (found-Good _) λ topic. Always-chain (must_create-Sound env _ tt _ _) (
        Always-chain (emit-Sound _ tt)
          (Always-bind (create_writers-Good et qos (suc i) count) λ names. Always-return _))

  build_writer_qos-Good : Stays (build_writer_qos env opts)
  unfolding build_writer_qos
  build_writer_qos-Good = Always-chain (must_return-Sound env _ tt _ _) (Always-return _)

  run_publisher-Good : (fuel : ℕ) → Stays (run_publisher env opts fuel)
  unfolding run_publisher
  run_publisher-Good fuel = Always-bind (create_extra_topics-Sound env _ _) λ created.
      Always-bind (extra-Good created) λ et. Always-chain (must_create-Sound env _ tt _ _) (
        Always-bind build_writer_qos-Good λ qos.
          Always-bind (create_writers-Good et qos 0 _) λ names.
            Always-chain (modify-Sound _ λ st h. first_shape-Good opts sizes) (
              Always-bind (query-Sound env _ tt) λ seed. Always-bind (query-Sound env _ tt) λ now.
                Always-bind (found-Good _) λ name.
                  Always-chain (publish-Good names name _ fuel 0)
                    (Always-chain (end_instances-Good _) (Always-exit 0))))

  -- However long the publisher runs and however its run ends, with a shape size that is at least 1 or
  -- that cycles through 1 up to a modulus below 2^31 - 1, the subscriber's test of bounds accepts every
  -- sample that it has written.
  pub run_publisher_in_bounds :
      (fuel : ℕ) → All InBounds (written (run_publisher env opts fuel (start opts)).1.log)
  unfolding run_publisher observed
  run_publisher_in_bounds fuel =
      ((run_publisher-Good fuel).run (start opts)
        record { state_ok = first_shape-Good opts sizes; written_ok = tt }).written_ok
