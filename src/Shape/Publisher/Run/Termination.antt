-- ===== src/Shape/Publisher/Run/Termination.antt =====
-- A finite run of the shape publisher without coherent or ordered access ends.
use Prim.Native.String.{String}
use zzdds_examples.Base.{
  ℕ, zero, suc, ◌+◌, ◌<◌, ◌≤◌, ◌≡◌, refl, ◌||◌, Bool, true, false, Option, some, List, [], ◌∷◌, leb,
  length, get_elem?, arith, Bool-cases, inl, inr,
}
use zzdds_examples.Base.Text.{Text}
use zzdds_examples.Base.Int.{pos}
use zzdds_examples.Dds.{WriterQos}
use zzdds_examples.Runtime.Program.{World, M, Env, invoke, check}
use zzdds_examples.Runtime.Event.{Arg, Call, samples, failures}
use zzdds_examples.Runtime.Contract.{
  Does, At, Failed, Ends, Holds, Covers, bind, chain, given, weaken, or_done, when-Does,
  for_range-Does, for_each-Does, if-Does, exit-Does, known, signalled-Does, get-Does, return-Does,
}
use zzdds_examples.Runtime.Contract.Seen.{
  emit-At, modify-At, fail-At, check-At, invoke-At, query-At, must_create-keeps, must_return-keeps,
}
use zzdds_examples.Runtime.Wait.{deliver-At}
use zzdds_examples.Shape.Options.{Options}
use zzdds_examples.Shape.Sample.{ShapeType}
use zzdds_examples.Shape.Qos.{build_writer_qos}
use zzdds_examples.Shape.Topics.{ExtraTopics, found, extra}
use zzdds_examples.Shape.Topics.Created.{IsComplete, Gives, create_extra_topics_complete}
use zzdds_examples.Shape.Publisher.{
  PubRun, WriterCallback, offered_incompatible_qos, offered_deadline_missed, writer_listener, grow,
  paint, gating, place, write_shape, plain_round, write_round, look_for_reader,
}
use zzdds_examples.Shape.Publisher.Run.{
  publish, finished, end_instance, await_acknowledgments, end_instances, create_writers,
  run_publisher,
}

-- No line on stderr so far.
abbrev Quiet : World ShapeType PubRun → Type 0
Quiet = At samples (λ _ _. Unit {0})

-- The end of a process.
abbrev pub Over : ℕ → World ShapeType PubRun → Type 0
Over = Ends samples (λ w. failures w.log ≡ 0) (λ _. Unit {0})

abbrev Goes : {A : Type 0} → M ShapeType PubRun A → Type 0
Goes m = Does Quiet m (λ _. Quiet) Over

anyhow : Covers {St = PubRun} {X = ShapeType} (λ _ _. Unit {0}) (λ _. Unit {0})
anyhow st xs h = h

module _ (env : Env ShapeType WriterCallback) (opts : Options) where
  writer_listener-Goes :
      (c : WriterCallback)
      → Does Quiet (writer_listener c) (λ _. Quiet) (Failed samples (λ _. Unit {0}))
  unfolding writer_listener
  writer_listener-Goes (offered_incompatible_qos topic id) = emit-At _ refl refl
  writer_listener-Goes (offered_deadline_missed topic total change) = emit-At _ refl refl

  place-Goes : Goes (place env opts)
  unfolding place
  place-Goes =
      bind (or_done (query-At env _ λ st xs h. h))
        λ x. bind (or_done (query-At env _ λ st xs h. h)) λ y. or_done (modify-At _ λ st xs h. h)

  asked : (c : Call ShapeType) → Does Quiet (invoke env c) (λ _. Quiet) Over
  asked c = or_done (invoke-At env c λ st xs h. h)

  tested : (b : Bool) (s : String) (args : List Arg) → Goes (check b s args)
  tested b s args = weaken (or_done (check-At b s args anyhow)) (λ a w h. h.0)

  write_shape-Goes : (ti : ℕ) (name : Text) → Goes (write_shape env opts ti name)
  unfolding write_shape
  write_shape-Goes ti name = bind get-Does λ st.
      given (λ w h. h.0)
        (bind (asked _) λ rc. chain (tested _ _ _) (when-Does _ (or_done (emit-At _ refl refl))))

  grow-Goes : Goes (grow opts)
  unfolding grow
  grow-Goes = when-Does _ (or_done (modify-At _ λ st xs h. h))

  paint-Goes : (inst : ℕ) → Goes (paint opts inst)
  unfolding paint
  paint-Goes inst = or_done (modify-At _ λ st xs h. h)

  plain_round-Goes : (names : List Text) → Goes (plain_round env opts names)
  unfolding plain_round
  plain_round-Goes names = chain place-Goes (
      chain
        (for_each-Does _
          (λ ti name.
            for_range-Does _ (λ inst. chain (paint-Goes inst) (write_shape-Goes ti name)) 0 _)
          0 names)
        grow-Goes)

  look_for_reader-Goes :
      (name : Text) (match_deadline : ℕ) → Goes (look_for_reader env opts name match_deadline)
  unfolding look_for_reader
  look_for_reader-Goes name match_deadline = bind get-Does λ st.
      given (λ w h. h.0)
        (if-Does _ (return-Does tt) (
          bind (or_done (query-At env _ λ st xs h. h)) λ current_count.
            if-Does _ (chain (or_done (emit-At _ refl refl)) (or_done (modify-At _ λ st xs h. h))) (
              bind (or_done (query-At env _ λ st xs h. h))
                λ now. if-Does _ (exit-Does 0 λ w h. inl (refl, h.quiet)) (return-Does tt))))

  module _ (n : ℕ) (finite : opts.num_iterations ≡ pos n) (plain : gating opts ≡ false) where
    finished-leb : (iteration : ℕ) → finished opts iteration ≡ leb n iteration
    finished-leb iteration = rw finite refl

    or_true : (b : Bool) → (b || true) ≡ true
    or_true true = refl
    or_true false = refl

    publish-Goes :
        (names : List Text) (name : Text) (match_deadline fuel iteration : ℕ)
        → iteration ≤ n
        → n < fuel + iteration
        → Goes (publish env opts names name match_deadline fuel iteration)
    unfolding publish write_round
    publish-Goes names name match_deadline zero iteration low high = absurd (omega arith)
    publish-Goes names name match_deadline (suc fuel) iteration low high =
        chain (or_done (deliver-At env _ writer_listener-Goes)) (
          bind (signalled-Does env) λ all_done. elim (Bool-cases (leb n iteration)) [
            | inl last ↦ rw (finished-leb iteration, last, or_true all_done) (return-Does tt)
            | inr more ↦ if-Does _ (return-Does tt) (
                chain (look_for_reader-Goes name match_deadline) (
                  bind get-Does λ st.
                    given (λ w h. h.0)
                      (rw plain (
                        chain (plain_round-Goes names) (
                          chain (or_done (emit-At _ refl refl)) (
                            publish-Goes names name match_deadline fuel (suc iteration)
                              (ground arith) (omega arith)))))))
          ])

  end_instances-Goes : (n : ℕ) → Goes (end_instances env opts n)
  unfolding end_instances end_instance await_acknowledgments
  end_instances-Goes n = when-Does _ (
      chain
        (for_range-Does _
          (λ ti.
            for_range-Does _
              (λ inst.
                if-Does _ (bind (asked _) λ rc. tested _ _ _) (bind (asked _) λ rc. tested _ _ _))
              0 _)
          0 n)
        (for_range-Does _ (λ ti. bind (asked _) λ rc. tested _ _ _) 0 n))

  found-Goes : {A : Type 0} (o : Option A) (a : A) → o ≡ some a → Goes (found o)
  unfolding found
  found-Goes o a e = rw e (return-Does a)

  extra-Goes :
      (base : Text) (n : ℕ) (o : Option ExtraTopics)
      → Gives base n o
      → Does Quiet (extra o) (λ et w. Quiet w × IsComplete base n et) Over
  unfolding extra
  extra-Goes base n o (inl e) = rw e (or_done (fail-At _ _ anyhow))
  extra-Goes base n o (inr (et, e, complete)) = rw e (given (λ w h. (h, complete)) (return-Does et))

  create_writers-Goes :
      (et : ExtraTopics) (qos : WriterQos) (i count : ℕ)
      → IsComplete opts.topic_name opts.num_topics et
      → i + count ≡ opts.num_topics
      → Does Quiet
          (create_writers env opts et qos i count)
          (λ names w. Quiet w × (length names ≡ count))
          Over
  unfolding create_writers
  create_writers-Goes et qos i zero complete e = given (λ w h. (h, refl)) (return-Does [])
  create_writers-Goes et qos i (suc count) complete e =
      bind (found-Goes _ _ (complete.named i (omega arith))) λ name.
        bind (found-Goes _ _ (complete.topic i (omega arith))) λ topic.
          chain (or_done (must_create-keeps env _ _ _ refl anyhow)) (
            chain (or_done (emit-At _ refl refl)) (
              bind (create_writers-Goes et qos (suc i) count complete (omega arith))
                λ names. given (λ w h. (h.0, rw h.1 refl)) (return-Does (name ∷ names))))

  build_writer_qos-Goes : Goes (build_writer_qos env opts)
  unfolding build_writer_qos
  build_writer_qos-Goes = chain (or_done (must_return-keeps env _ _ _ refl anyhow)) (return-Does _)

  first :
      (names : List Text) (count : ℕ)
      → length names ≡ count
      → 0 < count
      → (name : Text) × (get_elem? names 0 ≡ some name)
  first [] count e h = absurd (omega (arith, e))
  first (name ∷ names) count e h = (name, refl)

  module _ (n : ℕ) (finite : opts.num_iterations ≡ pos n) (plain : gating opts ≡ false)
      (topics : 0 < opts.num_topics) where
    run-Does : Does Quiet (run_publisher env opts (suc n)) (λ _ _. ⊥) Over
    unfolding run_publisher
    run-Does =
        bind
          (or_done (
            create_extra_topics_complete env opts.topic_name {K = λ _. Unit {0}} (λ s name. refl)
              (λ name type_name. refl) opts.num_topics))
          λ created. known λ gives.
            bind (extra-Goes opts.topic_name opts.num_topics created gives) λ et. known λ complete.
              chain (or_done (must_create-keeps env _ _ _ refl anyhow)) (
                bind build_writer_qos-Goes λ qos.
                  bind (create_writers-Goes et qos 0 _ complete (omega arith)) λ names. known λ len.
                    let (name, there) = first names _ len topics in
                    chain (or_done (modify-At _ λ st xs h. h)) (
                      bind (or_done (query-At env _ λ st xs h. h)) λ seed.
                        bind (or_done (query-At env _ λ st xs h. h)) λ now.
                          bind (found-Goes _ name there) λ first_name.
                            chain
                              (publish-Goes n finite plain names first_name _ (suc n) 0
                                (omega arith) (omega arith))
                              (chain (end_instances-Goes _)
                                (exit-Does 0 λ w h. inl (refl, h.quiet)))))

    -- Without coherent or ordered access, a publisher of n iterations ends within n + 1 rounds of its
    -- loop, whatever the library answers: with status 0 and nothing on stderr, or with status 1 and
    -- one line on stderr. It never looks past the end of a vector.
    pub run_publisher_ends :
        (w : World ShapeType PubRun)
        → failures w.log ≡ 0
        → Holds (λ _ _. ⊥) Over (run_publisher env opts (suc n) w)
    run_publisher_ends w quiet = run-Does.run w record { quiet = quiet; holds = tt }
