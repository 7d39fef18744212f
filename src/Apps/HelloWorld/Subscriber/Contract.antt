-- ===== src/Apps/HelloWorld/Subscriber/Contract.antt =====
-- How a run of the hello_world subscriber ends.
use Prim.Native.String.{String}
use zzdds_examples.Base.{
  ℕ, ◌∷◌, ap, ◌∙◌, Bool-cases, inl, inr, ◌≡◌, refl, true, List, [], first_n, arith,
}
use zzdds_examples.Base.Text.{Text}
use zzdds_examples.Base.Int.{ℤ}
use zzdds_examples.Dds.{Taken, ReaderQos}
use zzdds_examples.Runtime.Event.{
  Arg, Call, Event, Log, called, printed, create_datareader, delete_datareader,
}
use zzdds_examples.Runtime.Program.{
  World, Env, M, Outcome, done, exited, stuck, emit, create, check, return, fail, resume, ◌>>=◌,
  must_create,
}
use zzdds_examples.Runtime.Contract.{
  Does, At, Failed, Holds, Ends, Covers, bind, chain, given, weaken, finish, start-At,
}
use zzdds_examples.Runtime.Contract.Seen.{emit-At, invoke-At, unwritten, must_create-keeps}
use zzdds_examples.Runtime.Wait.{wait_until-At}
use zzdds_examples.Apps.HelloWorld.{HelloWorld}
use zzdds_examples.Apps.Common.Keeps.{bring_up-keeps}
use zzdds_examples.Apps.Common.Receiver.{SubState, NoSample, fresh_sub_state, reports}
use zzdds_examples.Apps.Common.Receiver.InOrder.{
  InOrder, Counts, Received, InOrder-Counts, on_data_available-At, reports-IgnoresSetup,
}
use zzdds_examples.Apps.HelloWorld.Subscriber.{body, main, early_callbacks, without_reader}

abbrev pub start : World NoSample SubState
start = record { log = []; state = fresh_sub_state }

-- Two contracts at once.
both :
    {A : Type 0} {I Q R : World NoSample SubState → Type 0}
    {X : ℕ → World NoSample SubState → Type 0} {m : M NoSample SubState A}
    → Does I m (λ _. Q) X
    → Does I m (λ _. R) (λ _ _. Unit)
    → Does I m (λ _ w. Q w × R w) X
both {A} {Q} {R} {X} {m} h k = record { run = λ w i. pair (m w) (h.run w i) (k.run w i) }
  where
    pair :
        (r : Outcome A × World NoSample SubState)
        → Holds (λ _. Q) X r
        → Holds (λ _. R) (λ _ _. Unit) r
        → Holds (λ _ w. Q w × R w) X r
    pair (done a, w) q q' = (q, q')
    pair (exited n, w) q q' = q
    pair (stuck, w) q q' = q

module _ (env : Env NoSample (List (Taken HelloWorld))) where
  -- The last event of the log.
  abbrev After : Event NoSample → World NoSample SubState → Type 0
  After e w = (log : Log NoSample) × (w.log ≡ e ∷ log)

  must_create-After :
      {I : World NoSample SubState → Type 0} (c : Call NoSample) (s : String) (args : List Arg)
      → Does I (must_create env c s args) (λ _. After (called c)) (λ _ _. Unit)
  unfolding must_create create check return fail ◌>>=◌ resume
  must_create-After c s args = record {
    run = λ w i. elim (Bool-cases (env.creates w.log c)) [
      | inl there ↦ rw there (w.log, refl)
      | inr failed ↦ rw failed tt
    ];
  }

  emit-After :
      {I : World NoSample SubState → Type 0} (e : Event NoSample)
      → Does I (emit e) (λ _. After e) (λ _ _. Unit)
  unfolding emit
  emit-After e = record { run = λ w i. (w.log, refl) }

  -- No callback has come.
  early_callbacks-At :
      (e : Event NoSample)
      → ((log : Log NoSample) → env.arrivals (e ∷ log) ≡ [])
      → Does
          (λ w. At reports (InOrder 10) w × After e w)
          (early_callbacks env)
          (λ _. At reports (InOrder 10))
          (Failed reports Counts)
  unfolding early_callbacks without_reader return
  early_callbacks-At e none = record {
    run = λ w h.
        let (log, newest) = h.1 in
        let empty : env.arrivals w.log ≡ [] = ap env.arrivals newest ∙ none log in rw empty h.0;
  }

  body-At :
      (argv : List Text)
      → ((type_name : Text) (qos : ReaderQos) (log : Log NoSample)
          → env.arrivals (called (create_datareader type_name qos) ∷ log) ≡ [])
      → ((log : Log NoSample)
          → env.arrivals (printed "Create reader for topic: HelloWorld\n" [] ∷ log) ≡ [])
      → Does (At reports (InOrder 10)) (body env argv) (λ _. Received 10) (Failed reports Counts)
  unfolding body
  body-At argv created announced = chain (bring_up-keeps env _ _ reports-IgnoresSetup lost) (
      chain (must_create-keeps env _ _ _ refl lost) (
        chain (both (must_create-keeps env _ _ _ refl lost) (must_create-After _ _ _)) (
          chain (early_callbacks-At _ (created _ _)) (
            chain (both (emit-At _ refl refl) (emit-After _)) (
              chain (early_callbacks-At _ announced) (
                chain (emit-At _ refl refl) (
                  chain
                    (wait_until-At env _ (λ ts. on_data_available-At 10 _ _ _ ts) _ _ _ _ _ lost
                      (omega arith) (omega arith))
                    (given (λ w h. record { quiet = h.0.quiet; holds = (h.0.holds, h.1) })
                      (bind
                        (invoke-At env {J' = Complete} _
                          (unwritten {S = NoSample} reports Complete delete_datareader refl))
                        λ rc. weaken (emit-At {J = Complete} _ refl refl) λ _ w h. record {
                          quiet = h.quiet;
                          reported = (
                            w.state.expected_next,
                            h.holds.0.complete h.holds.1,
                            h.holds.0.counted,
                          );
                        })))))))))
    where
      lost : Covers (InOrder 10) Counts
      lost = InOrder-Counts 10

      Complete : SubState → List ℤ → Type 0
      Complete st xs = InOrder 10 st xs × (st.all_received ≡ true)

  -- If no callback comes between the creation of the reader with its listener and the assignment of
  -- state.reader, the subscriber's process ends, whatever the library answers and delivers otherwise:
  -- with status 0, no line on stderr and the counts 0, 1, …, k - 1 reported in this order for some k of
  -- at least 10, or with status 1, one line on stderr and the counts 0, …, k - 1 reported for some k.
  pub hello_subscriber-Ends :
      (argv : List Text)
      → ((type_name : Text) (qos : ReaderQos) (log : Log NoSample)
          → env.arrivals (called (create_datareader type_name qos) ∷ log) ≡ [])
      → ((log : Log NoSample)
          → env.arrivals (printed "Create reader for topic: HelloWorld\n" [] ∷ log) ≡ [])
      → Holds (λ _ _. ⊥) (Ends reports (Received 10) Counts) (main env argv start)
  unfolding main first_n
  hello_subscriber-Ends argv created announced =
      (finish (body-At argv created announced)).run start
        (start-At fresh_sub_state record { counted = refl; complete = λ e. ground arith })
