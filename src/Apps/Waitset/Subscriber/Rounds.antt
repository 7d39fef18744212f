-- ===== src/Apps/Waitset/Subscriber/Rounds.antt =====
-- The rounds of the waitset subscriber, where its watchdog triggers the guard condition after some
-- number of waits.
use zzdds_examples.Base.{
  ℕ, zero, suc, ◌+◌, ◌≤◌, ◌<◌, ◌≡◌, refl, ap, leb, ltb, true, false, List, [], ◌∷◌, All, All-append,
  Bool-cases, inl, inr, arith,
}
use zzdds_examples.Dds.{ReturnCode, SampleInfo}
use zzdds_examples.Apps.Waitset.{WaitsetSample, Condition, guard_condition, condition_active}
use zzdds_examples.Runtime.Event.{
  Log, observed, wait, take_w_condition, take_n, get_conditions, get_subscription_matched_status,
}
use zzdds_examples.Runtime.Program.{World, Env, M, invoke_with}
use zzdds_examples.Runtime.Contract.{
  Does, At, Failed, Turns, bind, chain, given, weaken, known, get-Does, return-Does, when-Does,
}
use zzdds_examples.Runtime.Contract.Seen.{
  emit-At, fail-At, check-At, invoke_with-At, query-At, modify-At, emit-Turns, modify-Turns,
  unwritten, must_create-keeps, must_return-keeps,
}
use zzdds_examples.Apps.Common.Receiver.{NoSample}
use zzdds_examples.Apps.Waitset.Subscriber.{
  Answers, SubState, report_all, attach_all, set_up_waitset, note_match, drain, respond, wait_loop,
}
use zzdds_examples.Apps.Waitset.Subscriber.Sights.{
  Sight, waited, sights, said_count, wait_count, Labelled, TooFew, said_count-append,
  wait_count-append, Counted, Wanting, lost, Ahead, say,
}

abbrev pub Steps :
    {A : Type 0}
    → (SubState → List Sight → Type 0)
    → M NoSample SubState A
    → (SubState → List Sight → Type 0)
    → Type 0
Steps J m J' = Does (At sights J) m (λ _. At sights J') (Failed sights TooFew)

report_all-Steps :
    (k : ℕ) (rs : List (SampleInfo × WaitsetSample)) → Steps (Counted k) (report_all rs) (Counted k)
unfolding report_all
report_all-Steps k [] = return-Does tt
report_all-Steps k ((info, v) ∷ rest) =
    chain
      (when-Does info.valid_data (
        chain (emit-Turns {J' = Ahead k} _ refl (say k v.count v.priority))
          (modify-Turns _ (λ st xs h. record { counted = h.0; waits = h.1; labelled = h.2 }))))
      (report_all-Steps k rest)

attach_all-Steps :
    (env : Env NoSample NoSample) (answers : Answers) (cs : List Condition)
    → Steps (Wanting 0) (attach_all env answers cs) (Wanting 0)
unfolding attach_all
attach_all-Steps env answers [] = return-Does tt
attach_all-Steps env answers (c ∷ cs) =
    chain (must_return-keeps env _ _ _ refl (lost 0)) (attach_all-Steps env answers cs)

module _ (env : Env NoSample NoSample) (answers : Answers) where
  pub set_up_waitset-Steps : Steps (Wanting 0) (set_up_waitset env answers) (Wanting 0)
  unfolding set_up_waitset
  set_up_waitset-Steps = chain (must_create-keeps env _ _ _ refl (lost 0)) (
      chain (must_return-keeps env _ _ _ refl (lost 0)) (
        chain (must_create-keeps env _ _ _ refl (lost 0)) (
          chain (must_create-keeps env _ _ _ refl (lost 0)) (
            chain (must_create-keeps env _ _ _ refl (lost 0)) (
              chain (attach_all-Steps env answers _) (
                bind
                  (invoke_with-At env {J' = Wanting 0} _ get_conditions
                    (unwritten {S = NoSample} sights (Wanting 0) get_conditions refl))
                  λ r.
                    chain (weaken (check-At _ _ _ (lost 0)) (λ a w h. h.0))
                      (weaken (check-At _ _ _ (lost 0)) (λ a w h. h.0))))))))

  note_match-Steps :
      (k : ℕ) (active : List Condition)
      → Steps (Wanting k) (note_match env answers active) (Wanting k)
  unfolding note_match
  note_match-Steps k active = bind get-Does λ st.
      given (λ w h. h.0)
        (when-Does _ (
          bind
            (query-At env {J' = Wanting k} get_subscription_matched_status
              (unwritten {S = NoSample} sights (Wanting k) get_subscription_matched_status refl))
            λ current_count. when-Does _ (
              chain (emit-At _ refl refl) (
                modify-At _ λ st xs h. (
                  record { counted = h.0.counted; waits = h.0.waits; labelled = h.0.labelled },
                  h.1,
                )))))

  drain-Steps : (k : ℕ) → Steps (Counted k) (drain env answers) (Counted k)
  unfolding drain
  drain-Steps k =
      bind
        (invoke_with-At env {J' = Counted k} _ take_w_condition
          (unwritten {S = NoSample} sights (Counted k) take_w_condition refl))
        λ high.
          bind
            (invoke_with-At env {J' = Counted k} _ take_n
              (unwritten {S = NoSample} sights (Counted k) take_n refl))
            λ low. chain (report_all-Steps k high.1) (report_all-Steps k low.1)

  respond-Steps :
      (k : ℕ) (wr : ReturnCode) (active : List Condition)
      → Steps (Wanting k) (respond env answers wr active) (Counted k)
  unfolding respond
  respond-Steps k ReturnCode.timeout active =
      given (λ w h. record { quiet = h.quiet; holds = h.holds.0 }) (return-Does tt)
  respond-Steps k ReturnCode.no_data active = fail-At _ _ (lost k)
  respond-Steps k (ReturnCode.other n) active = fail-At _ _ (lost k)
  respond-Steps k ReturnCode.ok active = bind get-Does λ st.
      given (λ w h. h.0)
        (chain (weaken (check-At _ _ _ (lost k)) (λ a w h. h.0)) (
          chain (note_match-Steps k active) (
            given (λ w h. record { quiet = h.quiet; holds = h.holds.0 })
              (when-Does _ (drain-Steps k)))))

  -- Once the watchdog has fired, the round does not go on.
  respond-stops :
      (k : ℕ) (wr : ReturnCode) (active : List Condition)
      → (wr ≡ ReturnCode.ok)
      → condition_active active guard_condition ≡ true
      → Does
          (At sights (Wanting k))
          (respond env answers wr active)
          (λ _ _. ⊥)
          (Failed sights TooFew)
  unfolding respond
  respond-stops k wr active e fired = rw e (
      bind get-Does λ st.
        given (λ w h. h.0)
          (chain
            (weaken {R = λ _ _. ⊥} (check-At _ _ _ (lost k))
              (λ a w h. let no = h.1 in ground arith))
            (record { run = λ w h. elim h [ ] })))

  wait-Turns : (k : ℕ) → Turns sights (Wanting k) (Wanting (suc k)) wait
  wait-Turns k st xs h = (
    record {
      counted = let e = h.0.counted in omega (arith, e, said_count-append xs (waited ∷ []));
      waits = let e = h.0.waits in omega (arith, e, wait_count-append xs (waited ∷ []));
      labelled = All-append Labelled xs _ h.0.labelled (tt, tt);
    },
    h.1,
  )

  -- From the `rounds`th wait on, the watchdog has triggered its condition.
  abbrev pub Fires : ℕ → Type 0
  Fires rounds =
      (log : Log NoSample)
      → rounds ≤ wait_count (observed sights log)
      → (env.returns log wait ≡ ReturnCode.ok)
        × (condition_active (answers.active log) guard_condition ≡ true)

  abbrev pub Enough : SubState → List Sight → Type 0
  Enough st xs = (10 ≤ said_count xs) × All Labelled xs

  module _ (rounds : ℕ) (watchdog : Fires rounds) where
    wait-Steps :
        (k : ℕ)
        → Does
            (At sights (Wanting k))
            (invoke_with env (λ log c. answers.active log) wait)
            (λ r w.
              At sights (Wanting (suc k)) w
              × (rounds ≤ k
                  → (r.0 ≡ ReturnCode.ok) × (condition_active r.1 guard_condition ≡ true)))
            (Failed sights TooFew)
    unfolding invoke_with
    wait-Steps k = record {
      run = λ w h. (
        (invoke_with-At env {K = TooFew} (λ log c. answers.active log) wait (wait-Turns k)).run w h,
        λ late. watchdog w.log (let e = h.holds.0.waits in omega (arith, e, late)),
      );
    }

    pub wait_loop-Steps :
        (fuel k : ℕ)
        → k ≤ rounds
        → rounds < k + fuel
        → Steps (Counted k) (wait_loop env answers fuel) Enough
    unfolding wait_loop
    wait_loop-Steps zero k low high = absurd (omega arith)
    wait_loop-Steps (suc fuel) k low high = bind get-Does λ st.
        elim (Bool-cases (leb 10 st.received)) [
          | inl full ↦ rw full (given (full_now st full) (return-Does tt))
          | inr more ↦ rw more (
              given (more_to_come st more) (
                bind (wait-Steps k) λ r. known λ late. elim (Bool-cases (ltb k rounds)) [
                  | inl early ↦
                      chain (respond-Steps (suc k) r.0 r.1)
                        (wait_loop-Steps fuel (suc k) (ground arith) (omega arith))
                  | inr last ↦
                      let (e, fired) = late (ground arith) in
                      chain (respond-stops (suc k) r.0 r.1 e fired)
                        (record { run = λ w h. elim h [ ] })
                ]))
        ]
      where
        full_now :
            (st : SubState)
            → leb 10 st.received ≡ true
            → (w : World NoSample SubState) → At sights (Counted k) w × (w.state ≡ st)
            → At sights Enough w
        full_now st full w h = record {
          quiet = h.0.quiet;
          holds = (
            let e = h.0.holds.counted in
                let e' = ap SubState.received h.1 in ground (arith, e, e', full),
            h.0.holds.labelled,
          );
        }

        more_to_come :
            (st : SubState)
            → leb 10 st.received ≡ false
            → (w : World NoSample SubState) → At sights (Counted k) w × (w.state ≡ st)
            → At sights (Wanting k) w
        more_to_come st more w h = record {
          quiet = h.0.quiet;
          holds = (h.0.holds, let e' = ap SubState.received h.1 in ground (arith, e', more));
        }
