-- ===== src/Apps/Waitset/Publisher/Rounds.antt =====
-- The two loops of the waitset publisher, where its watchdog triggers the guard condition after some
-- number of waits.
use Prim.Native.String.{String}
use zzdds_examples.Base.{
  ℕ, zero, suc, ◌+◌, ◌≤◌, ◌<◌, ◌≡◌, refl, ltb, Bool, true, false, List, [], ◌∷◌, Bool-cases, inl,
  inr, arith, if◌then◌else◌,
}
use zzdds_examples.Dds.{ReturnCode}
use zzdds_examples.Runtime.Event.{
  Call, Event, Log, called, observed, failure_of, wait, get_publication_matched_status,
}
use zzdds_examples.Runtime.Program.{Env, M, return, emit, invoke, invoke_with}
use zzdds_examples.Runtime.Contract.{
  Does, At, Failed, bind, chain, given, weaken, known, return-Does, if-Does,
}
use zzdds_examples.Runtime.Contract.Seen.{
  emit-Turns, modify-Turns, fail-At, check-At, invoke-At, invoke_with-At, query-At, unwritten,
  must_create-keeps, must_return-keeps,
}
use zzdds_examples.Apps.Common.Receiver.{NoSample}
use zzdds_examples.Apps.Waitset.{WaitsetSample, Condition, guard_condition, condition_active}
use zzdds_examples.Apps.Waitset.Publisher.{PubState, set_up_conditions, settle, await}
use zzdds_examples.Apps.Waitset.Publisher.Tale.{
  Step, said, steps, wait_count, told, FirstPart, ToCome, ToCome-FirstPart, ToCome-next,
  ToCome-waited,
}

abbrev pub Tells :
    {A : Type 0}
    → (PubState → List Step → Type 0)
    → M WaitsetSample PubState A
    → (A → PubState → List Step → Type 0)
    → Type 0
Tells J m J' = Does (At steps J) m (λ a. At steps (J' a)) (Failed steps FirstPart)

-- A line that the tale has next.
pub emit-Tells :
    (Known : PubState → Type 0) (k : ℕ) (e : Event WaitsetSample) (x : Step) (rest : List Step)
    → failure_of e ≡ 0
    → steps.see e ≡ x ∷ []
    → told (x ∷ []) ≡ x ∷ []
    → Tells (ToCome Known k (x ∷ rest)) (emit e) (λ _. ToCome Known k rest)
emit-Tells Known k e x rest quiet seen kept =
    emit-Turns e quiet (λ st xs h. rw seen (ToCome-next Known k x rest st xs kept h))

-- After a round: whether the line has been printed. Then `Known'` holds of the state.
abbrev Settled :
    (Known Known' : PubState → Type 0)
    → ℕ
    → String
    → List Step
    → Bool
    → PubState
    → List Step
    → Type 0
Settled Known Known' k line rest true = ToCome Known' k rest
Settled Known Known' k line rest false = ToCome Known k (said line ∷ rest)

module _ (env : Env WaitsetSample NoSample) (active : Log WaitsetSample → List Condition) where
  pub silent-Tells :
      (Known : PubState → Type 0) (k : ℕ) (rest : List Step) (c : Call WaitsetSample)
      → steps.see (called c) ≡ []
      → Tells (ToCome Known k rest) (invoke env c) (λ _. ToCome Known k rest)
  silent-Tells Known k rest c e = invoke-At env c (unwritten steps (ToCome Known k rest) c e)

  pub set_up_conditions-Tells :
      (Known : PubState → Type 0) (rest : List Step)
      → Tells (ToCome Known 0 rest) (set_up_conditions env active) (λ _. ToCome Known 0 rest)
  unfolding set_up_conditions
  set_up_conditions-Tells Known rest =
      chain (must_create-keeps env _ _ _ refl (ToCome-FirstPart Known 0 rest)) (
        chain (must_return-keeps env _ _ _ refl (ToCome-FirstPart Known 0 rest)) (
          chain (must_return-keeps env _ _ _ refl (ToCome-FirstPart Known 0 rest)) (
            chain (must_create-keeps env _ _ _ refl (ToCome-FirstPart Known 0 rest))
              (must_return-keeps env _ _ _ refl (ToCome-FirstPart Known 0 rest)))))

  module _ (Known Known' : PubState → Type 0) (too_late line : String)
      (store : ℕ → PubState → PubState) (enough : ℕ → Bool) (rest : List Step)
      (keeps : (n : ℕ) (st : PubState) → Known st → Known (store n st))
      (meets : (n : ℕ) (st : PubState) → Known st → enough n ≡ true → Known' (store n st)) where
    -- The status is read.
    abbrev LastRead : ℕ → PubState → Type 0
    LastRead n st = Known st × (enough n ≡ true → Known' st)

    report-Tells :
        (k : ℕ) (listed : List Condition)
        → Tells
            (ToCome Known k (said line ∷ rest))
            (settle env active too_late store enough line ReturnCode.ok listed)
            (Settled Known Known' k line rest)
    unfolding settle
    report-Tells k listed =
        chain (weaken (check-At _ _ _ (ToCome-FirstPart Known k (said line ∷ rest))) (λ a w h. h.0))
          (if-Does _
            (bind
              (query-At env {J' = ToCome Known k (said line ∷ rest)} get_publication_matched_status
                (unwritten steps (ToCome Known k (said line ∷ rest)) get_publication_matched_status
                  refl))
              λ current_count.
                chain
                  (modify-Turns {J' = ToCome (LastRead current_count) k (said line ∷ rest)} _
                    (λ st xs h.
                      (h.0, h.1, (keeps current_count st h.2, meets current_count st h.2))))
                  (elim (Bool-cases (enough current_count)) [
                    | inl last ↦ rw last (
                        given
                          (λ w h. record {
                            quiet = h.quiet;
                            holds = (h.holds.0, h.holds.1, h.holds.2.1 last);
                          })
                          (chain (emit-Tells Known' k _ (said line) rest refl refl refl)
                            (return-Does true)))
                    | inr other ↦ rw other (
                        given
                          (λ w h. record {
                            quiet = h.quiet;
                            holds = (h.holds.0, h.holds.1, h.holds.2.0);
                          })
                          (return-Does false))
                  ]))
            (return-Does false))

    settle-Tells :
        (k : ℕ) (rc : ReturnCode) (listed : List Condition)
        → Tells
            (ToCome Known k (said line ∷ rest))
            (settle env active too_late store enough line rc listed)
            (Settled Known Known' k line rest)
    unfolding settle
    settle-Tells k ReturnCode.timeout listed = return-Does false
    settle-Tells k ReturnCode.no_data listed =
        fail-At _ _ (ToCome-FirstPart Known k (said line ∷ rest))
    settle-Tells k (ReturnCode.other n) listed =
        fail-At _ _ (ToCome-FirstPart Known k (said line ∷ rest))
    settle-Tells k ReturnCode.ok listed = report-Tells k listed

    -- Once the watchdog has fired, the loop does not go on.
    settle-stops :
        (k : ℕ) (rc : ReturnCode) (listed : List Condition)
        → (rc ≡ ReturnCode.ok)
        → condition_active listed guard_condition ≡ true
        → Does
            (At steps (ToCome Known k (said line ∷ rest)))
            (settle env active too_late store enough line rc listed)
            (λ _ _. ⊥)
            (Failed steps FirstPart)
    unfolding settle
    settle-stops k rc listed e fired = rw e (
        chain
          (weaken {R = λ _ _. ⊥} (check-At _ _ _ (ToCome-FirstPart Known k (said line ∷ rest)))
            (λ a w h. let no = h.1 in ground arith))
          (record { run = λ w h. elim h [ ] }))

    -- The loop goes on unless the round was its last.
    if_more :
        (k : ℕ) (settled : Bool) {m : M WaitsetSample PubState (Unit {0})}
        → Tells (ToCome Known k (said line ∷ rest)) m (λ _. ToCome Known' 0 rest)
        → Tells
            (Settled Known Known' k line rest settled)
            (if settled then return tt else m)
            (λ _. ToCome Known' 0 rest)
    if_more k true h =
        given (λ w i. record { quiet = i.quiet; holds = (omega arith, i.holds.1, i.holds.2) })
          (return-Does tt)
    if_more k false h = h

    module _ (rounds : ℕ)
        (watchdog : (log : Log WaitsetSample)
          → rounds ≤ wait_count (observed steps log)
          → (env.returns log wait ≡ ReturnCode.ok)
            × (condition_active (active log) guard_condition ≡ true)) where
      wait-Tells :
          (k : ℕ)
          → Does
              (At steps (ToCome Known k (said line ∷ rest)))
              (invoke_with env (λ log c. active log) wait)
              (λ r w.
                At steps (ToCome Known (suc k) (said line ∷ rest)) w
                × (rounds ≤ k
                    → (r.0 ≡ ReturnCode.ok) × (condition_active r.1 guard_condition ≡ true)))
              (Failed steps FirstPart)
      unfolding invoke_with
      wait-Tells k = record {
        run = λ w h. (
          (invoke_with-At env {K = FirstPart} (λ log c. active log) wait
                (ToCome-waited Known k (said line ∷ rest))).run
              w h,
          λ late. watchdog w.log (let e = h.holds.0 in omega (arith, e, late)),
        );
      }

      -- `fuel` more rounds are enough for a loop that has gone `k` rounds.
      pub await-Tells :
          (fuel k : ℕ)
          → k ≤ rounds
          → rounds < k + fuel
          → Tells
              (ToCome Known k (said line ∷ rest))
              (await env active too_late store enough line fuel)
              (λ _. ToCome Known' 0 rest)
      unfolding await
      await-Tells zero k low high = absurd (omega arith)
      await-Tells (suc fuel) k low high = bind (wait-Tells k) λ r. known λ late.
          elim (Bool-cases (ltb k rounds)) [
            | inl early ↦ bind (settle-Tells (suc k) r.0 r.1) λ settled.
                if_more (suc k) settled (await-Tells fuel (suc k) (ground arith) (omega arith))
            | inr last ↦
                let (e, fired) = late (ground arith) in
                bind (settle-stops (suc k) r.0 r.1 e fired)
                  (λ settled. record { run = λ w h. elim h [ ] })
          ]
