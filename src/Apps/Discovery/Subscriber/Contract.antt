-- ===== src/Apps/Discovery/Subscriber/Contract.antt =====
-- How a run of the discovery subscriber ends.
use zzdds_examples.Base.{
  ℕ, zero, suc, ◌+◌, ◌*◌, ◌≤◌, ◌<◌, ◌≡◌, refl, true, Bool-cases, inl, inr, leb, List, [], ◌∷◌,
  first_n, arith,
}
use zzdds_examples.Base.Text.{Text}
use zzdds_examples.Base.Int.{ℤ}
use zzdds_examples.Dds.{Taken}
use zzdds_examples.Runtime.Event.{delete_datareader, get_matched_publications}
use zzdds_examples.Runtime.Program.{World, M, Env}
use zzdds_examples.Runtime.Contract.{
  Does, At, Failed, Holds, Ends, Covers, bind, chain, given, weaken, finish, start-At, return-Does,
}
use zzdds_examples.Runtime.Contract.Seen.{
  emit-At, fail-At, check-At, invoke-At, invoke_with-At, unwritten, must_create-keeps,
  must_return-keeps,
}
use zzdds_examples.Runtime.Wait.{wait_until-At}
use zzdds_examples.Apps.Common.Keeps.{bring_up-keeps}
use zzdds_examples.Apps.Common.Receiver.{SubState, NoSample, fresh_sub_state, reports}
use zzdds_examples.Apps.Common.Receiver.InOrder.{
  InOrder, Counts, Received, InOrder-Counts, on_data_available-At, reports-IgnoresSetup,
}
use zzdds_examples.Apps.Discovery.{DiscoveryPing}
use zzdds_examples.Apps.Discovery.Matched.{matched_data-keeps}
use zzdds_examples.Apps.Discovery.Subscriber.{first_match, await_match, body, main}

abbrev pub start : World NoSample SubState
start = record { log = []; state = fresh_sub_state }

lost : Covers (InOrder 3) Counts
lost = InOrder-Counts 3

first_match-At :
    (handles : List ℕ) {later : M NoSample SubState ℕ}
    → Does (At reports (InOrder 3)) later (λ _. At reports (InOrder 3)) (Failed reports Counts)
    → Does
        (At reports (InOrder 3))
        (first_match handles later)
        (λ _. At reports (InOrder 3))
        (Failed reports Counts)
unfolding first_match
first_match-At (h ∷ handles) later = return-Does h
first_match-At [] later = later

module _ (env : Env NoSample (List (Taken DiscoveryPing))) where
  await_match-At :
      (fuel waited : ℕ)
      → waited < 10020
      → 10020 ≤ waited + fuel * 20
      → Does
          (At reports (InOrder 3))
          (await_match env fuel waited)
          (λ _. At reports (InOrder 3))
          (Failed reports Counts)
  unfolding await_match
  await_match-At zero waited low high = absurd (omega arith)
  await_match-At (suc fuel) waited low high =
      bind
        (invoke_with-At env {J' = InOrder 3} env.handles get_matched_publications
          (unwritten {S = NoSample} reports (InOrder 3) get_matched_publications refl))
        λ r. chain (weaken (check-At _ _ _ lost) (λ a w h. h.0)) (
          first_match-At r.1 (elim (Bool-cases (leb 10000 waited)) [
            | inl late ↦ rw late (fail-At _ _ lost)
            | inr early ↦ rw early (
                chain (emit-At _ refl refl)
                  (await_match-At fuel (waited + 20) (ground arith) (omega arith)))
          ]))

  body-At :
      (argv : List Text)
      → Does (At reports (InOrder 3)) (body env argv) (λ _. Received 3) (Failed reports Counts)
  unfolding body
  body-At argv = chain (bring_up-keeps env _ _ reports-IgnoresSetup lost) (
      chain (must_create-keeps env _ _ _ refl lost) (
        chain (must_create-keeps env _ _ _ refl lost) (
          chain (emit-At _ refl refl) (
            chain (must_return-keeps env _ _ _ refl lost) (
              bind (await_match-At 502 0 (omega arith) (omega arith)) λ h.
                chain (matched_data-keeps env _ _ refl (λ s a b. refl) lost) (
                  chain (emit-At _ refl refl) (
                    chain
                      (wait_until-At env _ (λ ts. on_data_available-At 3 _ _ _ ts) _ _ _ _ _ lost
                        (omega arith) (omega arith))
                      (given (λ w h. record { quiet = h.0.quiet; holds = (h.0.holds, h.1) })
                        (bind
                          (invoke-At env {J' = Complete} _
                            (unwritten {S = NoSample} reports Complete delete_datareader refl))
                          λ rc. weaken (emit-At {J = Complete} _ refl refl) λ _ w h. record {
                            quiet = h.quiet;
                            reported = (
                              w.state.expected_next,
                              h.holds.0.complete h.holds.1,
                              h.holds.0.counted,
                            );
                          })))))))))
    where
      Complete : SubState → List ℤ → Type 0
      Complete st xs = InOrder 3 st xs × (st.all_received ≡ true)

  -- Whatever the library answers and delivers, the discovery subscriber's process ends: with status 0,
  -- no line on stderr and the counts 0, 1, …, k - 1 reported in this order for some k of at least 3,
  -- or with status 1, one line on stderr and the counts 0, …, k - 1 reported for some k.
  pub discovery_subscriber-Ends :
      (argv : List Text) → Holds (λ _ _. ⊥) (Ends reports (Received 3) Counts) (main env argv start)
  unfolding main first_n
  discovery_subscriber-Ends argv =
      (finish (body-At argv)).run start
        (start-At fresh_sub_state record { counted = refl; complete = λ e. ground arith })
