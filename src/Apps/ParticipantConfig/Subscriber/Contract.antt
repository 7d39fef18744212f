-- ===== src/Apps/ParticipantConfig/Subscriber/Contract.antt =====
-- How a run of the participant-config subscriber ends.
use zzdds_examples.Base.{◌≡◌, refl, true, List, [], first_n, arith}
use zzdds_examples.Base.Text.{Text}
use zzdds_examples.Base.Int.{ℤ}
use zzdds_examples.Dds.{Taken}
use zzdds_examples.Runtime.Event.{delete_datareader}
use zzdds_examples.Runtime.Program.{World, Env}
use zzdds_examples.Runtime.Contract.{
  Does, At, Failed, Holds, Ends, Covers, bind, chain, given, weaken, finish, start-At,
}
use zzdds_examples.Runtime.Contract.Seen.{
  emit-At, invoke-At, unwritten, must_create-keeps, must_return-keeps,
}
use zzdds_examples.Runtime.Wait.{wait_until-At}
use zzdds_examples.Apps.ParticipantConfig.{ConfigPing}
use zzdds_examples.Apps.ParticipantConfig.Keeps.{reports-IgnoresConfig, set_up-keeps}
use zzdds_examples.Apps.Common.Receiver.{SubState, NoSample, fresh_sub_state, reports}
use zzdds_examples.Apps.Common.Receiver.InOrder.{
  InOrder, Counts, Received, InOrder-Counts, on_data_available-At, reports-IgnoresSetup,
}
use zzdds_examples.Apps.ParticipantConfig.Subscriber.{body, main}

abbrev pub start : World NoSample SubState
start = record { log = []; state = fresh_sub_state }

module _ (env : Env NoSample (List (Taken ConfigPing))) where
  body-At :
      (argv : List Text)
      → Does (At reports (InOrder 3)) (body env argv) (λ _. Received 3) (Failed reports Counts)
  unfolding body
  body-At argv = chain (set_up-keeps env lost reports-IgnoresSetup reports-IgnoresConfig _) (
      chain (must_create-keeps env _ _ _ refl lost) (
        chain (must_create-keeps env _ _ _ refl lost) (
          chain (emit-At _ refl refl) (
            chain (must_return-keeps env _ _ _ refl lost) (
              chain (emit-At _ refl refl) (
                chain
                  (wait_until-At env _ (λ ts. on_data_available-At 3 _ _ _ ts) _ _ _ _ _ lost
                    (omega arith) (omega arith))
                  (given (λ w h. record { quiet = h.0.quiet; holds = (h.0.holds, h.1) })
                    (bind
                      (invoke-At env {J' = Complete} _
                        (unwritten {S = NoSample} reports Complete delete_datareader refl))
                      λ rc. weaken (emit-At {J = Complete} _ refl refl) λ _ w h. record {
                        quiet = h.quiet;
                        reported = (
                          w.state.expected_next,
                          h.holds.0.complete h.holds.1,
                          h.holds.0.counted,
                        );
                      }))))))))
    where
      lost : Covers (InOrder 3) Counts
      lost = InOrder-Counts 3

      Complete : SubState → List ℤ → Type 0
      Complete st xs = InOrder 3 st xs × (st.all_received ≡ true)

  -- Whatever the library answers and delivers, the participant-config subscriber's process ends: with status 0, no line
  -- on stderr and the counts 0, 1, …, k - 1 reported in this order for some k of at least 3, or
  -- with status 1, one line on stderr and the counts 0, …, k - 1 reported for some k.
  pub config_subscriber-Ends :
      (argv : List Text) → Holds (λ _ _. ⊥) (Ends reports (Received 3) Counts) (main env argv start)
  unfolding main first_n
  config_subscriber-Ends argv =
      (finish (body-At argv)).run start
        (start-At fresh_sub_state record { counted = refl; complete = λ e. ground arith })
