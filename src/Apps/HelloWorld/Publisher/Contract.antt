-- ===== src/Apps/HelloWorld/Publisher/Contract.antt =====
-- How a run of the hello_world publisher ends.
use zzdds_examples.Base.{◌≡◌, refl, true, List, [], first_n, arith}
use zzdds_examples.Base.Text.{Text}
use zzdds_examples.Runtime.Event.{samples}
use zzdds_examples.Runtime.Program.{World, Env}
use zzdds_examples.Runtime.Contract.{
  Does, At, Failed, Holds, Ends, Covers, chain, given, weaken, finish, start-At,
}
use zzdds_examples.Runtime.Contract.Seen.{emit-At, must_create-keeps, must_return-keeps}
use zzdds_examples.Runtime.Wait.{wait_until-At}
use zzdds_examples.Apps.Common.{PubState, fresh_pub_state, PubCallback, drained}
use zzdds_examples.Apps.Common.Keeps.{
  Seen, UpTo, Sent, samples-IgnoresSetup, pub_listener-keeps, bring_up-keeps, write_loop-At,
}
use zzdds_examples.Apps.HelloWorld.{HelloWorld}
use zzdds_examples.Apps.HelloWorld.Publisher.{sample, body, main}

abbrev pub start : World HelloWorld PubState
start = record { log = []; state = fresh_pub_state }

abbrev AllSentAt : PubState → List HelloWorld → Type 0
AllSentAt st ws = (ws ≡ first_n sample 10) × (drained st ≡ true)

module _ (env : Env HelloWorld PubCallback) where
  body-At :
      (argv : List Text)
      → Does
          (At samples (Seen (λ ws. ws ≡ first_n sample 0)))
          (body env argv)
          (λ _. Sent sample 10)
          (Failed samples (UpTo sample 10))
  unfolding body
  body-At argv = chain (bring_up-keeps env _ _ samples-IgnoresSetup none_yet) (
      chain (must_create-keeps env _ _ _ refl none_yet) (
        chain (must_create-keeps env _ _ _ refl none_yet) (
          chain (emit-At _ refl refl) (
            chain (must_return-keeps env _ _ _ refl none_yet) (
              chain
                (wait_until-At env _ pub_listener-keeps _ _ _ _ _ none_yet (omega arith)
                  (omega arith))
                (chain (given (λ w h. h.0) (write_loop-At env sample _ _ 0 10 10 (omega arith))) (
                  chain
                    (wait_until-At env _ pub_listener-keeps _ _ _ _ _ all_sent (omega arith)
                      (omega arith))
                    (given (λ w h. record { quiet = h.0.quiet; holds = (h.0.holds, h.1) })
                      (weaken (emit-At {J = AllSentAt} _ refl refl) (λ _ w h. record {
                        quiet = h.quiet;
                        sent = h.holds.0;
                        reader_left = h.holds.1;
                      }))))))))))
    where
      none_yet : Covers {St = PubState} (Seen (λ ws. ws ≡ first_n sample 0)) (UpTo sample 10)
      none_yet st ws h = (0, omega arith, h)

      all_sent : Covers {St = PubState} (Seen (λ ws. ws ≡ first_n sample 10)) (UpTo sample 10)
      all_sent st ws h = (10, omega arith, h)

  -- Whatever the library answers and in whatever order the callbacks come, the publisher's process
  -- ends: with status 0, no line on stderr, samples 0 to 9 written in order and the matched
  -- reader gone again, or with status 1, one line on stderr, and samples 0 to k - 1 written for
  -- some k up to 10.
  pub hello_publisher-Ends :
      (argv : List Text)
      → Holds (λ _ _. ⊥) (Ends samples (Sent sample 10) (UpTo sample 10)) (main env argv start)
  unfolding main first_n
  hello_publisher-Ends argv = (finish (body-At argv)).run start (start-At fresh_pub_state refl)
