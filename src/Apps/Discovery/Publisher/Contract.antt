-- ===== src/Apps/Discovery/Publisher/Contract.antt =====
-- How a run of the discovery publisher ends.
use Prim.Native.String.{String}
use zzdds_examples.Base.{
  ℕ, Bool, ◌≡◌, refl, true, Option, none, some, List, [], ◌∷◌, first_n, arith,
}
use zzdds_examples.Base.Text.{Text}
use zzdds_examples.Dds.{TopicData}
use zzdds_examples.Runtime.Event.{
  Arg, samples, get_discovered_topics, get_discovered_topic_data, get_matched_subscriptions,
}
use zzdds_examples.Runtime.Program.{World, M, Env, check}
use zzdds_examples.Runtime.Contract.{
  Does, At, Failed, Holds, Ends, Covers, bind, chain, given, weaken, finish, start-At, if-Does,
  return-Does,
}
use zzdds_examples.Runtime.Contract.Seen.{
  emit-At, fail-At, check-At, invoke_with-At, unwritten, must_create-keeps, must_return-keeps,
}
use zzdds_examples.Runtime.Wait.{wait_until-At}
use zzdds_examples.Apps.Common.{PubState, fresh_pub_state, PubCallback, drained}
use zzdds_examples.Apps.Common.Keeps.{
  Seen, UpTo, Sent, samples-IgnoresSetup, pub_listener-keeps, bring_up-keeps, write_loop-At,
}
use zzdds_examples.Apps.Discovery.{DiscoveryPing}
use zzdds_examples.Apps.Discovery.Matched.{matched_data-keeps}
use zzdds_examples.Apps.Discovery.Publisher.{
  sample, find_topic, report_topic, discover_topic, matched_subscription, discover_subscription,
  body, main,
}

abbrev pub start : World DiscoveryPing PubState
start = record { log = []; state = fresh_pub_state }

-- Before anything is written.
abbrev Nothing : PubState → List DiscoveryPing → Type 0
Nothing = Seen (λ ws. ws ≡ first_n sample 0)

abbrev Steps : {A : Type 0} → M DiscoveryPing PubState A → Type 0
Steps m = Does (At samples Nothing) m (λ _. At samples Nothing) (Failed samples (UpTo sample 3))

none_yet : Covers Nothing (UpTo sample 3)
none_yet st ws h = (0, omega arith, h)

module _ (env : Env DiscoveryPing PubCallback) where
  tested : (b : Bool) (s : String) (args : List Arg) → Steps (check b s args)
  tested b s args = weaken (check-At b s args none_yet) (λ a w h. h.0)

  find_topic-Steps : (handles : List ℕ) → Steps (find_topic env handles)
  unfolding find_topic
  find_topic-Steps [] = return-Does none
  find_topic-Steps (h ∷ handles) =
      bind
        (invoke_with-At env env.topic_data (get_discovered_topic_data h)
          (unwritten samples Nothing (get_discovered_topic_data h) refl))
        λ r. if-Does _ (return-Does _) (find_topic-Steps handles)

  report_topic-Steps : (o : Option TopicData) → Steps (report_topic env o)
  unfolding report_topic
  report_topic-Steps none = fail-At _ _ none_yet
  report_topic-Steps (some topic) = chain (tested _ _ _) (emit-At _ refl refl)

  discover_topic-Steps : Steps (discover_topic env)
  unfolding discover_topic
  discover_topic-Steps =
      bind
        (invoke_with-At env env.handles get_discovered_topics
          (unwritten samples Nothing get_discovered_topics refl))
        λ r. chain (tested _ _ _) (bind (find_topic-Steps r.1) report_topic-Steps)

  matched_subscription-Steps : (handles : List ℕ) → Steps (matched_subscription env handles)
  unfolding matched_subscription
  matched_subscription-Steps [] = fail-At _ _ none_yet
  matched_subscription-Steps (h ∷ handles) =
      matched_data-keeps env _ _ refl (λ s a b. refl) none_yet

  discover_subscription-Steps : Steps (discover_subscription env)
  unfolding discover_subscription
  discover_subscription-Steps =
      bind
        (invoke_with-At env env.handles get_matched_subscriptions
          (unwritten samples Nothing get_matched_subscriptions refl))
        λ r. chain (tested _ _ _) (matched_subscription-Steps r.1)

  SentAt : PubState → List DiscoveryPing → Type 0
  SentAt st ws = (ws ≡ first_n sample 3) × (drained st ≡ true)

  body-At :
      (argv : List Text)
      → Does
          (At samples Nothing)
          (body env argv)
          (λ _. Sent sample 3)
          (Failed samples (UpTo sample 3))
  unfolding body SentAt
  body-At argv = chain (bring_up-keeps env _ _ samples-IgnoresSetup none_yet) (
      chain discover_topic-Steps (
        chain (must_create-keeps env _ _ _ refl none_yet) (
          chain (must_create-keeps env _ _ _ refl none_yet) (
            chain (emit-At _ refl refl) (
              chain (must_return-keeps env _ _ _ refl none_yet) (
                chain
                  (wait_until-At env _ pub_listener-keeps _ _ _ _ _ none_yet (omega arith)
                    (omega arith))
                  (chain (given (λ w h. h.0) discover_subscription-Steps) (
                    chain (write_loop-At env sample _ _ 0 3 3 (omega arith)) (
                      chain
                        (wait_until-At env _ pub_listener-keeps _ _ _ _ _ all_sent (omega arith)
                          (omega arith))
                        (given (λ w h. record { quiet = h.0.quiet; holds = (h.0.holds, h.1) })
                          (weaken (emit-At {J = SentAt} _ refl refl) λ _ w h. record {
                            quiet = h.quiet;
                            sent = h.holds.0;
                            reader_left = h.holds.1;
                          })))))))))))
    where
      all_sent : Covers {St = PubState} (Seen (λ ws. ws ≡ first_n sample 3)) (UpTo sample 3)
      all_sent st ws h = (3, omega arith, h)

  -- Whatever the library answers and discovers, the discovery publisher's process ends: with status 0,
  -- no line on stderr, samples 0, 1 and 2 written in order and the matched reader gone again, or with
  -- status 1, one line on stderr, and samples 0 to k - 1 written for some k up to 3.
  pub discovery_publisher-Ends :
      (argv : List Text)
      → Holds (λ _ _. ⊥) (Ends samples (Sent sample 3) (UpTo sample 3)) (main env argv start)
  unfolding main first_n
  discovery_publisher-Ends argv = (finish (body-At argv)).run start (start-At fresh_pub_state refl)
