-- ===== src/Apps/Waitset/Subscriber/Contract.antt =====
-- How a run of the waitset subscriber ends.
use zzdds_examples.Base.{ℕ, suc, ◌≤◌, ◌≡◌, refl, true, List, [], arith}
use zzdds_examples.Base.Text.{Text}
use zzdds_examples.Dds.{ReturnCode}
use zzdds_examples.Apps.Waitset.{guard_condition, condition_active}
use zzdds_examples.Runtime.Event.{
  Call, Log, called, observed, wait, detach_condition, delete_readcondition, delete_datareader,
}
use zzdds_examples.Runtime.Program.{Env}
use zzdds_examples.Runtime.Contract.{
  Does, At, Failed, Holds, Ends, bind, chain, given, weaken, finish, start-At,
}
use zzdds_examples.Runtime.Contract.Seen.{emit-At, invoke-At, unwritten, must_create-keeps}
use zzdds_examples.Apps.Common.Keeps.{bring_up-keeps}
use zzdds_examples.Apps.Common.Receiver.{NoSample}
use zzdds_examples.Apps.Waitset.Subscriber.{Answers, fresh_sub_state, tear_down, body, main}
use zzdds_examples.Apps.Waitset.Subscriber.Sights.{
  sights, sights-IgnoresSetup, start, wait_count, Received, TooFew, Wanting, lost,
}
use zzdds_examples.Apps.Waitset.Subscriber.Rounds.{
  Steps, Fires, Enough, set_up_waitset-Steps, wait_loop-Steps,
}

module _ (env : Env NoSample NoSample) (answers : Answers) (rounds : ℕ)
    (watchdog : Fires env answers rounds) where
  tear_down-Steps : Steps (Enough env answers) (tear_down env answers) (Enough env answers)
  unfolding tear_down
  tear_down-Steps =
      let call = λ (c : Call NoSample) (e : sights.see (called c) ≡ []).
        invoke-At env {seen = sights} {J = (Enough env answers)} {J' = (Enough env answers)}
          {K = TooFew} c (unwritten sights (Enough env answers) c e) in
      bind (call (detach_condition 0) refl) λ rc. bind (call (detach_condition 1) refl) λ rc.
        bind (call (detach_condition 2) refl) λ rc. bind (call (detach_condition 3) refl) λ rc.
          bind (call (delete_readcondition 1) refl) λ rc.
            bind (call (delete_readcondition 2) refl)
              λ rc. bind (call delete_datareader refl) λ rc. emit-At _ refl refl

  body-Steps :
      (argv : List Text)
      → Does
          (At sights (Wanting 0))
          (body env answers argv (suc rounds))
          (λ _. Received)
          (Failed sights TooFew)
  unfolding body
  body-Steps argv = chain (bring_up-keeps env _ _ sights-IgnoresSetup (lost 0)) (
      chain (must_create-keeps env _ _ _ refl (lost 0)) (
        chain (must_create-keeps env _ _ _ refl (lost 0)) (
          chain (emit-At _ refl refl) (
            chain (set_up_waitset-Steps env answers) (
              chain
                (given (λ w h. record { quiet = h.quiet; holds = h.holds.0 })
                  (wait_loop-Steps env answers rounds watchdog (suc rounds) 0 (omega arith)
                    (omega arith)))
                (chain (emit-At _ refl refl) (
                  weaken tear_down-Steps λ _ w h. record {
                    quiet = h.quiet;
                    enough = h.holds.0;
                    labelled = h.holds.1;
                  })))))))

-- If from some number of waits on every wait() finds the watchdog's guard condition active, the
-- waitset subscriber's process ends, whatever the library answers otherwise: with status 0, no line on
-- stderr and at least ten samples reported, or with status 1, one line on stderr and fewer than ten
-- samples reported. Each line on a sample says high-priority if its priority is above 4 and
-- low-priority if it is not. One wait more than the watchdog leaves is enough fuel.
pub waitset_subscriber-Ends :
    (env : Env NoSample NoSample) (answers : Answers) (argv : List Text) (rounds : ℕ)
    → ((log : Log NoSample)
        → rounds ≤ wait_count (observed sights log)
        → (env.returns log wait ≡ ReturnCode.ok)
          × (condition_active (answers.active log) guard_condition ≡ true))
    → Holds (λ _ _. ⊥) (Ends sights Received TooFew) (main env answers argv (suc rounds) start)
unfolding main
waitset_subscriber-Ends env answers argv rounds watchdog =
    (finish (body-Steps env answers rounds watchdog argv)).run start (
      start-At fresh_sub_state
        (record { counted = refl; waits = refl; labelled = tt }, omega arith))
