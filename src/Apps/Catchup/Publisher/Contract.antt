-- ===== src/Apps/Catchup/Publisher/Contract.antt =====
-- How a run of the catchup publisher ends.
use zzdds_examples.Base.{ℕ, ◌≤◌, ◌≡◌, refl, true, List, [], first_n, arith}
use zzdds_examples.Base.Text.{Text}
use zzdds_examples.Runtime.Event.{samples, written, failures}
use zzdds_examples.Runtime.Program.{World, Env}
use zzdds_examples.Runtime.Contract.{
  Does, At, Failed, Holds, Ends, Covers, chain, given, weaken, finish, start-At,
}
use zzdds_examples.Runtime.Contract.Seen.{emit-At, modify-At, must_create-keeps, must_return-keeps}
use zzdds_examples.Runtime.Wait.{wait_until-At}
use zzdds_examples.Apps.Common.Keeps.{
  Seen, UpTo, samples-IgnoresSetup, bring_up-keeps, write_loop-part,
}
use zzdds_examples.Apps.Catchup.{HistoryEvent}
use zzdds_examples.Apps.Catchup.Publisher.{
  PubState, fresh_pub_state, on_publication_matched, event, drained, body, main,
}

abbrev pub start : World HistoryEvent PubState
start = record { log = []; state = fresh_pub_state }

-- The end of a publisher that returned 0.
pub record CaughtUp (w : World HistoryEvent PubState) : Type 0 where
  pub quiet : failures w.log ≡ 0
  pub sent : written w.log ≡ first_n event 15
  pub reader_left : drained w.state ≡ true

abbrev Wrote : ℕ → PubState → List HistoryEvent → Type 0
Wrote n = Seen (λ ws. ws ≡ first_n event n)

matched-keeps :
    {P K : List HistoryEvent → Type 0} (n : ℕ)
    → Does
        (At samples (Seen P))
        (on_publication_matched n)
        (λ _. At samples (Seen P))
        (Failed {St = PubState} samples K)
unfolding on_publication_matched
matched-keeps n = chain (modify-At _ (λ st ws h. h)) (emit-At _ refl refl)

module _ (env : Env HistoryEvent ℕ) where
  AllSent : PubState → List HistoryEvent → Type 0
  AllSent st ws = Wrote 15 st ws × (drained st ≡ true)

  body-At :
      (argv : List Text)
      → Does (At samples (Wrote 0)) (body env argv) (λ _. CaughtUp) (Failed samples (UpTo event 15))
  unfolding body AllSent
  body-At argv = chain (bring_up-keeps env _ _ samples-IgnoresSetup (so_far 0 (omega arith))) (
      chain (must_create-keeps env _ _ _ refl (so_far 0 (omega arith))) (
        chain (must_create-keeps env _ _ _ refl (so_far 0 (omega arith))) (
          chain (emit-At _ refl refl) (
            chain (must_return-keeps env _ _ _ refl (so_far 0 (omega arith))) (
              chain (write_loop-part env event _ _ 0 10 10 15 (omega arith) (omega arith)) (
                chain
                  (wait_until-At env _ matched-keeps _ _ _ _ _ (so_far 10 (omega arith))
                    (omega arith) (omega arith))
                  (chain (given (λ w h. h.0) (emit-At _ refl refl)) (
                    chain (write_loop-part env event _ _ 10 5 15 15 (omega arith) (omega arith)) (
                      chain
                        (wait_until-At env _ matched-keeps _ _ _ _ _ (so_far 15 (omega arith))
                          (omega arith) (omega arith))
                        (given (λ w h. record { quiet = h.0.quiet; holds = (h.0.holds, h.1) })
                          (weaken (emit-At {J = AllSent} _ refl refl) λ _ w h. record {
                            quiet = h.quiet;
                            sent = h.holds.0;
                            reader_left = h.holds.1;
                          })))))))))))
    where
      so_far : (k : ℕ) → k ≤ 15 → Covers (Wrote k) (UpTo event 15)
      so_far k low st ws h = (k, low, h)

  -- Whatever the library answers and in whatever order the callbacks come, the catchup publisher's
  -- process ends: with status 0, no line on stderr, events 0 to 14 written in order and the matched
  -- reader gone again, or with status 1, one line on stderr, and events 0 to k - 1 written for some k
  -- up to 15.
  pub catchup_publisher-Ends :
      (argv : List Text)
      → Holds (λ _ _. ⊥) (Ends samples CaughtUp (UpTo event 15)) (main env argv start)
  unfolding main first_n
  catchup_publisher-Ends argv = (finish (body-At argv)).run start (start-At fresh_pub_state refl)
