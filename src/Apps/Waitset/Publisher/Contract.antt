-- ===== src/Apps/Waitset/Publisher/Contract.antt =====
-- How a run of the waitset publisher ends.
use mathlib.Core.List.{append-nil}
use zzdds_examples.Base.{some, ℕ, zero, suc, ◌≤◌, ◌≡◌, refl, sym, ◌∙◌, true, List, [], ◌++◌, arith}
use zzdds_examples.Base.Text.{Text}
use zzdds_examples.Dds.{ReturnCode}
use zzdds_examples.Runtime.Event.{Log, observed, wait}
use zzdds_examples.Runtime.Program.{Env}
use zzdds_examples.Runtime.Contract.{
  Does, At, Failed, Holds, Ends, bind, chain, weaken, finish, start-At, return-Does,
}
use zzdds_examples.Runtime.Contract.Seen.{must_create-keeps, must_return-At}
use zzdds_examples.Apps.Common.Keeps.{bring_up-keeps}
use zzdds_examples.Apps.Common.Receiver.{NoSample}
use zzdds_examples.Apps.Waitset.{WaitsetSample, Condition, guard_condition, condition_active}
use zzdds_examples.Apps.Waitset.Publisher.{
  PubState, fresh_pub_state, set_matched_status, set_disconnected_status, is_matched,
  is_disconnected, write_all, body, main,
}
use zzdds_examples.Apps.Waitset.Publisher.Tale.{
  Step, counted, steps, steps-IgnoresSetup, start, wait_count, samples_from, ending, tale, Matched,
  Whole, FirstPart, ToCome, ToCome-FirstPart, ToCome-next,
}
use zzdds_examples.Apps.Waitset.Publisher.Rounds.{
  Tells, emit-Tells, silent-Tells, set_up_conditions-Tells, await-Tells,
}

abbrev Fresh : PubState → Type 0
Fresh st = Unit

abbrev Left : PubState → Type 0
Left st = Matched st × (st.disconnected_status ≡ some 0)

module _ (env : Env WaitsetSample NoSample) (active : Log WaitsetSample → List Condition) where
  write_all-Tells :
      (Known : PubState → Type 0) (i count : ℕ) (rest : List Step)
      → Tells
          (ToCome Known 0 (samples_from i count ++ rest))
          (write_all env active i count)
          (λ _. ToCome Known 0 rest)
  unfolding write_all
  write_all-Tells Known i zero rest = return-Does tt
  write_all-Tells Known i (suc count) rest =
      chain
        (must_return-At env _ _ _ (λ st xs h. ToCome-next Known 0 _ _ st xs refl h)
          (ToCome-FirstPart Known 0 _))
        (chain (emit-Tells Known 0 _ (counted i i) _ refl refl refl)
          (write_all-Tells Known (suc i) count rest))

  left : (n : ℕ) → is_disconnected n ≡ true → some n ≡ some 0
  left n e = ground arith

  body-Tells :
      (argv : List Text) (rounds : ℕ)
      → ((log : Log WaitsetSample)
          → rounds ≤ wait_count (observed steps log)
          → (env.returns log wait ≡ ReturnCode.ok)
            × (condition_active (active log) guard_condition ≡ true))
      → Does
          (At steps (ToCome Fresh 0 tale))
          (body env active argv (suc rounds))
          (λ _. Whole)
          (Failed steps FirstPart)
  unfolding body
  body-Tells argv rounds watchdog =
      chain (bring_up-keeps env _ _ steps-IgnoresSetup (ToCome-FirstPart Fresh 0 _)) (
        chain (must_create-keeps env _ _ _ refl (ToCome-FirstPart Fresh 0 _)) (
          chain (must_create-keeps env _ _ _ refl (ToCome-FirstPart Fresh 0 _)) (
            chain (emit-Tells Fresh 0 _ _ _ refl refl refl) (
              chain (set_up_conditions-Tells env active Fresh _) (
                chain
                  (await-Tells env active Fresh Matched _ _ set_matched_status is_matched _
                    (λ n st h. tt) (λ n st h e. (n, refl, ground arith)) rounds watchdog
                    (suc rounds) 0 (omega arith) (omega arith))
                  (chain (write_all-Tells Matched 0 10 ending) (
                    chain
                      (await-Tells env active Matched Left _ _ set_disconnected_status
                        is_disconnected _ (λ n st h. h) (λ n st h e. (h, left n e)) rounds watchdog
                        (suc rounds) 0 (omega arith) (omega arith))
                      (bind (silent-Tells env active Left 0 _ _ refl) λ rc.
                        chain (emit-Tells Left 0 _ _ _ refl refl refl) (
                          bind (silent-Tells env active Left 0 _ _ refl) λ rc.
                            weaken (emit-Tells Left 0 _ _ [] refl refl refl) (λ _ w h. record {
                              quiet = h.quiet;
                              matched = h.holds.2.0;
                              disconnected = h.holds.2.1;
                              whole = sym (append-nil _) ∙ h.holds.1;
                            }))))))))))

-- If from some number of waits on every wait() finds the watchdog's guard condition active, the waitset
-- publisher's process ends, whatever the library answers otherwise: with status 0, no line on stderr
-- and, in this order, the line on the writer, the line on a matched reader, the samples 0 to 9 with a
-- line after each, the line on the reader that has left and the last two lines, where the first loop
-- ended on a status with a reader and the second on one with none, or with status 1, one line on stderr
-- and a first part of these. Each loop has enough fuel with one wait more than the
-- watchdog leaves.
pub waitset_publisher-Ends :
    (env : Env WaitsetSample NoSample) (active : Log WaitsetSample → List Condition)
    (argv : List Text) (rounds : ℕ)
    → ((log : Log WaitsetSample)
        → rounds ≤ wait_count (observed steps log)
        → (env.returns log wait ≡ ReturnCode.ok)
          × (condition_active (active log) guard_condition ≡ true))
    → Holds (λ _ _. ⊥) (Ends steps Whole FirstPart) (main env active argv (suc rounds) start)
unfolding main
waitset_publisher-Ends env active argv rounds watchdog =
    (finish (body-Tells env active argv rounds watchdog)).run start
      (start-At fresh_pub_state (omega arith, refl, tt))
