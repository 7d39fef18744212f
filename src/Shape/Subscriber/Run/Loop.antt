-- ===== src/Shape/Subscriber/Run/Loop.antt =====
-- The loop of the shape subscriber keeps what each of its reads keeps, and comes to its end.
use zzdds_examples.Base.{
  ℕ, zero, suc, ◌+◌, ◌<◌, ◌≤◌, ◌≡◌, refl, ◌||◌, Bool, true, false, List, leb, arith, Bool-cases,
  inl, inr,
}
use zzdds_examples.Base.Text.{Text}
use zzdds_examples.Base.Int.{pos}
use zzdds_examples.Runtime.Program.{M, Env}
use zzdds_examples.Runtime.Event.{samples, begin_access, end_access}
use zzdds_examples.Runtime.Contract.{
  Does, At, Failed, bind, chain, when-Does, for_each-Does, if-Does, signalled-Does, return-Does,
}
use zzdds_examples.Runtime.Contract.Seen.{emit-At, invoke-At, unwritten}
use zzdds_examples.Runtime.Wait.{deliver-At}
use zzdds_examples.Apps.Common.Receiver.{NoSample}
use zzdds_examples.Shape.Options.{Options}
use zzdds_examples.Shape.Publisher.Run.{finished}
use zzdds_examples.Shape.Subscriber.{
  SubRun, ReaderCallback, requested_incompatible_qos, requested_deadline_missed, reader_listener,
}
use zzdds_examples.Shape.Subscriber.Run.{
  Read, Readers, enter_access, leave_access, read_topic, subscribe,
}

abbrev pub Steps :
    {A : Type 0}
    → (SubRun → List NoSample → Type 0)
    → (List NoSample → Type 0)
    → M NoSample SubRun A
    → Type 0
Steps J K m = Does (At samples J) m (λ _. At samples J) (Failed samples K)

-- Any property of the state and of what is seen, which no line and no quiet call touches.
module _ {J : SubRun → List NoSample → Type 0} {K : List NoSample → Type 0} where
  listener-Steps : (c : ReaderCallback) → Steps J K (reader_listener c)
  unfolding reader_listener
  listener-Steps (requested_incompatible_qos topic id) = emit-At _ refl refl
  listener-Steps (requested_deadline_missed topic total change) = emit-At _ refl refl

  module _ (env : Env NoSample ReaderCallback) (opts : Options) where
    enter_access-Steps : (iteration : ℕ) → Steps J K (enter_access env opts iteration)
    unfolding enter_access
    enter_access-Steps iteration = when-Does _ (
        chain (when-Does _ (emit-At _ refl refl)) (
          chain (when-Does _ (emit-At _ refl refl)) (
            bind (invoke-At env {J' = J} _ (unwritten {S = NoSample} samples J begin_access refl))
              λ rc. return-Does tt)))

    leave_access-Steps : Steps J K (leave_access env opts)
    unfolding leave_access
    leave_access-Steps = when-Does _ (
        bind (invoke-At env {J' = J} _ (unwritten {S = NoSample} samples J end_access refl))
          λ rc. return-Does tt)

    module _ (readers : Readers) (sort : List Read → List Read)
        (reads : (ti : ℕ) (name : Text) → Steps J K (read_topic env opts readers sort ti name))
        (n : ℕ) (finite : opts.num_iterations ≡ pos n) where
      finished-leb : (iteration : ℕ) → finished opts iteration ≡ leb n iteration
      finished-leb iteration = rw finite refl

      or_true : (b : Bool) → (b || true) ≡ true
      or_true true = refl
      or_true false = refl

      -- The loop comes to its end with fuel for the rounds that are left and one more.
      pub subscribe-Steps :
          (names : List Text) (fuel iteration : ℕ)
          → iteration ≤ n
          → n < fuel + iteration
          → Steps J K (subscribe env opts readers sort names fuel iteration)
      unfolding subscribe
      subscribe-Steps names zero iteration low high = absurd (omega arith)
      subscribe-Steps names (suc fuel) iteration low high =
          chain (deliver-At env _ listener-Steps) (
            bind (signalled-Does env) λ all_done. elim (Bool-cases (leb n iteration)) [
              | inl last ↦ rw (finished-leb iteration, last, or_true all_done) (return-Does tt)
              | inr more ↦ if-Does _ (return-Does tt) (
                  chain (enter_access-Steps iteration) (
                    chain (for_each-Does _ reads 0 names) (
                      chain leave_access-Steps (
                        chain (emit-At _ refl refl) (
                          subscribe-Steps names fuel (suc iteration) (ground arith)
                            (omega arith))))))
            ])
