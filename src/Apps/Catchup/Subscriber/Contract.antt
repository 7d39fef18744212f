-- ===== src/Apps/Catchup/Subscriber/Contract.antt =====
-- How a run of the catchup subscriber ends.
use Prim.Native.String.{String}
use mathlib.Core.List.{append_assoc}
use zzdds_examples.Base.{
  ℕ, sym, ◌∙◌, ◌++◌, ◌≡◌, refl, ◌==◌, not, ◌&&◌, Bool, true, false, List, [], ◌∷◌, All, Bool-cases,
  inl, inr, if◌then◌else◌, arith,
}
use zzdds_examples.Base.Text.{Text}
use zzdds_examples.Base.Int.{ℤ, pos, negsuc, pos_part}
use zzdds_examples.Dds.{SampleInfo, Taken, sample, take_error}
use zzdds_examples.Runtime.Event.{Arg, observed, wait_for_historical_data, delete_datareader}
use zzdds_examples.Runtime.Program.{World, Env, M, check, when, modify, get, return, ◌>>=◌}
use zzdds_examples.Runtime.Contract.{
  Does, At, Failed, Holds, Ends, bind, chain, given, weaken, finish, start-At, get-Does,
  return-Does,
}
use zzdds_examples.Runtime.Contract.Seen.{
  emit-At, fail-At, check-At, invoke-At, emit-Turns, modify-Turns, unwritten, must_create-keeps,
  must_return-keeps,
}
use zzdds_examples.Runtime.Wait.{deliver, Arrives, deliver-Arrives, wait_until-Arrives}
use zzdds_examples.Apps.Common.Keeps.{bring_up-keeps}
use zzdds_examples.Apps.Common.Receiver.{NoSample}
use zzdds_examples.Apps.Catchup.{HistoryEvent, historical_count}
use zzdds_examples.Apps.Catchup.Subscriber.{
  SubState, fresh_sub_state, count_raised, ready_to_finish, between, receive, take_loop,
  on_data_available, await_history, body, main,
}
use zzdds_examples.Apps.Catchup.Subscriber.Flags.{On, all_raised-Raised}
use zzdds_examples.Apps.Catchup.Subscriber.Progress.{
  live, live-IgnoresSetup, start, IsLive, CaughtUp, Flagged, Going, Told, lost, lost',
  raise_historical, tell, raise_live, became, finish_up, count_passed, confirm, live_raised,
  fresh-Backed, fresh-Raised,
}

abbrev Steps :
    {A : Type 0}
    → (SubState → List ℤ → Type 0)
    → M NoSample SubState A
    → (A → SubState → List ℤ → Type 0)
    → Type 0
Steps J m J' = Does (At live J) m (λ a. At live (J' a)) (Failed live (All IsLive))

-- `Came` holds of the numbers of the valid samples among what is taken.
abbrev Brings : (ℕ → Type 0) → List (Taken HistoryEvent) → Type 0
Brings Came [] = Unit
Brings Came (take_error rc ∷ rest) = Brings Came rest
Brings Came (sample info v ∷ rest) =
    (info.valid_data ≡ true → (n : ℕ) → v.seq_num ≡ pos n → Came n) × Brings Came rest

historical_index : (z : ℤ) → between 0 10 z ≡ true → z ≡ pos (pos_part z)
historical_index (pos n) old = refl
historical_index (negsuc n) old = absurd (ground arith)

module _ (Came : ℕ → Type 0) (counted : Bool) where
  became-Steps :
      (b : Bool)
      → Steps
          (Going Came counted b)
          (do st ← get; return (if not st.all_done && not b && ready_to_finish st then true else b))
          (Going Came counted)
  became-Steps b = bind get-Does λ st.
      given
        (λ w h. record {
          quiet = h.0.quiet;
          holds = rw (← h.1) (became Came counted b w.state _ h.0.holds);
        })
        (return-Does _)

  receive-Steps :
      (z : ℤ) (b : Bool)
      → ((n : ℕ) → z ≡ pos n → Came n)
      → Steps (Going Came counted b) (receive z b) (Going Came counted)
  unfolding receive
  receive-Steps z b comes = elim (Bool-cases (between 0 10 z)) [
    | inl old ↦ rw old (
        chain
          (modify-Turns _ (λ st xs h.
            raise_historical Came counted b (pos_part z) st xs
              (comes (pos_part z) (historical_index z old)) h))
          (return-Does b))
    | inr later ↦ elim (Bool-cases (between 10 15 z)) [
      | inl is_live ↦
          rw (later, is_live)
            (chain
              (emit-Turns {J' = Told Came counted b z} _ refl
                (λ st xs h. tell Came counted b z st xs is_live h))
              (chain (modify-Turns _ (λ st xs h. raise_live Came counted b z st xs is_live h))
                (became-Steps b)))
      | inr other ↦ rw (later, other) (fail-At _ _ (lost' Came counted b))
    ]
  ]

  take_loop-Steps :
      (ts : List (Taken HistoryEvent)) (b : Bool)
      → Brings Came ts
      → Steps (Going Came counted b) (take_loop ts b) (Going Came counted)
  unfolding take_loop
  take_loop-Steps [] b brings = return-Does b
  take_loop-Steps (take_error rc ∷ rest) b brings = fail-At _ _ (lost' Came counted b)
  take_loop-Steps (sample info v ∷ rest) b brings =
      bind
        (elim (Bool-cases info.valid_data) [
          | inl valid ↦ rw valid (receive-Steps v.seq_num b (brings.0 valid))
          | inr invalid ↦ rw invalid (return-Does b)
        ])
        λ b'. take_loop-Steps rest b' brings.1

  commit-Steps :
      (b : Bool)
      → Steps
          (Going Came counted b)
          (when b (modify λ st. record st { all_done = true }))
          (λ _. Flagged Came counted)
  unfolding when
  commit-Steps true = modify-Turns _ (finish_up Came counted)
  commit-Steps false = given (λ w h. record { quiet = h.quiet; holds = h.holds.0 }) (return-Does tt)

  -- Whatever one callback takes.
  on_data_available-Steps :
      (ts : List (Taken HistoryEvent))
      → Brings Came ts
      → Steps (Flagged Came counted) (on_data_available ts) (λ _. Flagged Came counted)
  unfolding on_data_available
  on_data_available-Steps ts brings =
      given (λ w h. record { quiet = h.quiet; holds = (h.holds, λ e. absurd (ground arith)) })
        (bind (take_loop-Steps ts false brings) commit-Steps)

finish_history-Steps :
    (Came : ℕ → Type 0)
    → Steps
        (Flagged Came true)
        (do st' ← get; when (ready_to_finish st') (modify λ st. record st { all_done = true }))
        (λ _. Flagged Came true)
finish_history-Steps Came = bind get-Does λ st'.
    given (λ w h. record { quiet = h.0.quiet; holds = (h.0.holds, λ e. rw (h.1) e) })
      (commit-Steps Came true (ready_to_finish st'))

-- The library has called on_data_available and given it a valid sample with the number `n`.
abbrev pub Delivered : Env NoSample (List (Taken HistoryEvent)) → ℕ → Type 0
Delivered env n =
    (ts : List (Taken HistoryEvent)) × Arrives env on_data_available ts
    × (before : List (Taken HistoryEvent)) × (after : List (Taken HistoryEvent))
    × (info : SampleInfo) × (v : HistoryEvent) × (ts ≡ before ++ sample info v ∷ after)
    × (info.valid_data ≡ true)
    × (v.seq_num ≡ pos n)

brings :
    (env : Env NoSample (List (Taken HistoryEvent))) (ts : List (Taken HistoryEvent))
    → Arrives env on_data_available ts
    → Brings (Delivered env) ts
brings env ts here = rest_of [] ts refl
  where
    rest_of :
        (before rest : List (Taken HistoryEvent))
        → ts ≡ before ++ rest
        → Brings (Delivered env) rest
    rest_of before [] e = tt
    rest_of before (take_error rc ∷ rest) e =
        rest_of (before ++ take_error rc ∷ []) rest
          (e ∙ sym (append_assoc before (take_error rc ∷ []) rest))
    rest_of before (sample info v ∷ rest) e = (
      λ valid n number. (ts, here, before, rest, info, v, e, valid, number),
      rest_of (before ++ sample info v ∷ []) rest
          (e ∙ sym (append_assoc before (sample info v ∷ []) rest)),
    )

module _ (env : Env NoSample (List (Taken HistoryEvent))) where
  deliver-Steps :
      (c : Bool)
      → Steps
          (Flagged (Delivered env) c)
          (deliver env on_data_available)
          (λ _. Flagged (Delivered env) c)
  deliver-Steps c =
      deliver-Arrives env on_data_available
        (λ ts here. on_data_available-Steps (Delivered env) c ts (brings env ts here))

  -- The test of the count that was read from `st`.
  count-Steps :
      (st : SubState) (s : String) (args : List Arg)
      → Does
          (λ w. At live (Flagged (Delivered env) false) w × (w.state ≡ st))
          (check (count_raised st.historical_received == historical_count) s args)
          (λ _. At live (Flagged (Delivered env) true))
          (Failed live (All IsLive))
  count-Steps st s args =
      given (λ w h. record { quiet = h.0.quiet; holds = (h.0.holds, h.1) })
        (weaken
          (check-At {J = λ st' xs. Flagged (Delivered env) false st' xs × (st' ≡ st)} _ _ _
            (λ st' xs h. h.0.only_live))
          (λ _ w h. record {
            quiet = h.0.quiet;
            holds = count_passed w.state _ (rw (h.0.holds.1) h.1) h.0.holds.0;
          }))

  await_history-Steps :
      Steps (Flagged (Delivered env) false) (await_history env) (λ _. Flagged (Delivered env) true)
  unfolding await_history
  await_history-Steps =
      bind
        (invoke-At env {J' = Flagged (Delivered env) false} _ (
          unwritten {S = NoSample} live (Flagged (Delivered env) false)
            (wait_for_historical_data (record { sec = pos 10; nanosec = 0 })) refl))
        λ rc. chain (weaken (check-At _ _ _ (lost (Delivered env) false)) (λ a w h. h.0)) (
          chain (emit-At _ refl refl) (
            chain (deliver-Steps false) (
              bind get-Does λ st. chain (count-Steps st _ _) (
                chain (emit-At _ refl refl) (
                  chain (deliver-Steps true) (
                    chain (modify-Turns _ confirm)
                      (chain (deliver-Steps true) (finish_history-Steps (Delivered env)))))))))

  Finished : SubState → List ℤ → Type 0
  Finished st xs = Flagged (Delivered env) true st xs × (st.all_done ≡ true)

  body-Steps :
      (argv : List Text)
      → Does
          (At live (Flagged (Delivered env) false))
          (body env argv)
          (λ _. CaughtUp (Delivered env))
          (Failed live (All IsLive))
  unfolding body Finished
  body-Steps argv = chain (bring_up-keeps env _ _ live-IgnoresSetup (lost (Delivered env) false)) (
      chain (must_create-keeps env _ _ _ refl (lost (Delivered env) false)) (
        chain (must_create-keeps env _ _ _ refl (lost (Delivered env) false)) (
          chain (emit-At _ refl refl) (
            chain (must_return-keeps env _ _ _ refl (lost (Delivered env) false)) (
              chain await_history-Steps (
                chain
                  (wait_until-Arrives env _
                    (λ ts here.
                      on_data_available-Steps (Delivered env) true ts (brings env ts here))
                    _ _ _ _ _ (lost (Delivered env) true) (omega arith) (omega arith))
                  (given (λ w h. record { quiet = h.0.quiet; holds = (h.0.holds, h.1) })
                    (bind
                      (invoke-At env {J' = Finished} _
                        (unwritten {S = NoSample} live Finished delete_datareader refl))
                      λ rc.
                        weaken (emit-At {J = Finished} _ refl refl) (λ _ w h. caught_up w h)))))))))
    where
      caught_up : (w : World NoSample SubState) → At live Finished w → CaughtUp (Delivered env) w
      caught_up w h =
          let f = h.holds.0 in
          let ready = f.complete h.holds.1 in
          record {
            quiet = h.quiet;
            historical = rw f.historical_length at (
                all_raised-Raised (Delivered env) 0 w.state.historical_received f.came
                  (f.stays refl));
            all_live = rw f.live_length at (
                all_raised-Raised (On (observed live w.log)) 10 w.state.live_received f.backed
                  (live_raised w.state ready));
          }

  -- Whatever the library answers and delivers, the catchup subscriber's process ends: with status 0,
  -- nothing on stderr, a valid sample delivered with each of the numbers 0 to 9 and the numbers 10 to 14
  -- on a line each, or with status 1 and one line on stderr; either way only numbers from 10 to 14 are
  -- on the lines.
  pub catchup_subscriber-Ends :
      (argv : List Text)
      → Holds (λ _ _. ⊥) (Ends live (CaughtUp (Delivered env)) (All IsLive)) (main env argv start)
  unfolding main
  catchup_subscriber-Ends argv = (finish (body-Steps argv)).run start (
      start-At fresh_sub_state (
        unfold fresh_sub_state in
        record {
          came = fresh-Raised (Delivered env);
          historical_length = refl;
          live_length = refl;
          backed = fresh-Backed;
          stays = λ e. absurd (ground arith);
          confirmed = λ e. absurd (ground arith);
          complete = λ e. absurd (ground arith);
          only_live = tt;
        }))
