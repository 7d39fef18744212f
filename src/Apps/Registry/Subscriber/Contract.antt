-- ===== src/Apps/Registry/Subscriber/Contract.antt =====
-- How a run of the registry subscriber ends.
use zzdds_examples.Base.{
  ◌≡◌, refl, ◌&&◌, not, Bool, true, false, List, [], ◌∷◌, Bool-cases, Option-cases, inl, inr, arith,
}
use zzdds_examples.Base.Text.{Text, codes}
use zzdds_examples.Base.Int.{ℤ, pos, ==ℤ→eq}
use zzdds_examples.Dds.{InstanceState, SampleInfo, Taken, sample, take_error}
use zzdds_examples.Runtime.Event.{lookup_instance, delete_datareader}
use zzdds_examples.Runtime.Program.{Env, M, when, modify}
use zzdds_examples.Runtime.Contract.{
  Does, At, Failed, Holds, Ends, Covers, bind, chain, given, weaken, known, finish, start-At,
  get-Does, return-Does,
}
use zzdds_examples.Runtime.Contract.Seen.{
  emit-At, fail-At, check-At, query-At, invoke-At, emit-Turns, modify-Turns, unwritten,
  must_create-keeps, must_return-keeps,
}
use zzdds_examples.Runtime.Wait.{wait_until-At}
use zzdds_examples.Apps.Common.Keeps.{bring_up-keeps}
use zzdds_examples.Apps.Common.Receiver.{NoSample}
use zzdds_examples.Apps.Registry.{SensorReading}
use zzdds_examples.Apps.Registry.Subscriber.{
  InstanceTrack, SubState, fresh_sub_state, state_name, find_track, found_track, track_for,
  put_track, set_track, all_instances_done, change_state, look_up, confirm, observe, take_loop,
  on_data_available, body, main,
}
use zzdds_examples.Apps.Registry.Subscriber.Tracks.{Line, Track, done-lifecycles}
use zzdds_examples.Apps.Registry.Subscriber.Lines.{
  lines, lines-IgnoresSetup, start, Known, Observed, Tracking, Going, lost, Current, Told, current,
  tell, put-Going, handled, Facts-Track, seen_alive, ended,
}

-- A program between two properties of the state and the lines, where a failure has only known lines.
abbrev Steps :
    {A : Type 0}
    → (SubState → List Line → Type 0)
    → M NoSample SubState A
    → (A → SubState → List Line → Type 0)
    → Type 0
Steps J m J' = Does (At lines J) m (λ a. At lines (J' a)) (Failed lines Known)

track_for-Steps :
    (b : Bool) (sensor_id : ℤ) → Steps (Going b) (track_for sensor_id) (Current b sensor_id)
unfolding track_for found_track
track_for-Steps b sensor_id = bind get-Does λ st.
    elim (Option-cases (find_track sensor_id st.tracks)) [
      | inl missing ↦ rw missing (given (λ w h. h.0) (fail-At _ _ (lost b)))
      | inr (t, found) ↦ rw found (
          given
            (λ w h. record {
              quiet = h.0.quiet;
              holds = current b sensor_id t w.state _ h.0.holds (rw h.1 found);
            })
            (return-Does t))
    ]

set_track-Steps :
    {J : SubState → List Line → Type 0} {J' : SubState → List Line → Type 0} (t : InstanceTrack)
    → ((st : SubState) (xs : List Line)
        → J st xs
        → J' (record st { tracks = put_track t st.tracks }) xs)
    → Steps J (set_track t) (λ _. J')
unfolding set_track
set_track-Steps t k = modify-Turns _ k

change_state-Steps :
    (b : Bool) (s : InstanceState) (t : InstanceTrack) (n : ℤ)
    → Steps (Told b (n, state_name s) t) (change_state s t) (λ _. Going b)
unfolding change_state
change_state-Steps b InstanceState.alive t n =
    set_track-Steps _ (λ st ys h. put-Going b _ st ys (seen_alive n t ys h.1) h.0)
change_state-Steps b InstanceState.not_alive_disposed t n =
    chain (check-At _ _ _ (λ st ys h. lost b st ys h.0)) (
      known λ first. chain (check-At _ _ _ (λ st ys h. lost b st ys h.0)) (
        known λ alive. set_track-Steps _ (λ st ys h.
          put-Going b _ st ys
            (ended n (codes "NOT_ALIVE_DISPOSED") t ys h.1
              (rw (==ℤ→eq t.sensor_id (pos 1) first) refl) alive)
            h.0)))
change_state-Steps b InstanceState.not_alive_no_writers t n =
    chain (check-At _ _ _ (λ st ys h. lost b st ys h.0)) (
      known λ second. chain (check-At _ _ _ (λ st ys h. lost b st ys h.0)) (
        known λ alive. set_track-Steps _ (λ st ys h.
          put-Going b _ st ys
            (ended n (codes "NOT_ALIVE_NO_WRITERS") t ys h.1
              (rw (==ℤ→eq t.sensor_id (pos 2) second) refl) alive)
            h.0)))
change_state-Steps b (InstanceState.unknown_state k) t n = fail-At _ _ (λ st ys h. lost b st ys h.0)

module _ (env : Env NoSample (List (Taken SensorReading))) where
  look_up-Steps : Steps (Going true) (look_up env) Going
  unfolding look_up
  look_up-Steps = bind (track_for-Steps true (pos 3)) λ c_track.
      given (λ w h. record { quiet = h.quiet; holds = h.holds.0 })
        (bind
          (query-At env {J' = Going true} _
            (unwritten {S = NoSample} lines (Going true) (lookup_instance (pos 3)) refl))
          λ looked_up.
            chain (weaken (check-At _ _ _ (lost true)) (λ a w h. h.0))
              (chain (emit-At _ refl refl) (return-Does true)))

  confirm-Steps : (b : Bool) → Steps (Going b) (confirm env b) Going
  unfolding confirm
  confirm-Steps b = bind get-Does λ st.
      elim (Bool-cases (all_instances_done st.tracks && not st.all_done && not b)) [
        | inl last ↦ rw last (
            given
              (λ w h. record {
                quiet = h.0.quiet;
                holds = (
                  h.0.holds.0,
                  λ _. rw h.0.holds.0.same_ids at (
                      done-lifecycles _ w.state.tracks h.0.holds.0.tracked (rw h.1 (ground arith))),
                );
              })
              look_up-Steps)
        | inr other ↦ rw other (given (λ w h. h.0) (return-Does b))
      ]

  observe-Steps :
      (info : SampleInfo) (v : SensorReading) (b : Bool)
      → Steps (Going b) (observe env info v b) Going
  unfolding observe
  observe-Steps info v b = bind (track_for-Steps b v.sensor_id) λ t.
      chain
        (emit-Turns {J' = Told b (v.sensor_id, state_name info.instance_state) t} _ refl
          (tell b _ t))
        (chain
          (set_track-Steps (record t { handle = info.instance_handle })
            (λ st ys h. (
              put-Going b _ st ys (Facts-Track _ _ ys (handled _ t info.instance_handle ys h.1))
                  h.0,
              handled _ t info.instance_handle ys h.1,
            )))
          (chain (change_state-Steps b info.instance_state _ v.sensor_id) (confirm-Steps b)))

  take_loop-Steps :
      (ts : List (Taken SensorReading)) (b : Bool) → Steps (Going b) (take_loop env ts b) Going
  unfolding take_loop
  take_loop-Steps [] b = return-Does b
  take_loop-Steps (take_error rc ∷ rest) b = fail-At _ _ (lost b)
  take_loop-Steps (sample info v ∷ rest) b =
      bind (observe-Steps info v b) λ b'. take_loop-Steps rest b'

  -- Whatever one callback takes.
  on_data_available-Steps :
      (ts : List (Taken SensorReading)) → Steps Tracking (on_data_available env ts) (λ _. Tracking)
  unfolding on_data_available when
  on_data_available-Steps ts =
      given (λ w h. record { quiet = h.quiet; holds = (h.holds, λ e. absurd (ground arith)) })
        (bind (take_loop-Steps ts false) committed)
    where
      committed :
          (b : Bool)
          → Steps (Going b) (when b (modify λ st. record st { all_done = true })) (λ _. Tracking)
      committed true = modify-Turns _ (λ st xs h. record {
        same_ids = h.0.same_ids;
        tracked = h.0.tracked;
        complete = λ _. h.1 refl;
        of_sensors = h.0.of_sensors;
      })
      committed false =
          given (λ w h. record { quiet = h.quiet; holds = h.holds.0 }) (return-Does tt)

  Finished : SubState → List Line → Type 0
  Finished st xs = Tracking st xs × (st.all_done ≡ true)

  Tracking-lost : Covers Tracking Known
  Tracking-lost st xs h = h.of_sensors

  body-Steps :
      (argv : List Text)
      → Does (At lines Tracking) (body env argv) (λ _. Observed) (Failed lines Known)
  unfolding body Finished
  body-Steps argv = chain (bring_up-keeps env _ _ lines-IgnoresSetup Tracking-lost) (
      chain (must_create-keeps env _ _ _ refl Tracking-lost) (
        chain (must_create-keeps env _ _ _ refl Tracking-lost) (
          chain (emit-At _ refl refl) (
            chain (must_return-keeps env _ _ _ refl Tracking-lost) (
              chain (emit-At _ refl refl) (
                chain
                  (wait_until-At env _ on_data_available-Steps _ _ _ _ _ Tracking-lost (omega arith)
                    (omega arith))
                  (given (λ w h. record { quiet = h.0.quiet; holds = (h.0.holds, h.1) })
                    (bind
                      (invoke-At env {J' = Finished} _
                        (unwritten {S = NoSample} lines Finished delete_datareader refl))
                      λ rc. weaken (emit-At {J = Finished} _ refl refl) λ _ w h. record {
                        quiet = h.quiet;
                        lifecycles = h.holds.0.complete h.holds.1;
                        of_sensors = h.holds.0.of_sensors;
                      }))))))))

  -- Whatever the library answers and delivers, the registry subscriber's process ends: with status 0,
  -- nothing on stderr, and lines that show sensor 1 alive and later disposed of, sensor 2 alive and
  -- later without writers, and sensor 3 alive, or with status 1 and one line on stderr; either way
  -- only these three sensors are reported.
  pub registry_subscriber-Ends :
      (argv : List Text) → Holds (λ _ _. ⊥) (Ends lines Observed Known) (main env argv start)
  unfolding main
  registry_subscriber-Ends argv = (finish (body-Steps argv)).run start (
      start-At fresh_sub_state record {
        same_ids = refl;
        tracked = (fresh (pos 1), (fresh (pos 2), (fresh (pos 3), tt)));
        complete = λ e. absurd (ground arith);
        of_sensors = tt;
      })
    where
      fresh :
          (n : ℤ)
          → Track []
              (record { sensor_id = n; seen_alive = false; reached_terminal = false; handle = 0 })
      fresh n = record { alive = λ e. absurd (ground arith); terminal = λ e. absurd (ground arith) }
