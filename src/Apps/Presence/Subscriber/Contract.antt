-- ===== src/Apps/Presence/Subscriber/Contract.antt =====
-- How a run of the presence subscriber ends.
use Prim.Native.String.{String}
use mathlib.Core.List.{map-append}
use zzdds_examples.Base.{
  map, All, All-append, ◌⊎◌, inl, inr, Bool-cases, if◌then◌else◌, ◌≡◌, refl, sym, ap, ◌∙◌, Bool,
  true, false, List, [], ◌∷◌, ◌++◌, arith,
}
use zzdds_examples.Base.Text.{Text}
use zzdds_examples.Base.Embeds.{Embeds}
use zzdds_examples.Base.Int.{ℤ}
use zzdds_examples.Dds.{Taken, sample, take_error}
use zzdds_examples.Apps.Presence.{PresenceBeacon}
use zzdds_examples.Runtime.Event.{
  Event, printed, int, Observer, observed, failures, delete_datareader,
}
use zzdds_examples.Runtime.Program.{World, Env, M}
use zzdds_examples.Runtime.Contract.{
  Does, At, Failed, Holds, Ends, Covers, bind, chain, given, weaken, finish, start-At, return-Does,
  if-Does,
}
use zzdds_examples.Runtime.Contract.Seen.{
  emit-At, fail-At, invoke-At, emit-Turns, modify-Turns, unwritten, must_create-keeps,
  must_return-keeps,
}
use zzdds_examples.Runtime.Wait.{wait_until-At}
use zzdds_examples.Apps.Common.Keeps.{IgnoresSetup, bring_up-keeps}
use zzdds_examples.Apps.Common.Receiver.{NoSample}
use zzdds_examples.Apps.Presence.Subscriber.{
  SubState, fresh_sub_state, SubCallback, liveliness_changed, data_available, advance,
  on_liveliness_changed, on_data_available, listener, body, main,
}
use zzdds_examples.Apps.Presence.Subscriber.Cycle.{
  is_online, advance_all, advance_all-append, cycle_complete_iff,
}

-- A line with an alive and a not-alive count.
pub record Status : Type 0 where
  pub line : String
  pub alive : ℤ

abbrev pub status_of : Event NoSample → List Status
status_of (printed s (int alive_count ∷ int not_alive_count ∷ [])) =
    record { line = s; alive = alive_count } ∷ []
status_of e = []

abbrev pub statuses : Observer NoSample Status
statuses = record { see = status_of; blind = λ s args. refl; asleep = λ us short. refl }

abbrev pub reported : Status → Bool
reported s = is_online s.alive

-- The word fits the count.
abbrev pub Worded : Status → Type 0
Worded s =
    ((is_online s.alive ≡ true) × (s.line ≡ "ONLINE alive_count=%d not_alive_count=%d\n"))
    ⊎ ((is_online s.alive ≡ false) × (s.line ≡ "OFFLINE alive_count=%d not_alive_count=%d\n"))

statuses-IgnoresSetup : IgnoresSetup statuses
statuses-IgnoresSetup = record {
  factory = refl;
  participant = λ domain. refl;
  registration = refl;
  topic = λ name type_name. refl;
  line = λ s name. refl;
}

abbrev pub start : World NoSample SubState
start = record { log = []; state = fresh_sub_state }

-- A failure is not described further.
abbrev pub Anything : List Status → Type 0
Anything xs = Unit

-- The end of a subscriber that returned 0: the writer was reported online, later offline, and later
-- online again, each time with the word for it.
pub record Cycled (w : World NoSample SubState) : Type 0 where
  pub quiet : failures w.log ≡ 0
  pub cycle : Embeds (true ∷ false ∷ true ∷ []) (map reported (observed statuses w.log))
  pub worded : All Worded (observed statuses w.log)

-- The state is the one that the reported statuses lead to.
abbrev InStep : SubState → List Status → Type 0
InStep st xs = (st ≡ advance_all (map reported xs) fresh_sub_state) × All Worded xs

-- The last status is reported, and the state does not know it yet.
abbrev Behind : ℤ → SubState → List Status → Type 0
Behind alive st ys =
    (l : String) × (xs : List Status) × (ys ≡ xs ++ record { line = l; alive = alive } ∷ [])
    × InStep st xs
    × All Worded ys

lost : Covers InStep Anything
lost st xs h = tt

abbrev Steps : {A : Type 0} → M NoSample SubState A → Type 0
Steps m = Does (At statuses InStep) m (λ _. At statuses InStep) (Failed statuses Anything)

catch_up :
    (alive : ℤ) (st : SubState) (ys : List Status)
    → Behind alive st ys
    → InStep (advance (is_online alive) st.phase st) ys
unfolding advance_all
catch_up alive st ys (l, xs, e, h, worded) = (
  rw
      (
        e,
        map-append,
        advance_all-append (map reported xs) (is_online alive ∷ []) fresh_sub_state,
        ← h.0,
      )
      refl,
  worded,
)

show :
    (alive : ℤ) (st : SubState) (xs : List Status) (l : String)
    → Worded (record { line = l; alive = alive })
    → InStep st xs
    → Behind alive st (xs ++ record { line = l; alive = alive } ∷ [])
show alive st xs l right h = (l, xs, refl, h, All-append Worded xs _ h.1 (right, tt))

word_fits :
    (alive : ℤ)
    → Worded (record {
      line =
          if is_online alive
          then "ONLINE alive_count=%d not_alive_count=%d\n"
          else "OFFLINE alive_count=%d not_alive_count=%d\n";
      alive = alive;
    })
word_fits alive = elim (Bool-cases (is_online alive)) [
  | inl on ↦ inl (on, rw on refl)
  | inr off ↦ inr (off, rw off refl)
]

on_liveliness_changed-Steps : (alive not_alive : ℤ) → Steps (on_liveliness_changed alive not_alive)
unfolding on_liveliness_changed
on_liveliness_changed-Steps alive not_alive =
    chain
      (emit-Turns {J' = Behind alive} _ refl (λ st xs h. show alive st xs _ (word_fits alive) h))
      (modify-Turns _ (catch_up alive))

on_data_available-Steps : (ts : List (Taken PresenceBeacon)) → Steps (on_data_available ts)
unfolding on_data_available
on_data_available-Steps [] = return-Does tt
on_data_available-Steps (take_error rc ∷ rest) = fail-At _ _ lost
on_data_available-Steps (sample info v ∷ rest) =
    chain (if-Does _ (return-Does tt) (emit-At _ refl refl)) (on_data_available-Steps rest)

listener-Steps : (c : SubCallback) → Steps (listener c)
unfolding listener
listener-Steps (liveliness_changed alive not_alive) = on_liveliness_changed-Steps alive not_alive
listener-Steps (data_available ts) = on_data_available-Steps ts

module _ (env : Env NoSample SubCallback) where
  Complete : SubState → List Status → Type 0
  Complete st xs = InStep st xs × (st.cycle_complete ≡ true)

  body-At :
      (argv : List Text)
      → Does (At statuses InStep) (body env argv) (λ _. Cycled) (Failed statuses Anything)
  unfolding body Complete
  body-At argv = chain (bring_up-keeps env _ _ statuses-IgnoresSetup lost) (
      chain (must_create-keeps env _ _ _ refl lost) (
        chain (must_create-keeps env _ _ _ refl lost) (
          chain (emit-At _ refl refl) (
            chain (must_return-keeps env _ _ _ refl lost) (
              chain (emit-At _ refl refl) (
                chain
                  (wait_until-At env _ listener-Steps _ _ _ _ _ lost (omega arith) (omega arith))
                  (given (λ w h. record { quiet = h.0.quiet; holds = (h.0.holds, h.1) })
                    (bind
                      (invoke-At env {J' = Complete} _
                        (unwritten {S = NoSample} statuses Complete delete_datareader refl))
                      λ rc. weaken (emit-At {J = Complete} _ refl refl) λ _ w h. record {
                        quiet = h.quiet;
                        cycle = (cycle_complete_iff (map reported (observed statuses w.log))).0 (
                            ap (λ (st : SubState). st.cycle_complete) (sym h.holds.0.0)
                            ∙ h.holds.1);
                        worded = h.holds.0.1;
                      }))))))))

  -- Whatever the library answers and delivers, the presence subscriber's process ends: with status 0,
  -- nothing on stderr, and lines that report the writer online, later offline and later online
  -- again, where every line on the writer says ONLINE if its alive count is above 0 and OFFLINE if it
  -- is not, or with status 1 and one line on stderr.
  pub presence_subscriber-Ends :
      (argv : List Text) → Holds (λ _ _. ⊥) (Ends statuses Cycled Anything) (main env argv start)
  unfolding main
  presence_subscriber-Ends argv =
      (finish (body-At argv)).run start (start-At fresh_sub_state (unfold advance_all in refl, tt))
