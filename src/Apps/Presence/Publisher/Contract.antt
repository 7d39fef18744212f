-- ===== src/Apps/Presence/Publisher/Contract.antt =====
-- How a run of the presence publisher ends.
use mathlib.Core.List.{append-nil}
use Prim.Native.String.{String}
use zzdds_examples.Base.{ℕ, zero, suc, ◌≡◌, refl, List, [], ◌++◌}
use zzdds_examples.Base.Text.{Text}
use zzdds_examples.Runtime.Event.{Arg, printed}
use zzdds_examples.Runtime.Program.{World, Env}
use zzdds_examples.Runtime.Contract.{
  Does, At, Failed, Holds, Ends, chain, given, finish, start-At, return-Does,
}
use zzdds_examples.Runtime.Contract.Seen.{emit-At, must_create-keeps, must_return-keeps}
use zzdds_examples.Apps.Common.{PubState, fresh_pub_state, PubCallback}
use zzdds_examples.Apps.Common.Keeps.{bring_up-keeps}
use zzdds_examples.Apps.Common.Script.{
  PartOf, Followed, Left, Left-PartOf, must_return-Left, emit-Left, await-Left, drain-Followed,
}
use zzdds_examples.Apps.Presence.{PresenceBeacon}
use zzdds_examples.Apps.Presence.Publisher.{beacons, offline, body, main}
use zzdds_examples.Apps.Presence.Publisher.Schedule.{
  Beat, beats, beats-IgnoresSetup, online, gap, schedule,
}

abbrev pub start : World PresenceBeacon PubState
start = record { log = []; state = fresh_pub_state }

silent : (s : String) (args : List Arg) → beats.see (printed s args) ≡ []
silent s args = refl

module _ (env : Env PresenceBeacon PubCallback) where
  beacons-Left :
      (seq count : ℕ) (rest : List Beat)
      → Does
          (At beats (Left schedule (online seq count ++ rest)))
          (beacons env seq count)
          (λ _. At beats (Left schedule rest))
          (Failed beats (PartOf schedule))
  unfolding beacons
  beacons-Left seq zero rest = return-Does tt
  beacons-Left seq (suc count) rest = chain (must_return-Left env _ _ _ refl) (
      chain (emit-At _ refl refl)
        (chain (emit-Left _ refl refl) (beacons-Left (suc seq) count rest)))

  offline-Left :
      (rest : List Beat)
      → Does
          (At beats (Left schedule (gap ++ rest)))
          (offline env)
          (λ _. At beats (Left schedule rest))
          (Failed beats (PartOf schedule))
  unfolding offline
  offline-Left rest = chain (emit-At _ refl refl) (
      chain (emit-Left _ refl refl) (chain (emit-At _ refl refl) (must_return-Left env _ _ _ refl)))

  body-Follows :
      (argv : List Text)
      → Does
          (At beats (Left schedule schedule))
          (body env argv)
          (λ _. Followed beats schedule)
          (Failed beats (PartOf schedule))
  unfolding body
  body-Follows argv = chain (bring_up-keeps env _ _ beats-IgnoresSetup (Left-PartOf _)) (
      chain (must_create-keeps env _ _ _ refl (Left-PartOf _)) (
        chain (must_create-keeps env _ _ _ refl (Left-PartOf _)) (
          chain (emit-At _ refl refl) (
            chain (must_return-keeps env _ _ _ refl (Left-PartOf _)) (
              chain (await-Left silent env _ _ _ _) (
                chain (beacons-Left 0 8 (gap ++ online 8 8)) (
                  chain (offline-Left (online 8 8)) (
                    chain (given (λ w h. rw append-nil h) (beacons-Left 8 8 []))
                      (drain-Followed silent env _ _ _ _)))))))))

  -- Whatever the library answers and in whatever order the callbacks come, the presence publisher's
  -- process ends: with status 0, no line on stderr, the matched reader gone again, and a run of
  -- beacons 0 to 7 with half a second after each, five seconds of silence, an assertion of
  -- liveliness and beacons 8 to 15 with half a second after each, or with status 1, one line on
  -- stderr, and a first part of this run.
  pub presence_publisher-Ends :
      (argv : List Text)
      → Holds
          (λ _ _. ⊥)
          (Ends beats (Followed beats schedule) (PartOf schedule))
          (main env argv start)
  unfolding main
  presence_publisher-Ends argv =
      (finish (body-Follows argv)).run start (start-At fresh_pub_state refl)
