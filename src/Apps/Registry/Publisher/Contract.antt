-- ===== src/Apps/Registry/Publisher/Contract.antt =====
-- How a run of the registry publisher ends.
use Prim.Native.String.{String}
use zzdds_examples.Base.{ℕ, ◌≡◌, refl, List, [], ◌∷◌, ◌++◌}
use zzdds_examples.Base.Text.{Text}
use zzdds_examples.Runtime.Event.{
  Arg, Event, called, printed, write, write_w_timestamp, register_instance, dispose,
  unregister_instance, get_key_value, clock, Observer,
}
use zzdds_examples.Runtime.Program.{World, Env, M}
use zzdds_examples.Runtime.Contract.{
  Does, At, Failed, Holds, Ends, bind, chain, finish, start-At, return-Does,
}
use zzdds_examples.Runtime.Contract.Seen.{
  emit-At, query-At, unwritten, must_create-keeps, must_return-keeps,
}
use zzdds_examples.Apps.Common.{PubState, fresh_pub_state, PubCallback}
use zzdds_examples.Apps.Common.Keeps.{IgnoresSetup, bring_up-keeps}
use zzdds_examples.Apps.Common.Script.{
  PartOf, Followed, Left, Left-PartOf, must_return-Left, query-Left, invoke_with-Left, check-Left,
  await-Left, drain-Followed,
}
use zzdds_examples.Apps.Registry.{SensorReading}
use zzdds_examples.Apps.Registry.Publisher.{
  reading, instance_a, instance_b, instance_c, key_round_trip, body, main,
}

-- What the publisher does with an instance.
pub data Deed : Type 0 where
  registered wrote stamped disposed unregistered : SensorReading → Deed
  asked_key : Deed

abbrev pub deed_of : Event SensorReading → List Deed
deed_of (called (register_instance k r)) = registered r ∷ []
deed_of (called (write k r)) = wrote r ∷ []
deed_of (called (write_w_timestamp k r time)) = stamped r ∷ []
deed_of (called (dispose k r)) = disposed r ∷ []
deed_of (called (unregister_instance k r)) = unregistered r ∷ []
deed_of (called (get_key_value handle)) = asked_key ∷ []
deed_of e = []

abbrev pub deeds : Observer SensorReading Deed
deeds = record { see = deed_of; blind = λ s args. refl; asleep = λ us short. refl }

deeds-IgnoresSetup : IgnoresSetup deeds
deeds-IgnoresSetup = record {
  factory = refl;
  participant = λ domain. refl;
  registration = refl;
  topic = λ name type_name. refl;
  line = λ s name. refl;
}

abbrev pub script_a : List Deed
script_a =
    registered (reading 1 0)
    ∷ wrote (reading 1 100)
    ∷ wrote (reading 1 101)
    ∷ disposed (reading 1 0)
    ∷ []

abbrev pub script_b : List Deed
script_b = registered (reading 2 0) ∷ stamped (reading 2 200) ∷ unregistered (reading 2 0) ∷ []

abbrev pub script_c : List Deed
script_c = registered (reading 3 0) ∷ wrote (reading 3 300) ∷ []

-- The lifecycles of the three instances, one after the other.
abbrev pub lifecycles : List Deed
lifecycles = script_a ++ script_b ++ script_c ++ asked_key ∷ []

abbrev pub start : World SensorReading PubState
start = record { log = []; state = fresh_pub_state }

silent : (s : String) (args : List Arg) → deeds.see (printed s args) ≡ []
silent s args = refl

-- From what is still to come to what is to come then.
abbrev Goes : {A : Type 0} → List Deed → M SensorReading PubState A → List Deed → Type 0
Goes before m then_ =
    Does (At deeds (Left lifecycles before)) m (λ _. At deeds (Left lifecycles then_))
      (Failed deeds (PartOf lifecycles))

module _ (env : Env SensorReading PubCallback) where
  instance_a-Goes : (rest : List Deed) → Goes (script_a ++ rest) (instance_a env) rest
  unfolding instance_a
  instance_a-Goes rest = bind (query-Left env _ refl) λ handle_a. chain (emit-At _ refl refl) (
      chain (must_return-Left env _ _ _ refl) (
        chain (emit-At _ refl refl) (
          chain (must_return-Left env _ _ _ refl) (
            chain (emit-At _ refl refl) (
              chain (must_return-Left env _ _ _ refl)
                (chain (emit-At _ refl refl) (return-Does handle_a)))))))

  instance_b-Goes : (rest : List Deed) → Goes (script_b ++ rest) (instance_b env) rest
  unfolding instance_b
  instance_b-Goes rest = bind (query-Left env _ refl) λ handle_b. chain (emit-At _ refl refl) (
      bind
        (query-At env
          {J' = Left lifecycles (stamped (reading 2 200) ∷ unregistered (reading 2 0) ∷ rest)} _
          (unwritten {St = PubState} deeds _ clock refl))
        λ now_ns. chain (must_return-Left env _ _ _ refl) (
          chain (emit-At _ refl refl)
            (chain (must_return-Left env _ _ _ refl) (emit-At _ refl refl))))

  instance_c-Goes : (rest : List Deed) → Goes (script_c ++ rest) (instance_c env) rest
  unfolding instance_c
  instance_c-Goes rest = bind (query-Left env _ refl) λ handle_c.
      chain (emit-At _ refl refl) (chain (must_return-Left env _ _ _ refl) (emit-At _ refl refl))

  key_round_trip-Goes : (handle : ℕ) → Goes (asked_key ∷ []) (key_round_trip env handle) []
  unfolding key_round_trip
  key_round_trip-Goes handle =
      bind (invoke_with-Left env _ _ refl)
        λ r. chain (check-Left _ _ _) (chain (check-Left _ _ _) (emit-At _ refl refl))

  body-Follows :
      (argv : List Text)
      → Does
          (At deeds (Left lifecycles lifecycles))
          (body env argv)
          (λ _. Followed deeds lifecycles)
          (Failed deeds (PartOf lifecycles))
  unfolding body
  body-Follows argv = chain (bring_up-keeps env _ _ deeds-IgnoresSetup (Left-PartOf _)) (
      chain (must_create-keeps env _ _ _ refl (Left-PartOf _)) (
        chain (must_create-keeps env _ _ _ refl (Left-PartOf _)) (
          chain (emit-At _ refl refl) (
            chain (must_return-keeps env _ _ _ refl (Left-PartOf _)) (
              chain (await-Left silent env _ _ _ _) (
                bind (instance_a-Goes (script_b ++ script_c ++ asked_key ∷ [])) λ handle_a.
                  chain (instance_b-Goes (script_c ++ asked_key ∷ [])) (
                    chain (instance_c-Goes (asked_key ∷ [])) (
                      chain (key_round_trip-Goes handle_a)
                        (drain-Followed silent env _ _ _ _)))))))))

  -- Whatever the library answers and in whatever order the callbacks come, the registry publisher's
  -- process ends: with status 0, no line on stderr, the matched reader gone again and the
  -- lifecycles of sensors 1 (registered, written twice, disposed), 2 (registered, written with a
  -- timestamp, unregistered) and 3 (registered, written) gone through in this order, or with status
  -- 1, one line on stderr, and a first part of them.
  pub registry_publisher-Ends :
      (argv : List Text)
      → Holds
          (λ _ _. ⊥)
          (Ends deeds (Followed deeds lifecycles) (PartOf lifecycles))
          (main env argv start)
  unfolding main
  registry_publisher-Ends argv =
      (finish (body-Follows argv)).run start (start-At fresh_pub_state refl)
