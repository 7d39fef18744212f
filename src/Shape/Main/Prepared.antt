-- ===== src/Shape/Main/Prepared.antt =====
-- What main of the shape application guarantees to its run.
use Prim.Native.String.{String}
use zzdds_examples.Base.{
  ℕ, ◌≤◌, ◌<◌, ◌≡◌, refl, ◌||◌, Bool, true, false, Option, none, some, List, [], ◌∷◌, arith,
}
use zzdds_examples.Base.Text.{Text}
use zzdds_examples.Dds.{is_ok}
use zzdds_examples.Runtime.Event.{Arg, Call, Event}
use zzdds_examples.Runtime.Program.{
  World, M, Env, emit, fail, check, create, invoke, invoke_with, must_create, must_return,
}
use zzdds_examples.Runtime.Contract.{
  Does, bind, chain, given, weaken, known, return-Does, exit-Does, if-Does,
}
use zzdds_examples.Shape.Options.{Options}
use zzdds_examples.Shape.Args.{
  unknown_option, bad_datafrag_size, Complaint, Parsed, accepted, rejected, helped,
}
use zzdds_examples.Shape.Args.Valid.{IsWellFormed, parse_args-IsWellFormed}
use zzdds_examples.Shape.Main.{warn_all, options, validate, load_config, create_dp, prepare}

-- Options that a run starts with.
pub record Prepared (opts : Options) : Type 0 where
  pub formed : IsWellFormed opts
  pub some_role : (opts.publish || opts.subscribe) ≡ true
  pub some_topic : 0 < opts.num_topics
  pub few_topics : opts.num_topics ≤ 16

module _ {S St : Type 0} where
  abbrev pub Any : World S St → Type 0
  Any w = Unit {0}

  -- An exit of main has the status 0 or 1.
  abbrev pub Status : ℕ → World S St → Type 0
  Status n w = n ≤ 1

  abbrev Goes : {A : Type 0} → M S St A → Type 0
  Goes m = Does Any m (λ _. Any) Status

  emit-Goes : (e : Event S) → Goes (emit e)
  unfolding emit
  emit-Goes e = record { run = λ w h. tt }

  fail-Does :
      {A : Type 0} {Q : A → World S St → Type 0} (s : String) (args : List Arg)
      → Does Any (fail s args) Q Status
  unfolding fail
  fail-Does s args = record { run = λ w h. omega arith }

  check-Does :
      (b : Bool) (s : String) (args : List Arg)
      → Does Any (check b s args) (λ _ w. Any w × (b ≡ true)) Status
  unfolding check
  check-Does true s args = given (λ w h. (h, refl)) (return-Does tt)
  check-Does false s args = fail-Does s args

  check-Goes : (b : Bool) (s : String) (args : List Arg) → Goes (check b s args)
  check-Goes b s args = weaken (check-Does b s args) (λ a w h. tt)

  warn_all-Goes : (args : List Complaint) → Goes (warn_all args)
  unfolding warn_all
  warn_all-Goes [] = return-Does tt
  warn_all-Goes (unknown_option arg ∷ args) = chain (emit-Goes _) (warn_all-Goes args)
  warn_all-Goes (bad_datafrag_size ∷ args) = chain (emit-Goes _) (warn_all-Goes args)

  options-Does : (p : Parsed) → Does Any (options p) (λ opts w. Any w × (p ≡ accepted opts)) Status
  unfolding options
  options-Does (accepted opts) = given (λ w h. (h, refl)) (return-Does opts)
  options-Does rejected = fail-Does _ _
  options-Does helped = exit-Does 0 (λ w h. omega arith)

  validate-Does :
      (opts : Options)
      → IsWellFormed opts
      → Does Any (validate opts) (λ _ w. Any w × Prepared opts) Status
  unfolding validate
  validate-Does opts formed = chain (check-Does _ _ _) (
      known λ role. weaken (check-Does _ _ _) (λ a w h. (
        tt,
        record {
          formed = formed;
          some_role = role;
          some_topic = ground arith;
          few_topics = ground arith;
        },
      )))

  module _ {B : Type 0} (env : Env S B) where
    invoke-Goes : (c : Call S) → Goes (invoke env c)
    unfolding invoke
    invoke-Goes c = record { run = λ w h. tt }

    invoke_with-Goes :
        {A : Type 0} (answer : _ → Call S → A) (c : Call S) → Goes (invoke_with env answer c)
    unfolding invoke_with
    invoke_with-Goes answer c = record { run = λ w h. tt }

    create-Goes : (c : Call S) → Goes (create env c)
    unfolding create
    create-Goes c = record { run = λ w h. tt }

    must_create-Goes : (c : Call S) (s : String) (args : List Arg) → Goes (must_create env c s args)
    unfolding must_create
    must_create-Goes c s args = bind (create-Goes c) (λ there. check-Goes there s args)

    must_return-Goes : (c : Call S) (s : String) (args : List Arg) → Goes (must_return env c s args)
    unfolding must_return
    must_return-Goes c s args = bind (invoke-Goes c) (λ rc. check-Goes (is_ok rc) s args)

    load_config-Goes : (path : Option Text) → Goes (load_config env path)
    unfolding load_config
    load_config-Goes none = return-Does tt
    load_config-Goes (some path) = bind (invoke-Goes _) λ rc. check-Goes _ _ _

    create_dp-Goes : (opts : Options) → Goes (create_dp env opts)
    unfolding create_dp
    create_dp-Goes opts =
        if-Does _
          (bind (invoke_with-Goes env.participant_config _)
            λ r. chain (check-Goes _ _ _) (must_create-Goes _ _ _))
          (must_create-Goes _ _ _)

    -- Whatever the arguments and whatever the library answers, main comes to its run only with options
    -- within the ranges of their types, with -P or -S, and with 1 to 16 topics; or else it ends with
    -- status 0 or 1.
    pub prepare-Prepared :
        (argv : List Text) → Does Any (prepare env argv) (λ opts _. Prepared opts) Status
    unfolding prepare
    prepare-Prepared argv = chain (warn_all-Goes _) (
        bind (options-Does _) λ opts. known λ parsed.
          chain (validate-Does opts (parse_args-IsWellFormed argv opts parsed)) (
            known λ ready. chain (load_config-Goes _) (
              chain (must_create-Goes _ _ _) (
                chain (create_dp-Goes opts) (
                  chain (must_return-Goes _ _ _) (
                    chain (must_create-Goes _ _ _)
                      (chain (emit-Goes _) (given (λ w h. ready) (return-Does opts)))))))))
