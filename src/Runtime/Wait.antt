-- ===== src/Runtime/Wait.antt =====
-- The polling loop of the cpp examples,
--   for (int waited_ms = 0; !test(); waited_ms += POLL_PERIOD_MS) {
--     if (waited_ms >= TIMEOUT_MS) { fprintf(stderr, ...); return 1; }
--     usleep(POLL_PERIOD_MS * 1000);
--   }
-- The callbacks that the library's threads have run are taken in before each test. The fuel is a
-- round for each period within the limit and two more.
use Prim.Native.String.{String}
use zzdds_examples.Base.{
  ℕ, zero, suc, ◌+◌, ◌*◌, ◌/◌, ◌≤◌, ◌<◌, ◌≡◌, refl, sym, ◌∙◌, ◌++◌, Bool, true, List, [], ◌∷◌,
  arith, leb, if◌then◌else◌, Bool-cases, inl, inr,
}
use mathlib.Core.List.{append_assoc}
use native.Mathlib.Nat.{div-add-mod, mod-lt}
use zzdds_examples.Runtime.Event.{Arg, Log, Observer}
use zzdds_examples.Runtime.Program.{
  World, M, Env, out_of_fuel, ◌>>=◌, ◌>>◌, return, get, fail, usleep,
}
use zzdds_examples.Runtime.Contract.{
  Does, At, Failed, Covers, bind, chain, given, get-Does, return-Does,
}
use zzdds_examples.Runtime.Contract.Seen.{fail-At, emit-At}

enough_fuel : (limit period : ℕ) → 0 < period → limit + period ≤ 0 + (limit / period + 2) * period
enough_fuel limit period pos = grind (arith, div-add-mod limit period, mod-lt limit pos)

module _ {S St B : Type 0} (env : Env S B) (handle : B → M S St (Unit {0})) where
  unfoldable pub handle_all : List B → M S St (Unit {0})
  handle_all [] = return tt
  handle_all (b ∷ bs) = do handle b; handle_all bs

  unfoldable pub deliver : M S St (Unit {0})
  deliver w = handle_all (env.arrivals w.log) w

  module _ (test : St → Bool) (limit period : ℕ) (s : String) (args : St → List Arg) where
    unfoldable pub poll : ℕ → ℕ → M S St (Unit {0})
    poll zero waited = out_of_fuel
    poll (suc fuel) waited = do
      deliver
      st ← get
      if test st
          then return tt
          else if leb limit waited
          then fail s (args st)
          else (do usleep (period * 1000); poll fuel (waited + period))

    unfoldable pub wait_until : M S St (Unit {0})
    wait_until = poll (limit / period + 2) 0

  -- One of the callbacks that the library runs.
  abbrev pub Arrives : B → Type 0
  Arrives b =
      (log : Log S) × (before : List B) × (after : List B) × (env.arrivals log
        ≡ before ++ b ∷ after)

  module _ {X : Type 0} {seen : Observer S X} {J : St → List X → Type 0} {K : List X → Type 0}
      (keeps : (b : B)
        → Arrives b
        → Does (At seen J) (handle b) (λ _. At seen J) (Failed seen K)) where
    handle_all-At :
        (log : Log S) (before bs : List B)
        → env.arrivals log ≡ before ++ bs
        → Does (At seen J) (handle_all bs) (λ _. At seen J) (Failed seen K)
    unfolding handle_all
    handle_all-At log before [] e = return-Does tt
    handle_all-At log before (b ∷ bs) e =
        chain (keeps b (log, before, bs, e))
          (handle_all-At log (before ++ b ∷ []) bs (e ∙ sym (append_assoc before (b ∷ []) bs)))

    pub deliver-Arrives : Does (At seen J) deliver (λ _. At seen J) (Failed seen K)
    unfolding deliver
    deliver-Arrives = record {
      run = λ w h. (handle_all-At w.log [] (env.arrivals w.log) refl).run w h;
    }

    module _ (test : St → Bool) (limit period : ℕ) (s : String) (args : St → List Arg)
        (lost : Covers J K) where
      abbrev Ready : Unit {0} → World S St → Type 0
      Ready _ w = At seen J w × (test w.state ≡ true)

      poll-At :
          (fuel waited : ℕ)
          → waited < limit + period
          → limit + period ≤ waited + fuel * period
          → period ≤ 20
          → Does (At seen J) (poll test limit period s args fuel waited) Ready (Failed seen K)
      unfolding poll
      poll-At zero waited low high short = absurd (omega arith)
      poll-At (suc fuel) waited low high short = chain deliver-Arrives (
          bind get-Does λ st. elim (Bool-cases (test st)) [
            | inl met ↦ rw met (given (λ w h. (h.0, rw h.1 met)) (return-Does tt))
            | inr not_met ↦ elim (Bool-cases (leb limit waited)) [
              | inl late ↦ rw (not_met, late) (given (λ w h. h.0) (fail-At s (args st) lost))
              | inr early ↦
                  rw (not_met, early)
                    (given (λ w h. h.0)
                      (chain (emit-At _ (seen.asleep _ (omega arith)) refl)
                        (poll-At fuel (waited + period) (ground arith) (ground arith) short)))
            ]
          ])

      -- The loop ends: with the test met, or with the failure's one line and status 1.
      pub wait_until-Arrives :
          0 < period
          → period ≤ 20
          → Does (At seen J) (wait_until test limit period s args) Ready (Failed seen K)
      unfolding wait_until
      wait_until-Arrives pos short =
          poll-At (limit / period + 2) 0 (omega arith) (enough_fuel limit period pos) short

  -- The same, where it does not matter that a callback comes from the library.
  module _ {X : Type 0} {seen : Observer S X} {J : St → List X → Type 0} {K : List X → Type 0}
      (keeps : (b : B) → Does (At seen J) (handle b) (λ _. At seen J) (Failed seen K)) where
    pub deliver-At : Does (At seen J) deliver (λ _. At seen J) (Failed seen K)
    deliver-At = deliver-Arrives (λ b _. keeps b)

    pub wait_until-At :
        (test : St → Bool) (limit period : ℕ) (s : String) (args : St → List Arg)
        → Covers J K
        → 0 < period
        → period ≤ 20
        → Does
            (At seen J)
            (wait_until test limit period s args)
            (λ _ w. At seen J w × (test w.state ≡ true))
            (Failed seen K)
    wait_until-At = wait_until-Arrives (λ b _. keeps b)
