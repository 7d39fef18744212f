-- ===== src/Apps/ParticipantConfig/Keeps.antt =====
-- Setting the participant up changes nothing that is seen.
use Prim.Native.String.{String}
use zzdds_examples.Base.{ℕ, Bool, ◌≡◌, refl, Option, none, some, List, [], ◌∷◌}
use zzdds_examples.Base.Text.{Text}
use zzdds_examples.Dds.{ParticipantConfig}
use zzdds_examples.Runtime.Event.{
  Arg, called, printed, num, text, Observer, samples, configure_from_file,
  set_default_participant_config, get_default_participant_config, create_participant_ex,
}
use zzdds_examples.Runtime.Program.{M, Env, check}
use zzdds_examples.Runtime.Contract.{Does, At, Failed, Covers, bind, chain, weaken, return-Does}
use zzdds_examples.Runtime.Contract.Seen.{
  emit-At, check-At, invoke-At, invoke_with-At, unwritten, must_create-keeps, must_return-keeps,
}
use zzdds_examples.Apps.Common.Keeps.{IgnoresSetup}
use zzdds_examples.Apps.Common.Receiver.{reports}
use zzdds_examples.Apps.ParticipantConfig.{Options, load_config, round_trip, participant, set_up}

-- The events of the configuration do not count.
pub record IgnoresConfig {S X : Type 0} (seen : Observer S X) : Type 0 where
  pub file : (path : Text) → seen.see (called (configure_from_file path)) ≡ []
  pub set : (cfg : ParticipantConfig) → seen.see (called (set_default_participant_config cfg)) ≡ []
  pub get : seen.see (called get_default_participant_config) ≡ []
  pub participant :
      (domain_id : ℕ) (cfg : ParticipantConfig)
      → seen.see (called (create_participant_ex domain_id cfg)) ≡ []
  pub line : (s : String) (name : Text) (n : ℕ) → seen.see (printed s (text name ∷ num n ∷ [])) ≡ []
  pub bare_line : (s : String) → seen.see (printed s []) ≡ []

pub samples-IgnoresConfig : {S : Type 0} → IgnoresConfig (samples {S = S})
samples-IgnoresConfig = record {
  file = λ path. refl;
  set = λ cfg. refl;
  get = refl;
  participant = λ domain_id cfg. refl;
  line = λ s name n. refl;
  bare_line = λ s. refl;
}

pub reports-IgnoresConfig : {S : Type 0} → IgnoresConfig (reports {S = S})
reports-IgnoresConfig = record {
  file = λ path. refl;
  set = λ cfg. refl;
  get = refl;
  participant = λ domain_id cfg. refl;
  line = λ s name n. refl;
  bare_line = λ s. refl;
}

module _ {S St B X : Type 0} (env : Env S B) {seen : Observer S X} {J : St → List X → Type 0}
    {K : List X → Type 0} (lost : Covers J K) (setup : IgnoresSetup seen)
    (config : IgnoresConfig seen) where
  abbrev Stays : {A : Type 0} → M S St A → Type 0
  Stays m = Does (At seen J) m (λ _. At seen J) (Failed seen K)

  tested : (b : Bool) (s : String) (args : List Arg) → Stays (check b s args)
  tested b s args = weaken (check-At b s args lost) (λ a w h. h.0)

  load_config-keeps : (path : Option Text) → Stays (load_config env path)
  unfolding load_config
  load_config-keeps none = return-Does tt
  load_config-keeps (some path) =
      bind (invoke-At env {J' = J} _ (unwritten seen J _ (config.file path))) λ rc. tested _ _ _

  round_trip-keeps : Stays (round_trip env)
  unfolding round_trip
  round_trip-keeps = chain (must_return-keeps env _ _ _ (config.set _) lost) (
      bind (invoke_with-At env {J' = J} env.participant_config _ (unwritten seen J _ config.get))
        λ r.
          chain (tested _ _ _)
            (chain (tested _ _ _) (chain (tested _ _ _) (emit-At _ (config.line _ _ _) refl))))

  participant-keeps : (domain_id : ℕ) (path : Option Text) → Stays (participant env domain_id path)
  unfolding participant
  participant-keeps domain_id none =
      chain round_trip-keeps (must_create-keeps env _ _ _ (config.participant _ _) lost)
  participant-keeps domain_id (some path) = must_create-keeps env _ _ _ (setup.participant _) lost

  pub set_up-keeps : (opts : Options) → Stays (set_up env opts)
  unfolding set_up
  set_up-keeps opts = chain (load_config-keeps opts.config_path) (
      chain (must_create-keeps env _ _ _ setup.factory lost) (
        chain (participant-keeps opts.domain_id opts.config_path) (
          chain (must_return-keeps env _ _ _ setup.registration lost) (
            chain (must_create-keeps env _ _ _ (setup.topic _ _) lost)
              (emit-At _ (config.bare_line _) refl)))))
