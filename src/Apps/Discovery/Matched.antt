-- ===== src/Apps/Discovery/Matched.antt =====
-- The look-up of a matched endpoint changes nothing that is seen.
use Prim.Native.String.{String}
use zzdds_examples.Base.{◌≡◌, refl, List, [], ◌∷◌}
use zzdds_examples.Base.Text.{Text}
use zzdds_examples.Runtime.Event.{Call, called, printed, text, Observer}
use zzdds_examples.Runtime.Program.{Env}
use zzdds_examples.Runtime.Contract.{Does, At, Failed, Covers, bind, chain, weaken}
use zzdds_examples.Runtime.Contract.Seen.{emit-At, check-At, invoke_with-At, unwritten}
use zzdds_examples.Apps.Discovery.{Texts, matched_data}

module _ {S St B X : Type 0} (env : Env S B) {seen : Observer S X} {J : St → List X → Type 0}
    {K : List X → Type 0} where
  pub matched_data-keeps :
      (texts : Texts) (c : Call S)
      → seen.see (called c) ≡ []
      → ((s : String) (a b : Text) → seen.see (printed s (text a ∷ text b ∷ [])) ≡ [])
      → Covers J K
      → Does (At seen J) (matched_data env texts c) (λ _. At seen J) (Failed {St = St} seen K)
  unfolding matched_data
  matched_data-keeps texts c quiet line lost =
      bind (invoke_with-At env {J' = J} env.topic_data c (unwritten seen J c quiet)) λ r.
        chain (weaken (check-At _ _ _ lost) (λ a w h. h.0))
          (chain (weaken (check-At _ _ _ lost) (λ a w h. h.0)) (emit-At _ (line _ _ _) refl))
