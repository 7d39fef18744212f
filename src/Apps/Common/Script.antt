-- ===== src/Apps/Common/Script.antt =====
-- Publishers that do a fixed list of things in a fixed order, and stop at the first that fails.
use Prim.Native.String.{String}
use mathlib.Core.List.{append-nil, append_assoc}
use zzdds_examples.Base.{ℕ, ◌≡◌, refl, sym, ◌∙◌, true, Bool, List, [], ◌∷◌, ◌++◌, arith}
use zzdds_examples.Runtime.Event.{
  Arg, Log, Call, Event, called, printed, failure_of, Observer, observed, failures,
}
use zzdds_examples.Runtime.Program.{World, Env, ◌>>◌, emit, must_return, query, invoke_with, check}
use zzdds_examples.Runtime.Contract.{Does, At, Failed, Covers, chain, given, weaken}
use zzdds_examples.Runtime.Contract.Seen.{
  emit-At, emit-Turns, must_return-At, query-At, invoke_with-At, check-At,
}
use zzdds_examples.Runtime.Wait.{wait_until, wait_until-At}
use zzdds_examples.Apps.Common.{PubState, PubCallback, pub_listener, drained}
use zzdds_examples.Apps.Common.Keeps.{Seen, pub_listener-quiet}

-- The first part of `script`.
abbrev pub PartOf {ℓ} : {A : Type ℓ} → List A → List A → Type ℓ
PartOf {A} script xs = (rest : List A) × (xs ++ rest ≡ script)

-- The end of a publisher that returned 0: it has done all of `script`, and its reader has come and
-- gone.
pub record Followed {S X : Type 0} (seen : Observer S X) (script : List X) (w : World S PubState)
    : Type 0 where
  pub quiet : failures w.log ≡ 0
  pub followed : observed seen w.log ≡ script
  pub reader_left : drained w.state ≡ true

-- Still to come: `rest` of the script.
abbrev pub Left : {St X : Type 0} → List X → List X → St → List X → Type 0
Left script rest = Seen (λ ys. ys ++ rest ≡ script)

module _ {St X : Type 0} {script : List X} where
  pub Left-PartOf : (rest : List X) → Covers {St = St} (Left script rest) (PartOf script)
  Left-PartOf rest st ys h = (rest, h)

  -- The next thing is done.
  next :
      (x : X) (rest : List X) (st : St) (ys : List X)
      → Left script (x ∷ rest) st ys
      → Left script rest st (ys ++ x ∷ [])
  next x rest st ys h = append_assoc ys (x ∷ []) rest ∙ h

module _ {S St X : Type 0} {seen : Observer S X} {script : List X} where
  pub must_return-Left :
      {B : Type 0} (env : Env S B) (c : Call S) (s : String) (args : List Arg) {x : X}
      {rest : List X}
      → seen.see (called c) ≡ x ∷ []
      → Does
          (At seen (Left script (x ∷ rest)))
          (must_return env c s args)
          (λ _. At seen (Left script rest))
          (Failed {St = St} seen (PartOf script))
  must_return-Left env c s args {x} {rest} e =
      must_return-At env c s args (λ st ys h. rw e (next {St = St} x rest st ys h))
        (Left-PartOf rest)

  pub query-Left :
      {B : Type 0} (env : Env S B) (c : Call S) {x : X} {rest : List X}
      → seen.see (called c) ≡ x ∷ []
      → Does
          (At seen (Left script (x ∷ rest)))
          (query env c)
          (λ _. At seen (Left script rest))
          (Failed {St = St} seen (PartOf script))
  query-Left env c {x} {rest} e = query-At env c (λ st ys h. rw e (next {St = St} x rest st ys h))

  pub invoke_with-Left :
      {A B : Type 0} (env : Env S B) (answer : Log S → Call S → A) (c : Call S) {x : X}
      {rest : List X}
      → seen.see (called c) ≡ x ∷ []
      → Does
          (At seen (Left script (x ∷ rest)))
          (invoke_with env answer c)
          (λ _. At seen (Left script rest))
          (Failed {St = St} seen (PartOf script))
  invoke_with-Left env answer c {x} {rest} e =
      invoke_with-At env answer c (λ st ys h. rw e (next {St = St} x rest st ys h))

  pub check-Left :
      (b : Bool) (s : String) (args : List Arg) {rest : List X}
      → Does
          (At seen (Left script rest))
          (check b s args)
          (λ _. At seen (Left script rest))
          (Failed {St = St} seen (PartOf script))
  check-Left b s args {rest} = weaken (check-At b s args (Left-PartOf rest)) (λ a w h. h.0)

  pub emit-Left :
      (e : Event S) {x : X} {rest : List X}
      → failure_of e ≡ 0
      → seen.see e ≡ x ∷ []
      → Does
          (At seen (Left script (x ∷ rest)))
          (emit e)
          (λ _. At seen (Left script rest))
          (Failed {St = St} seen (PartOf script))
  emit-Left e {x} {rest} quiet h =
      emit-Turns e quiet (λ st ys i. rw h (next {St = St} x rest st ys i))

abbrev Done : {X : Type 0} → List X → PubState → List X → Type 0
Done script st ys = Left script [] st ys × (drained st ≡ true)

module _ {S X : Type 0} {seen : Observer S X} {script : List X}
    (silent : (s : String) (args : List Arg) → seen.see (printed s args) ≡ [])
    (env : Env S PubCallback) where
  -- The wait for a reader, or for the end of one.
  pub await-Left :
      (test : PubState → _) (limit : ℕ) (s : String) (args : PubState → List Arg) {rest : List X}
      → Does
          (At seen (Left script rest))
          (wait_until env pub_listener test limit 20 s args)
          (λ _. At seen (Left script rest))
          (Failed seen (PartOf script))
  await-Left test limit s args =
      weaken
        (wait_until-At env _ (pub_listener-quiet silent) _ _ _ _ _ (Left-PartOf _) (omega arith)
          (omega arith))
        (λ a w h. h.0)

  -- The last lines of main.
  pub drain-Followed :
      (limit : ℕ) (s goodbye : String) (args : PubState → List Arg)
      → Does
          (At seen (Left script []))
          (wait_until env pub_listener drained limit 20 s args >> emit (printed goodbye []))
          (λ _. Followed seen script)
          (Failed seen (PartOf script))
  drain-Followed limit s goodbye args =
      chain
        (wait_until-At env _ (pub_listener-quiet silent) _ _ _ _ _ (Left-PartOf _) (omega arith)
          (omega arith))
        (given (λ w h. record { quiet = h.0.quiet; holds = (h.0.holds, h.1) })
          (weaken (emit-At {J = Done script} _ (silent _ _) refl) λ _ w h. record {
            quiet = h.quiet;
            followed = sym (append-nil _) ∙ h.holds.0;
            reader_left = h.holds.1;
          }))
