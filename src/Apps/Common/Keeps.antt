-- ===== src/Apps/Common/Keeps.antt =====
-- The contracts of the shared parts.
use Prim.Native.String.{String}
use zzdds_examples.Base.{ℕ, zero, suc, ◌+◌, ◌≤◌, ◌≡◌, refl, true, List, [], ◌∷◌, arith, first_n}
use zzdds_examples.Base.Text.{Text}
use zzdds_examples.Runtime.Event.{
  Arg, called, create_factory, create_participant, register_type, create_topic, printed, text,
  Observer, samples, written, failures,
}
use zzdds_examples.Runtime.Program.{World, Env}
use zzdds_examples.Runtime.Contract.{Does, At, Failed, Covers, chain, return-Does, given}
use zzdds_examples.Runtime.Contract.Seen.{
  emit-At, modify-At, must_return-At, must_create-keeps, must_return-keeps,
}
use zzdds_examples.Apps.Common.{
  PubState, PubCallback, publication_matched, reliable_reader_ready, pub_listener, drained,
  bring_up, write_loop,
}

-- What only the observer's view decides.
abbrev pub Seen : {St X : Type 0} → (List X → Type 0) → St → List X → Type 0
Seen P st xs = P xs

-- Items 0, …, k - 1 for some k up to n.
abbrev pub UpTo : {X : Type 0} → (ℕ → X) → ℕ → List X → Type 0
UpTo item n xs = (k : ℕ) × (k ≤ n) × (xs ≡ first_n item k)

-- The end of a publisher that returned 0.
pub record Sent {S : Type 0} (sample : ℕ → S) (n : ℕ) (w : World S PubState) : Type 0 where
  pub quiet : failures w.log ≡ 0
  pub sent : written w.log ≡ first_n sample n
  pub reader_left : drained w.state ≡ true

-- The events of `bring_up` do not count.
pub record IgnoresSetup {S X : Type 0} (seen : Observer S X) : Type 0 where
  pub factory : seen.see (called create_factory) ≡ []
  pub participant : (domain : ℕ) → seen.see (called (create_participant domain)) ≡ []
  pub registration : seen.see (called register_type) ≡ []
  pub topic : (name type_name : Text) → seen.see (called (create_topic name type_name)) ≡ []
  pub line : (s : String) (name : Text) → seen.see (printed s (text name ∷ [])) ≡ []

pub samples-IgnoresSetup : {S : Type 0} → IgnoresSetup (samples {S = S})
samples-IgnoresSetup = record {
  factory = refl;
  participant = λ domain. refl;
  registration = refl;
  topic = λ name type_name. refl;
  line = λ s name. refl;
}

module _ {S X : Type 0} {seen : Observer S X} {P K : List X → Type 0}
    (quiet : (s : String) (args : List Arg) → seen.see (printed s args) ≡ []) where
  pub pub_listener-quiet :
      (c : PubCallback)
      → Does
          (At seen (Seen P))
          (pub_listener c)
          (λ _. At seen (Seen P))
          (Failed {St = PubState} seen K)
  unfolding pub_listener
  pub_listener-quiet (publication_matched n) =
      chain (modify-At _ (λ st ws h. h)) (emit-At _ (quiet _ _) refl)
  pub_listener-quiet (reliable_reader_ready b) =
      chain (modify-At _ (λ st ws h. h)) (emit-At _ (quiet _ _) refl)

module _ {S : Type 0} {P K : List S → Type 0} where
  pub pub_listener-keeps :
      (c : PubCallback)
      → Does
          (At samples (Seen P))
          (pub_listener c)
          (λ _. At samples (Seen P))
          (Failed {St = PubState} samples K)
  pub_listener-keeps = pub_listener-quiet (λ s args. refl)

module _ {S St B : Type 0} (env : Env S B) where
  pub bring_up-keeps :
      {X : Type 0} {seen : Observer S X} {J : St → List X → Type 0} {K : List X → Type 0}
      (domain : ℕ) (topic : Text)
      → IgnoresSetup seen
      → Covers J K
      → Does (At seen J) (bring_up env domain topic) (λ _. At seen J) (Failed {St = St} seen K)
  unfolding bring_up
  bring_up-keeps domain topic quiet lost = chain (must_create-keeps env _ _ _ quiet.factory lost) (
      chain (must_create-keeps env _ _ _ (quiet.participant domain) lost) (
        chain (must_return-keeps env _ _ _ quiet.registration lost) (
          chain (must_create-keeps env _ _ _ (quiet.topic topic topic) lost)
            (emit-At _ (quiet.line _ topic) refl))))

  -- The loop writes samples i, …, m - 1 in order, or fails on its way.
  pub write_loop-part :
      (sample : ℕ → S) (wrote broken : String) (i count m n : ℕ)
      → i + count ≡ m
      → m ≤ n
      → Does
          (At samples (Seen (λ ws. ws ≡ first_n sample i)))
          (write_loop env sample wrote broken i count)
          (λ _. At samples (Seen (λ ws. ws ≡ first_n sample m)))
          (Failed {St = St} samples (UpTo sample n))
  unfolding write_loop first_n
  write_loop-part sample wrote broken i zero m n e within =
      let e' : i ≡ m = omega arith in given (λ w h. rw (← e') h) (return-Does tt)
  write_loop-part sample wrote broken i (suc count) m n e within =
      chain
        (must_return-At env {J' = Seen (λ ws. ws ≡ first_n sample (suc i))} _ _ _
          (λ st ws h. rw h refl) (λ st ws h. (suc i, omega arith, h)))
        (chain (emit-At _ refl refl)
          (write_loop-part sample wrote broken (suc i) count m n (omega arith) within))

  -- The loop writes samples i, …, n - 1 in order, or fails on its way.
  pub write_loop-At :
      (sample : ℕ → S) (wrote broken : String) (i count n : ℕ)
      → i + count ≡ n
      → Does
          (At samples (Seen (λ ws. ws ≡ first_n sample i)))
          (write_loop env sample wrote broken i count)
          (λ _. At samples (Seen (λ ws. ws ≡ first_n sample n)))
          (Failed {St = St} samples (UpTo sample n))
  write_loop-At sample wrote broken i count n e =
      write_loop-part sample wrote broken i count n n e (omega arith)
