-- ===== src/Shape/Topics/Created.antt =====
-- What `create_extra_topics` gives.
use Prim.Native.String.{String}
use mathlib.Core.List.{append-nil, append_assoc}
use zzdds_examples.Base.{
  ℕ, zero, suc, ◌+◌, ◌-◌, ◌<◌, ◌==◌, ◌≡◌, refl, ap, ◌∙◌, ◌⊎◌, inl, inr, Option, none, some, List,
  [], ◌∷◌, ◌++◌, if◌then◌else◌, get_elem?, arith, Bool-cases,
}
use zzdds_examples.Base.Number.{to_string}
use zzdds_examples.Shape.Topics.Distinct.{numbered}
use zzdds_examples.Base.Text.{Text}
use zzdds_examples.Runtime.Event.{text, printed, called, create_topic, Observer}
use zzdds_examples.Runtime.Program.{Env}
use zzdds_examples.Runtime.Contract.{Does, At, Failed, bind, chain, given, weaken, return-Does}
use zzdds_examples.Runtime.Contract.Seen.{emit-At, create-At, unwritten}
use zzdds_examples.Runtime.Invariant.{
  Always, Sound, Always-return, Always-chain, Always-bind, Always-if, emit-Sound, create-Sound,
}
use zzdds_examples.Shape.Topics.{
  ExtraTopics, topic_at, name_at, extra_name, create_from, create_extra_topics, instance_color,
}

names_from : Text → ℕ → ℕ → List Text
names_from base i zero = []
names_from base i (suc count) = extra_name base i ∷ names_from base (suc i) count

plus_zero : (i : ℕ) → i + 0 ≡ i
plus_zero i = omega arith

plus_suc : (i k : ℕ) → suc i + k ≡ i + suc k
plus_suc i k = omega arith

one_plus : (i : ℕ) → 1 + i ≡ suc i
one_plus i = omega arith

minus_one : (i : ℕ) → suc i - 1 ≡ i
minus_one i = omega arith

get_elem?-names_from :
    (base : Text) (i count k : ℕ)
    → k < count
    → get_elem? (names_from base i count) k ≡ some (extra_name base (i + k))
unfolding names_from
get_elem?-names_from base i zero k h = absurd (omega arith)
get_elem?-names_from base i (suc count) zero h = rw (plus_zero i) refl
get_elem?-names_from base i (suc count) (suc k) h =
    get_elem?-names_from base (suc i) count k (omega arith)
    ∙ ap (λ m. some (extra_name base m)) (plus_suc i k)

-- Every topic of the run is there, under its own name.
pub record IsComplete (base : Text) (n : ℕ) (et : ExtraTopics) : Type 0 where
  pub named : (i : ℕ) → i < n → name_at base et i ≡ some (instance_color base i)
  pub topic : (i : ℕ) → i < n → topic_at base et i ≡ some (instance_color base i)

-- Nothing, or all topics.
abbrev pub Gives : Text → ℕ → Option ExtraTopics → Type 0
Gives base n r = (r ≡ none) ⊎ ((et : ExtraTopics) × (r ≡ some et) × IsComplete base n et)

made : Text → ℕ → ℕ → ExtraTopics → ExtraTopics
made base i count et = record {
  topics = et.topics ++ names_from base i count;
  names = et.names ++ names_from base i count;
}

-- No topics, or all of them.
abbrev Made : Text → ℕ → ℕ → ExtraTopics → Option ExtraTopics → Type 0
Made base i count et r = (r ≡ none) ⊎ (r ≡ some (made base i count et))

made-IsComplete :
    (base : Text) (n : ℕ)
    → IsComplete base n (made base 1 (n - 1) record { topics = []; names = [] })
unfolding made name_at topic_at instance_color
made-IsComplete base n = record { named = λ i h. at i h; topic = λ i h. at i h }
  where
    at :
        (i : ℕ)
        → i < n
        → (if i == 0 then some base else get_elem? (names_from base 1 (n - 1)) (i - 1))
          ≡ some (if i == 0 then base else base ++ to_string i)
    at zero h = refl
    at (suc i) h =
        rw (numbered, minus_one i)
          (rw one_plus at (get_elem?-names_from base 1 (n - 1) i (omega arith)))

module _ {S St B X : Type 0} (env : Env S B) (base : Text) {seen : Observer S X}
    {J : St → List X → Type 0} {K : List X → Type 0}
    (line : (s : String) (name : Text) → seen.see (printed s (text name ∷ [])) ≡ [])
    (topic : (name type_name : Text) → seen.see (called (create_topic name type_name)) ≡ []) where
  create_from-At :
      (i count : ℕ) (et : ExtraTopics)
      → Does
          (At seen J)
          (create_from env base i count et)
          (λ r w. At seen J w × Made base i count et r)
          (Failed {St = St} seen K)
  unfolding create_from made names_from
  create_from-At i zero et =
      given (λ w h. (h, inr (rw (append-nil, append-nil) refl))) (return-Does _)
  create_from-At i (suc count) et = chain (emit-At _ (line _ _) refl) (
      bind (create-At env {J' = J} _ (unwritten seen J _ (topic _ _))) λ t. elim (Bool-cases t) [
        | inl there ↦
            rw there (weaken (create_from-At (suc i) count _) λ r w h. (h.0, extend r h.1))
        | inr missing ↦ rw missing (given (λ w h. (h, inl refl)) (return-Does none))
      ])
    where
      extend :
          (r : Option ExtraTopics)
          → Made base
              (suc i)
              count
              record {
                topics = et.topics ++ extra_name base i ∷ [];
                names = et.names ++ extra_name base i ∷ [];
              }
              r
          → Made base i (suc count) et r
      extend r (inl e) = inl e
      extend r (inr e) = inr (e ∙ rw (append_assoc, append_assoc) refl)

  -- Creating the extra topics of a run of n topics either gives none, or every topic's handle and
  -- name: the topic with number i has the base name followed by i, the base topic the base name alone.
  pub create_extra_topics_complete :
      (n : ℕ)
      → Does
          (At seen J)
          (create_extra_topics env base n)
          (λ r w. At seen J w × Gives base n r)
          (Failed {St = St} seen K)
  unfolding create_extra_topics
  create_extra_topics_complete n =
      weaken (create_from-At 1 (n - 1) _) λ r w h. (h.0, complete r h.1)
    where
      complete :
          (r : Option ExtraTopics)
          → Made base 1 (n - 1) record { topics = []; names = [] } r
          → Gives base n r
      complete r (inl e) = inl e
      complete r (inr e) = inr (_, e, made-IsComplete base n)

-- Creating them writes no sample.
module _ {S St B : Type 0} {Q : St → Type 0} {R : S → Type 0} (env : Env S B) (base : Text) where
  create_from-Sound :
      (i count : ℕ) (et : ExtraTopics)
      → Always (Sound Q R) (Sound Q R) (create_from env base i count et)
  unfolding create_from
  create_from-Sound i zero et = Always-return _
  create_from-Sound i (suc count) et = Always-chain (emit-Sound _ tt) (
      Always-bind (create-Sound env _ tt)
        λ t. Always-if t (create_from-Sound (suc i) count _) (Always-return none))

  pub create_extra_topics-Sound :
      (n : ℕ) → Always (Sound Q R) (Sound Q R) (create_extra_topics env base n)
  unfolding create_extra_topics
  create_extra_topics-Sound n = create_from-Sound 1 (n - 1) _
