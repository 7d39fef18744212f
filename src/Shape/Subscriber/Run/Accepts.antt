-- ===== src/Shape/Subscriber/Run/Accepts.antt =====
-- The loop of the shape subscriber accepts all samples that fit, in both ways to read.
use mathlib.Core.Path.{subst}
use zzdds_examples.Base.{
  ℕ, ◌<◌, ◌≡◌, refl, ◌||◌, ◌⊎◌, not, Bool, true, false, List, [], ◌∷◌, All, arith, inl, inr,
  if◌then◌else◌,
}
use zzdds_examples.Base.Text.{Text}
use zzdds_examples.Base.Int.{pos}
use zzdds_examples.Dds.{SampleInfo}
use zzdds_examples.Runtime.Program.{Env}
use zzdds_examples.Runtime.Event.{Log, samples, take, read_n}
use zzdds_examples.Runtime.Contract.{
  Does, At, bind, chain, never_exits, if-Does, known, return-Does,
}
use zzdds_examples.Runtime.Contract.Seen.{emit-At, answer-At, unwritten}
use zzdds_examples.Apps.Common.Receiver.{NoSample}
use zzdds_examples.Shape.Options.{Options}
use zzdds_examples.Shape.Sample.{out_of_bounds}
use zzdds_examples.Shape.Subscriber.{
  SubRun, ReaderCallback, is_not_alive, is_empty, print_not_alive,
}
use zzdds_examples.Shape.Subscriber.Run.{Read, Readers, read_all, read_topic, subscribe}
use zzdds_examples.Shape.Subscriber.Run.Loop.{Steps, subscribe-Steps}
use mathlib.Core.List.{Permᴰ}
use zzdds_examples.Shape.Subscriber.Accepts.{
  Fits, Agrees, Fine, GoesOn, accept-Fine, key_color-Fine, take-Fine,
}

-- A sample of read_n() that is treated as one of an instance that is gone.
abbrev pub is_gone : SampleInfo → Bool
is_gone info = not info.valid_data || is_not_alive info.instance_state

-- As `Fits`, for the samples of read_n().
unfoldable pub FitsRead : (ℕ → Text) → Read → Type 0
FitsRead key (info, v) =
    ((is_gone info ≡ false) × (v.color ≡ key info.instance_handle) × (out_of_bounds v ≡ false))
    ⊎ ((is_gone info ≡ true) × (is_empty v.color ≡ false))

All-Permᴰ : {A : Type 0} (P : A → Type 0) (xs ys : List A) → Permᴰ xs ys → All P xs → All P ys
All-Permᴰ P [] [] Permᴰ.nil h = tt
All-Permᴰ P (x ∷ xs) (y ∷ ys) (Permᴰ.cons e p) h = (subst P e h.0, All-Permᴰ P xs ys p h.1)
All-Permᴰ P (x ∷ x' ∷ xs) (y ∷ y' ∷ ys) (Permᴰ.swap e e') h =
    (subst P e' h.1.0, (subst P e h.0, h.1.1))
All-Permᴰ P xs zs (Permᴰ.trans {l₂ = ys} p q) h = All-Permᴰ P ys zs q (All-Permᴰ P xs ys p h)

module _ (key : ℕ → Text) where
  read_all-Fine :
      (topic : Text) (rs : List Read)
      → All (FitsRead key) rs
      → GoesOn key topic (Fine key topic) (read_all topic rs)
  unfolding read_all FitsRead print_not_alive
  read_all-Fine topic [] fits = return-Does tt
  read_all-Fine topic ((info, v) ∷ rest) (inl (here, e, inside), fits) = rw here (
      chain (accept-Fine key topic info.instance_handle v e inside) (read_all-Fine topic rest fits))
  read_all-Fine topic ((info, v) ∷ rest) (inr (gone, keyed), fits) = rw gone (
      chain
        (bind (key_color-Fine key topic info.instance_handle v keyed) λ color. emit-At _ refl refl)
        (read_all-Fine topic rest fits))

  module _ (env : Env NoSample ReaderCallback) (opts : Options) (readers : Readers)
      (sort : List Read → List Read) (sorts : (rs : List Read) → Permᴰ rs (sort rs))
      (fit : (log : Log NoSample) (ti : ℕ) → All (Fits key) (readers.taken log ti))
      (fit_read : (log : Log NoSample) (ti : ℕ) → All (FitsRead key) (readers.read log ti)) where
    abbrev Agreeing : SubRun → List NoSample → Type 0
    Agreeing st xs = Agrees key st.ih_cache

    abbrev Never : List NoSample → Type 0
    Never xs = ⊥

    read_topic-Fine :
        (ti : ℕ) (name : Text) → Steps Agreeing Never (read_topic env opts readers sort ti name)
    unfolding read_topic
    read_topic-Fine ti name =
        if-Does _
          (bind
            (answer-At env {J' = Agreeing} _ (All (FitsRead key)) (read_n ti)
              (unwritten {S = NoSample} samples Agreeing (read_n ti) refl) (λ log. fit_read log ti))
            λ r. known λ fits. read_all-Fine name _ (ordered opts.take_read r.1 fits))
          (bind
            (answer-At env {J' = Agreeing} _ (All (Fits key)) (take ti)
              (unwritten {S = NoSample} samples Agreeing (take ti) refl) (λ log. fit log ti))
            λ r. known λ fits. take-Fine key name r.1 fits)
      where
        ordered :
            (b : Bool) (rs : List Read)
            → All (FitsRead key) rs
            → All (FitsRead key) (if b then rs else sort rs)
        ordered true rs fits = fits
        ordered false rs fits = All-Permᴰ (FitsRead key) rs (sort rs) (sorts rs) fits

    -- When all that the readers give fits the colours of the instances and the bounds, and sorting
    -- only rearranges, the loop of a subscriber of n iterations comes to its end in both ways to read:
    -- it neither stops the process nor prints on stderr, and what it remembers of an instance is its
    -- colour.
    pub subscribe_accepts :
        (n fuel : ℕ) (names : List Text)
        → opts.num_iterations ≡ pos n
        → n < fuel
        → Does
            (At samples Agreeing)
            (subscribe env opts readers sort names fuel 0)
            (λ _. At samples Agreeing)
            (λ _ _. ⊥)
    subscribe_accepts n fuel names finite enough = never_exits (
        subscribe-Steps env opts readers sort read_topic-Fine n finite names fuel 0 (omega arith)
          (omega arith))
