-- ===== src/Apps/Waitset/Publisher/Tale.antt =====
-- What the waitset publisher does for its reader to see, and the order in which main does it.
use mathlib.Core.List.{append-nil, append_assoc}
use Prim.Native.String.{String}
use zzdds_examples.Base.{
  ℕ, zero, suc, ◌+◌, ◌≤◌, ◌<◌, some, ◌≡◌, refl, ◌∙◌, ap, List, [], ◌∷◌, ◌++◌, arith,
}
use zzdds_examples.Runtime.Event.{
  Event, called, printed, num, Observer, observed, failures, wait, write,
}
use zzdds_examples.Runtime.Program.{World}
use zzdds_examples.Runtime.Contract.{Covers}
use zzdds_examples.Apps.Common.Keeps.{IgnoresSetup}
use zzdds_examples.Apps.Waitset.{WaitsetSample}
use zzdds_examples.Apps.Waitset.Publisher.{PubState, fresh_pub_state, hello_sample, sample_count}

-- A sample written, a line without arguments, a line on a sample, and a call of wait().
pub data Step : Type 0 where
  wrote : WaitsetSample → Step
  said : String → Step
  counted : (count priority : ℕ) → Step
  waited : Step

abbrev pub step_of : Event WaitsetSample → List Step
step_of (called (write k s)) = wrote s ∷ []
step_of (called wait) = waited ∷ []
step_of (printed s []) = said s ∷ []
step_of (printed s (num count ∷ num priority ∷ [])) = counted count priority ∷ []
step_of e = []

abbrev pub steps : Observer WaitsetSample Step
steps = record { see = step_of; blind = λ s args. refl; asleep = λ us short. refl }

pub steps-IgnoresSetup : IgnoresSetup steps
steps-IgnoresSetup = record {
  factory = refl;
  participant = λ domain. refl;
  registration = refl;
  topic = λ name type_name. refl;
  line = λ s name. refl;
}

abbrev pub start : World WaitsetSample PubState
start = record { log = []; state = fresh_pub_state }

abbrev pub wait_count : List Step → ℕ
wait_count [] = 0
wait_count (wrote s ∷ xs) = wait_count xs
wait_count (said s ∷ xs) = wait_count xs
wait_count (counted c p ∷ xs) = wait_count xs
wait_count (waited ∷ xs) = suc (wait_count xs)

-- All but the waits.
abbrev pub told : List Step → List Step
told [] = []
told (wrote s ∷ xs) = wrote s ∷ told xs
told (said s ∷ xs) = said s ∷ told xs
told (counted c p ∷ xs) = counted c p ∷ told xs
told (waited ∷ xs) = told xs

pub wait_count-append : (xs ys : List Step) → wait_count (xs ++ ys) ≡ wait_count xs + wait_count ys
wait_count-append [] ys = omega arith
wait_count-append (wrote s ∷ xs) ys = wait_count-append xs ys
wait_count-append (said s ∷ xs) ys = wait_count-append xs ys
wait_count-append (counted c p ∷ xs) ys = wait_count-append xs ys
wait_count-append (waited ∷ xs) ys = omega (arith, wait_count-append xs ys)

pub told-append : (xs ys : List Step) → told (xs ++ ys) ≡ told xs ++ told ys
told-append [] ys = refl
told-append (wrote s ∷ xs) ys = ap (λ zs. wrote s ∷ zs) (told-append xs ys)
told-append (said s ∷ xs) ys = ap (λ zs. said s ∷ zs) (told-append xs ys)
told-append (counted c p ∷ xs) ys = ap (λ zs. counted c p ∷ zs) (told-append xs ys)
told-append (waited ∷ xs) ys = told-append xs ys

-- `count` samples from number `i` on, each with its line.
abbrev pub samples_from : (i count : ℕ) → List Step
samples_from i zero = []
samples_from i (suc count) = wrote (hello_sample i) ∷ counted i i ∷ samples_from (suc i) count

abbrev pub ending : List Step
ending =
    said "Publisher: reader disconnected\n"
    ∷ said "Publisher: StatusCondition remained attached through delete_datawriter (safe).\n"
    ∷ said "Publisher: done.\n"
    ∷ []

abbrev pub tale : List Step
tale =
    said "Create writer for topic: WaitsetSample\n"
      ∷ said "Publisher: reader matched\n"
      ∷ samples_from 0 sample_count
    ++ ending

-- The first loop has ended on a count of readers above 0.
abbrev pub Matched : PubState → Type 0
Matched st = (n : ℕ) × (st.matched_status ≡ some n) × (0 < n)

-- The end of a publisher that returned 0.
pub record Whole (w : World WaitsetSample PubState) : Type 0 where
  pub quiet : failures w.log ≡ 0
  pub matched : Matched w.state
  pub disconnected : w.state.disconnected_status ≡ some 0
  pub whole : told (observed steps w.log) ≡ tale

-- A first part of the tale.
abbrev pub FirstPart : List Step → Type 0
FirstPart xs = (rest : List Step) × (told xs ++ rest ≡ tale)

-- `rest` is still to come, and wait() has been called `k` times at least; `Known` holds of the state.
abbrev pub ToCome : (PubState → Type 0) → ℕ → List Step → PubState → List Step → Type 0
ToCome Known k rest st xs = (k ≤ wait_count xs) × (told xs ++ rest ≡ tale) × Known st

module _ (Known : PubState → Type 0) where
  pub ToCome-FirstPart : (k : ℕ) (rest : List Step) → Covers (ToCome Known k rest) FirstPart
  ToCome-FirstPart k rest st xs h = (rest, h.1)

  -- A step that is not a wait.
  pub ToCome-next :
      (k : ℕ) (x : Step) (rest : List Step) (st : PubState) (xs : List Step)
      → told (x ∷ []) ≡ x ∷ []
      → ToCome Known k (x ∷ rest) st xs
      → ToCome Known k rest st (xs ++ x ∷ [])
  ToCome-next k x rest st xs e h = (
    let more = wait_count-append xs (x ∷ []) in omega (arith, h.0, more),
    rw (told-append xs (x ∷ []), e) (append_assoc (told xs) (x ∷ []) rest ∙ h.1),
    h.2,
  )

  pub ToCome-waited :
      (k : ℕ) (rest : List Step) (st : PubState) (xs : List Step)
      → ToCome Known k rest st xs
      → ToCome Known (suc k) rest st (xs ++ waited ∷ [])
  ToCome-waited k rest st xs h = (
    let more = wait_count-append xs (waited ∷ []) in omega (arith, h.0, more),
    rw (told-append xs (waited ∷ []), append-nil) h.1,
    h.2,
  )
