-- ===== src/Apps/Waitset/Subscriber/Sights.antt =====
-- What is seen of a run of the waitset subscriber: its lines on samples and its waits.
use Prim.Native.String.{String}
use zzdds_examples.Base.{
  ℕ, suc, ◌⊎◌, ◌+◌, ◌≤◌, ◌<◌, ◌≡◌, refl, true, false, List, [], ◌∷◌, ◌++◌, All, All-append,
  Bool-cases, inl, inr, arith,
}
use zzdds_examples.Base.Int.{ℤ, pos, ltb_ℤ}
use zzdds_examples.Runtime.Event.{Event, called, printed, int, Observer, observed, failures, wait}
use zzdds_examples.Runtime.Program.{World}
use zzdds_examples.Runtime.Contract.{Covers}
use zzdds_examples.Apps.Common.Keeps.{IgnoresSetup}
use zzdds_examples.Apps.Common.Receiver.{NoSample}
use zzdds_examples.Apps.Waitset.Subscriber.{SubState, fresh_sub_state, label}

-- A line with a count and a priority, and a call of wait().
pub data Sight : Type 0 where
  said : String → (count priority : ℤ) → Sight
  waited : Sight

abbrev pub sight_of : Event NoSample → List Sight
sight_of (printed s (int count ∷ int priority ∷ [])) = said s count priority ∷ []
sight_of (called wait) = waited ∷ []
sight_of e = []

abbrev pub sights : Observer NoSample Sight
sights = record { see = sight_of; blind = λ s args. refl; asleep = λ us short. refl }

pub sights-IgnoresSetup : IgnoresSetup sights
sights-IgnoresSetup = record {
  factory = refl;
  participant = λ domain. refl;
  registration = refl;
  topic = λ name type_name. refl;
  line = λ s name. refl;
}

abbrev pub start : World NoSample SubState
start = record { log = []; state = fresh_sub_state }

-- The number of lines, and of waits.
abbrev pub said_count : List Sight → ℕ
said_count [] = 0
said_count (said s c p ∷ xs) = suc (said_count xs)
said_count (waited ∷ xs) = said_count xs

abbrev pub wait_count : List Sight → ℕ
wait_count [] = 0
wait_count (said s c p ∷ xs) = wait_count xs
wait_count (waited ∷ xs) = suc (wait_count xs)

-- A line says high-priority exactly if the priority is above 4.
abbrev pub Labelled : Sight → Type 0
Labelled (said s c p) =
    ((ltb_ℤ (pos 4) p ≡ true) × (s ≡ "Subscriber: high-priority count=%d priority=%d\n"))
    ⊎ ((ltb_ℤ (pos 4) p ≡ false) × (s ≡ "Subscriber: low-priority count=%d priority=%d\n"))
Labelled waited = Unit

-- The end of a subscriber that returned 0.
pub record Received (w : World NoSample SubState) : Type 0 where
  pub quiet : failures w.log ≡ 0
  pub enough : 10 ≤ said_count (observed sights w.log)
  pub labelled : All Labelled (observed sights w.log)

-- What is seen before a failure: fewer than ten samples, with their right labels.
abbrev pub TooFew : List Sight → Type 0
TooFew xs = (said_count xs < 10) × All Labelled xs

pub said_count-append : (xs ys : List Sight) → said_count (xs ++ ys) ≡ said_count xs + said_count ys
said_count-append [] ys = omega arith
said_count-append (said s c p ∷ xs) ys = omega (arith, said_count-append xs ys)
said_count-append (waited ∷ xs) ys = said_count-append xs ys

pub wait_count-append : (xs ys : List Sight) → wait_count (xs ++ ys) ≡ wait_count xs + wait_count ys
wait_count-append [] ys = omega arith
wait_count-append (said s c p ∷ xs) ys = wait_count-append xs ys
wait_count-append (waited ∷ xs) ys = omega (arith, wait_count-append xs ys)

-- After `k` waits, the lines are counted and rightly labelled.
pub record Counted (k : ℕ) (st : SubState) (xs : List Sight) : Type 0 where
  pub counted : st.received ≡ said_count xs
  pub waits : wait_count xs ≡ k
  pub labelled : All Labelled xs

-- Fewer than ten samples so far.
abbrev pub Wanting : ℕ → SubState → List Sight → Type 0
Wanting k st xs = Counted k st xs × (st.received < 10)

pub lost : (k : ℕ) → Covers (Wanting k) TooFew
lost k st xs h = (let e = h.0.counted in omega (arith, h.1, e), h.0.labelled)

-- A sample is reported, and not counted yet.
abbrev pub Ahead : ℕ → SubState → List Sight → Type 0
Ahead k st xs = (suc st.received ≡ said_count xs) × (wait_count xs ≡ k) × All Labelled xs

label-Labelled : (c p : ℤ) → Labelled (said (label p) c p)
label-Labelled c p = elim (Bool-cases (ltb_ℤ (pos 4) p)) [
  | inl high ↦ inl (high, rw high refl)
  | inr low ↦ inr (low, rw low refl)
]

pub say :
    (k : ℕ) (c p : ℤ) (st : SubState) (xs : List Sight)
    → Counted k st xs
    → Ahead k st (xs ++ said (label p) c p ∷ [])
say k c p st xs h = (
  omega (arith, h.counted, said_count-append xs (said (label p) c p ∷ [])),
  omega (arith, h.waits, wait_count-append xs (said (label p) c p ∷ [])),
  All-append Labelled xs _ h.labelled (label-Labelled c p, tt),
)
