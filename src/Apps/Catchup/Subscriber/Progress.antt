-- ===== src/Apps/Catchup/Subscriber/Progress.antt =====
-- What the flags of the catchup subscriber say at each of its steps.
use zzdds_examples.Base.{
  ℕ, ◌+◌, ◌-◌, ◌≡◌, refl, ◌∙◌, ◌==◌, not, ◌&&◌, Bool, true, false, List, [], ◌∷◌, ◌++◌, All,
  All-append, length, Bool-cases, inl, inr, if◌then◌else◌, arith,
}
use zzdds_examples.Base.Int.{ℤ, pos, negsuc, pos_part}
use zzdds_examples.Base.Embeds.{empty, Embeds-snoc}
use zzdds_examples.Runtime.Event.{Event, printed, int, Observer, observed, failures}
use zzdds_examples.Runtime.Program.{World}
use zzdds_examples.Runtime.Contract.{Covers}
use zzdds_examples.Apps.Common.Keeps.{IgnoresSetup}
use zzdds_examples.Apps.Common.Receiver.{NoSample}
use zzdds_examples.Apps.Catchup.Subscriber.{
  SubState, fresh_sub_state, raise, all_raised, count_raised, ready_to_finish, between,
}
use zzdds_examples.Apps.Catchup.Subscriber.Flags.{
  On, Backed, count_from, length-raise, all_raised-raise, count_raised-all, Backed-append, Raised,
  Raised-raise,
}

-- The numbers on the lines LIVE SAMPLE.
abbrev pub live_of : Event NoSample → List ℤ
live_of (printed s (int seq_num ∷ [])) = seq_num ∷ []
live_of e = []

abbrev pub live : Observer NoSample ℤ
live = record { see = live_of; blind = λ s args. refl; asleep = λ us short. refl }

pub live-IgnoresSetup : IgnoresSetup live
live-IgnoresSetup = record {
  factory = refl;
  participant = λ domain. refl;
  registration = refl;
  topic = λ name type_name. refl;
  line = λ s name. refl;
}

abbrev pub start : World NoSample SubState
start = record { log = []; state = fresh_sub_state }

abbrev pub IsLive : ℤ → Type 0
IsLive z = between 10 15 z ≡ true

-- The end of a subscriber that returned 0: the historical samples 0 to 9 have come, and the numbers 10
-- to 14 are each on a line.
pub record CaughtUp (Came : ℕ → Type 0) (w : World NoSample SubState) : Type 0 where
  pub quiet : failures w.log ≡ 0
  pub historical : All Came (count_from 0 10)
  pub all_live : All (On (observed live w.log)) (count_from 10 5)

-- `counted` says that the test of the count has been passed. `Came` says that a sample has come.
pub record Flagged (Came : ℕ → Type 0) (counted : Bool) (st : SubState) (xs : List ℤ) : Type 0 where
  pub came : Raised Came 0 st.historical_received
  pub historical_length : length st.historical_received ≡ 10
  pub live_length : length st.live_received ≡ 5
  pub backed : Backed 10 st.live_received xs
  pub stays : counted ≡ true → all_raised st.historical_received ≡ true
  pub confirmed : st.historical_confirmed ≡ true → all_raised st.historical_received ≡ true
  pub complete : st.all_done ≡ true → ready_to_finish st ≡ true
  pub only_live : All IsLive xs

live_index : (z : ℤ) → between 10 15 z ≡ true → 10 + (pos_part z - 10) ≡ pos_part z
live_index (pos n) is_live = ground arith
live_index (negsuc n) is_live = absurd (ground arith)

ready-raise :
    (i : ℕ) (st : SubState)
    → ready_to_finish st ≡ true
    → ready_to_finish (record st { live_received = raise i st.live_received }) ≡ true
unfolding ready_to_finish
ready-raise i st h = ground (arith, all_raised-raise i st.live_received)

module _ (Came : ℕ → Type 0) (counted : Bool) where
  -- `became_done` is only set when the state is ready.
  abbrev pub Going : Bool → SubState → List ℤ → Type 0
  Going b st xs = Flagged Came counted st xs × (b ≡ true → ready_to_finish st ≡ true)

  pub lost : Covers (Flagged Came counted) (All IsLive)
  lost st xs h = h.only_live

  pub lost' : (b : Bool) → Covers (Going b) (All IsLive)
  lost' b st xs h = h.0.only_live

  pub raise_historical :
      (b : Bool) (i : ℕ) (st : SubState) (xs : List ℤ)
      → Came i
      → Going b st xs
      → Going b (record st { historical_received = raise i st.historical_received }) xs
  unfolding ready_to_finish
  raise_historical b i st xs here h = (
    record {
      came =
          Raised-raise Came 0 i st.historical_received
            (let same : 0 + i ≡ i = omega arith in rw same here) h.0.came;
      historical_length = length-raise i st.historical_received ∙ h.0.historical_length;
      live_length = h.0.live_length;
      backed = h.0.backed;
      stays = λ e. all_raised-raise i st.historical_received (h.0.stays e);
      confirmed = λ e. all_raised-raise i st.historical_received (h.0.confirmed e);
      complete = h.0.complete;
      only_live = h.0.only_live;
    },
    h.1,
  )

  -- The line of a live sample is printed.
  abbrev pub Told : Bool → ℤ → SubState → List ℤ → Type 0
  Told b z st ys = Going b st ys × On ys (pos_part z)

  pub tell :
      (b : Bool) (z : ℤ) (st : SubState) (xs : List ℤ)
      → between 10 15 z ≡ true
      → Going b st xs
      → Told b z st (xs ++ z ∷ [])
  tell b (negsuc n) st xs is_live h = absurd (ground arith)
  tell b (pos n) st xs is_live h = (
    (
      record {
        came = h.0.came;
        historical_length = h.0.historical_length;
        live_length = h.0.live_length;
        backed = Backed-append 10 st.live_received xs _ h.0.backed;
        stays = h.0.stays;
        confirmed = h.0.confirmed;
        complete = h.0.complete;
        only_live = All-append IsLive xs (pos n ∷ []) h.0.only_live (is_live, tt);
      },
      h.1,
    ),
    Embeds-snoc {xs = xs} (pos n) empty,
  )

  pub raise_live :
      (b : Bool) (z : ℤ) (st : SubState) (xs : List ℤ)
      → between 10 15 z ≡ true
      → Told b z st xs
      → Going b (record st { live_received = raise (pos_part z - 10) st.live_received }) xs
  raise_live b z st xs is_live h = (
    record {
      came = h.0.0.came;
      historical_length = h.0.0.historical_length;
      live_length = length-raise _ st.live_received ∙ h.0.0.live_length;
      backed =
          Raised-raise (On xs) 10 _ st.live_received (rw (live_index z is_live) h.1) h.0.0.backed;
      stays = h.0.0.stays;
      confirmed = h.0.0.confirmed;
      complete = λ e. ready-raise _ st (h.0.0.complete e);
      only_live = h.0.0.only_live;
    },
    λ e. ready-raise _ st (h.0.1 e),
  )

  pub became :
      (b : Bool) (st : SubState) (xs : List ℤ)
      → Going b st xs
      → Going (if not st.all_done && not b && ready_to_finish st then true else b) st xs
  became b st xs h = elim (Bool-cases (not st.all_done && not b && ready_to_finish st)) [
    | inl last ↦ rw last (h.0, λ e. ground arith)
    | inr other ↦ rw other h
  ]

  -- `all_done.store(true)`
  pub finish_up :
      (st : SubState) (xs : List ℤ)
      → Going true st xs
      → Flagged Came counted (record st { all_done = true }) xs
  unfolding ready_to_finish
  finish_up st xs h = record {
    came = h.0.came;
    historical_length = h.0.historical_length;
    live_length = h.0.live_length;
    backed = h.0.backed;
    stays = h.0.stays;
    confirmed = h.0.confirmed;
    complete = λ _. h.1 refl;
    only_live = h.0.only_live;
  }

-- The count of the flags is read.
pub count_passed :
    {Came : ℕ → Type 0} (st : SubState) (xs : List ℤ)
    → (count_raised st.historical_received == 10) ≡ true
    → Flagged Came false st xs
    → Flagged Came true st xs
count_passed st xs e h = record {
  came = h.came;
  historical_length = h.historical_length;
  live_length = h.live_length;
  backed = h.backed;
  stays = λ _. count_raised-all st.historical_received (ground (arith, h.historical_length));
  confirmed = h.confirmed;
  complete = h.complete;
  only_live = h.only_live;
}

-- `historical_confirmed.store(true)`
pub confirm :
    {Came : ℕ → Type 0} (st : SubState) (xs : List ℤ)
    → Flagged Came true st xs
    → Flagged Came true (record st { historical_confirmed = true }) xs
unfolding ready_to_finish
confirm st xs h = record {
  came = h.came;
  historical_length = h.historical_length;
  live_length = h.live_length;
  backed = h.backed;
  stays = h.stays;
  confirmed = λ _. h.stays refl;
  complete = λ e. let done = h.complete e in ground arith;
  only_live = h.only_live;
}

pub live_raised : (st : SubState) → ready_to_finish st ≡ true → all_raised st.live_received ≡ true
unfolding ready_to_finish
live_raised st h = ground arith

pub fresh-Backed : Backed 10 fresh_sub_state.live_received []
unfolding fresh_sub_state
fresh-Backed = (never, (never, (never, (never, (never, tt)))))
  where
    never : {n : ℕ} → false ≡ true → On [] n
    never e = absurd (ground arith)

pub fresh-Raised : (Came : ℕ → Type 0) → Raised Came 0 fresh_sub_state.historical_received
unfolding fresh_sub_state
fresh-Raised Came =
    (never, (never, (never, (never, (never, (never, (never, (never, (never, (never, tt))))))))))
  where
    never : {n : ℕ} → false ≡ true → Came n
    never e = absurd (ground arith)
