-- ===== src/Apps/Common/Receiver/InOrder.antt =====
-- The receiver reports 0, 1, 2, … without a gap, and stops the process at the first other sample.
use Prim.Native.String.{String}
use zzdds_examples.Base.{
  ℕ, suc, ◌≤◌, ◌≡◌, refl, ap, true, List, [], ◌∷◌, arith, first_n, Bool-cases, inl, inr,
}
use zzdds_examples.Base.Int.{ℤ, pos, ◌==ℤ◌, ==ℤ→eq}
use zzdds_examples.Dds.{Taken, sample, take_error}
use zzdds_examples.Runtime.Event.{Arg}
use zzdds_examples.Runtime.Event.{observed, failures}
use zzdds_examples.Runtime.Program.{World}
use zzdds_examples.Runtime.Contract.{
  Does, At, Failed, Covers, bind, chain, given, get-Does, return-Does,
}
use zzdds_examples.Runtime.Contract.Seen.{fail-At, modify-Turns, emit-Turns}
use zzdds_examples.Apps.Common.Keeps.{IgnoresSetup}
use zzdds_examples.Apps.Common.Receiver.{SubState, NoSample, accept, on_data_available, reports}

pub reports-IgnoresSetup : IgnoresSetup (reports {S = NoSample})
reports-IgnoresSetup = record {
  factory = refl;
  participant = λ domain. refl;
  registration = refl;
  topic = λ name type_name. refl;
  line = λ s name. refl;
}

-- The counts reported are those below `expected_next`; all samples are in once it has come so far.
pub record InOrder (n : ℕ) (st : SubState) (xs : List ℤ) : Type 0 where
  pub counted : xs ≡ first_n pos st.expected_next
  pub complete : st.all_received ≡ true → n ≤ st.expected_next

-- 0, …, k - 1 for some k.
abbrev pub Counts : List ℤ → Type 0
Counts xs = (k : ℕ) × (xs ≡ first_n pos k)

-- The end of a subscriber that returned 0: the samples 0, 1, … are reported, n of them at least.
pub record Received (n : ℕ) (w : World NoSample SubState) : Type 0 where
  pub quiet : failures w.log ≡ 0
  pub reported : (k : ℕ) × (n ≤ k) × (observed reports w.log ≡ first_n pos k)

pub InOrder-Counts : (n : ℕ) → Covers (InOrder n) Counts
InOrder-Counts n st xs h = (st.expected_next, h.counted)

abbrev Next : ℕ → ℕ → SubState → List ℤ → Type 0
Next n k st xs = InOrder n st xs × (st.expected_next ≡ k)

abbrev Reported : ℕ → SubState → List ℤ → Type 0
Reported n st xs =
    (xs ≡ first_n pos (suc st.expected_next)) × (st.all_received ≡ true → n ≤ st.expected_next)

module _ {V : Type 0} (n : ℕ) (count : V → ℤ) (received : String) (args : V → List Arg) where
  accept-At :
      (v : V) (k : ℕ)
      → count v ≡ pos k
      → Does
          (λ w. At reports (InOrder n) w × (w.state.expected_next ≡ k))
          (accept n count received args v)
          (λ _. At reports (InOrder n))
          (Failed {X = ℤ} reports Counts)
  unfolding accept first_n
  accept-At v k e =
      chain
        (given (λ w h. record { quiet = h.0.quiet; holds = (h.0.holds, h.1) })
          (emit-Turns {J = Next n k} {J' = Reported n} _ refl
            (λ st xs h. (rw (e, ← h.1, h.0.counted) refl, h.0.complete))))
        (modify-Turns _ (λ st xs h. record { counted = h.0; complete = ground arith }))

  -- Whatever one callback takes, it reports the sample that is next or stops the process with status 1
  -- and one line on stderr: as long as the process runs, the counts reported are 0, 1, 2, … without a
  -- gap, and all samples are said to be in only when there were n of them.
  pub on_data_available-At :
      (ts : List (Taken V))
      → Does
          (At reports (InOrder n))
          (on_data_available n count received args ts)
          (λ _. At reports (InOrder n))
          (Failed reports Counts)
  unfolding on_data_available
  on_data_available-At [] = return-Does tt
  on_data_available-At (take_error rc ∷ rest) = fail-At _ _ (InOrder-Counts n)
  on_data_available-At (sample info v ∷ rest) = bind get-Does λ st.
      elim (Bool-cases info.valid_data) [
        | inr invalid ↦ rw invalid (given (λ w h. h.0) (return-Does tt))
        | inl valid ↦ elim (Bool-cases (count v ==ℤ pos st.expected_next)) [
          | inr other ↦ rw (valid, other) (given (λ w h. h.0) (fail-At _ _ (InOrder-Counts n)))
          | inl next ↦
              rw (valid, next)
                (given (λ w h. (h.0, ap (λ (s : SubState). s.expected_next) h.1))
                  (chain (accept-At v st.expected_next (==ℤ→eq _ _ next))
                    (on_data_available-At rest)))
        ]
      ]
