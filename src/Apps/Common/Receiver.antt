-- ===== src/Apps/Common/Receiver.antt =====
-- The subscriber that expects samples 0, 1, … in order: `SubListener::on_data_available` of
-- cpp/hello_world, cpp/discovery and cpp/participant-config, which differ in the number of samples
-- and in the line that they print. A callback comes with the results of its calls of take(), up to
-- the one that says RETCODE_NO_DATA.
pub mod InOrder
use Prim.Native.String.{String}
use zzdds_examples.Base.{ℕ, suc, ◌==◌, Bool, true, false, List, [], ◌∷◌, if◌then◌else◌, refl, not}
use zzdds_examples.Base.Int.{ℤ, pos, ◌==ℤ◌}
use zzdds_examples.Dds.{SampleInfo, Taken, sample, take_error}
use zzdds_examples.Runtime.Event.{Arg, num, int, Event, printed, Observer}
use zzdds_examples.Runtime.Program.{M, ◌>>=◌, ◌>>◌, return, get, modify, fail, printf}

-- `SubState`
pub record SubState : Type 0 where
  pub expected_next : ℕ
  pub all_received : Bool

abbrev pub fresh_sub_state : SubState
fresh_sub_state = record { expected_next = 0; all_received = false }

-- A program that writes no samples.
pub data NoSample : Type 0 where

-- `expected_samples` is EXPECTED_SAMPLES, `count` the member of the sample, `args` what the line
-- `received` shows after it.
module _ {V : Type 0} (expected_samples : ℕ) (count : V → ℤ) (received : String)
    (args : V → List Arg) where
  -- One round of the loop that does not end it.
  pub accept : V → M NoSample SubState (Unit {0})
  accept v = do
    printf received (int (count v) ∷ args v)
    modify λ st. record {
      expected_next = suc st.expected_next;
      all_received = if suc st.expected_next == expected_samples then true else st.all_received;
    }

  pub on_data_available : List (Taken V) → M NoSample SubState (Unit {0})
  on_data_available [] = return tt
  on_data_available (take_error rc ∷ rest) = fail "FAIL: take() CDR error (rc=%d)\n" (num rc ∷ [])
  on_data_available (sample info v ∷ rest) = do
    st ← get
    if not info.valid_data
        then return tt
        else if not (count v ==ℤ pos st.expected_next)
        then fail "FAIL: expected count=%d but got count=%d\n"
            (num st.expected_next ∷ int (count v) ∷ [])
        else (do accept v; on_data_available rest)

-- The counts on the lines that report a sample.
abbrev pub reported : {S : Type 0} → Event S → List ℤ
reported (printed s (int c ∷ args)) = c ∷ []
reported e = []

abbrev pub reports : {S : Type 0} → Observer S ℤ
reports = record { see = reported; blind = λ s args. refl; asleep = λ us short. refl }
