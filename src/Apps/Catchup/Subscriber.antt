-- ===== src/Apps/Catchup/Subscriber.antt =====
-- cpp/catchup/src/subscriber.cpp
pub mod Flags
pub mod Progress
pub mod Contract
use Prim.Native.String.{String}
use zzdds_examples.Base.{
  ℕ, zero, suc, ◌+◌, ◌-◌, ◌==◌, Bool, true, false, ◌&&◌, not, List, [], ◌∷◌, if◌then◌else◌, ◌||◌,
}
use zzdds_examples.Base.Text.{Text, codes}
use zzdds_examples.Base.Int.{ℤ, pos, pos_part, ltb_ℤ}
use zzdds_examples.Dds.{
  ReaderQos, ReliabilityKind, DurabilityKind, HistoryKind, Taken, sample, take_error, is_ok,
  rc_number,
}
use zzdds_examples.Runtime.Event.{
  num, int, create_subscriber, create_datareader, set_listener, wait_for_historical_data,
  delete_datareader,
}
use zzdds_examples.Runtime.Program.{
  M, Env, ◌>>=◌, ◌>>◌, return, exit, get, modify, fail, check, printf, invoke, must_create,
  must_return, when,
}
use zzdds_examples.Runtime.Wait.{deliver, wait_until}
use zzdds_examples.Apps.Common.{parse_domain, bring_up}
use zzdds_examples.Apps.Common.Receiver.{NoSample}
use zzdds_examples.Apps.Catchup.{HistoryEvent, historical_count, live_count}

-- `SubState`, with its arrays of flags as lists.
pub record SubState : Type 0 where
  pub historical_received : List Bool
  pub live_received : List Bool
  pub historical_confirmed : Bool
  pub all_done : Bool

pub cleared : ℕ → List Bool
cleared zero = []
cleared (suc n) = false ∷ cleared n

-- Its constructor.
unfoldable pub fresh_sub_state : SubState
unfolding cleared
fresh_sub_state = record {
  historical_received = cleared historical_count;
  live_received = cleared live_count;
  historical_confirmed = false;
  all_done = false;
}

-- `flags[i].store(true)`
pub raise : ℕ → List Bool → List Bool
raise i [] = []
raise zero (b ∷ flags) = true ∷ flags
raise (suc i) (b ∷ flags) = b ∷ raise i flags

pub all_raised : List Bool → Bool
all_raised [] = true
all_raised (b ∷ flags) = b && all_raised flags

-- The loop that counts historical_count.
pub count_raised : List Bool → ℕ
count_raised [] = 0
count_raised (b ∷ flags) = (if b then 1 else 0) + count_raised flags

pub ready_to_finish : SubState → Bool
ready_to_finish st = st.historical_confirmed && all_raised st.live_received

-- `seq_num >= low && seq_num < high`
abbrev pub between : ℕ → ℕ → ℤ → Bool
between low high seq_num = not (ltb_ℤ seq_num (pos low)) && ltb_ℤ seq_num (pos high)

-- A historical or a live sample. The result is became_done.
pub receive : ℤ → Bool → M NoSample SubState Bool
receive seq_num became_done =
    if between 0 historical_count seq_num
    then (do
      modify
          λ st. record st { historical_received = raise (pos_part seq_num) st.historical_received }
      return became_done)
    else if between historical_count (historical_count + live_count) seq_num
    then (do
      printf "LIVE SAMPLE seq_num=%d\n" (int seq_num ∷ [])
      modify λ st. record st {
        live_received = raise (pos_part seq_num - historical_count) st.live_received;
      }
      st ← get
      return
          (if not st.all_done && not became_done && ready_to_finish st then true else became_done))
    else fail "FAIL: unexpected seq_num=%d\n" (int seq_num ∷ [])

pub take_loop : List (Taken HistoryEvent) → Bool → M NoSample SubState Bool
take_loop [] became_done = return became_done
take_loop (take_error rc ∷ rest) became_done = fail "FAIL: take() CDR error (rc=%d)\n" (num rc ∷ [])
take_loop (sample info v ∷ rest) became_done = do
  became_done' ← if not info.valid_data then return became_done else receive v.seq_num became_done
  take_loop rest became_done'

pub on_data_available : List (Taken HistoryEvent) → M NoSample SubState (Unit {0})
on_data_available ts = do
  became_done ← take_loop ts false
  when became_done (modify λ st. record st { all_done = true })

abbrev pub reader_qos : ReaderQos → ReaderQos
reader_qos default = record default {
  reliability = ReliabilityKind.reliable;
  durability = DurabilityKind.transient_local;
  history = HistoryKind.keep_all;
}

module _ (env : Env NoSample (List (Taken HistoryEvent))) where
  -- The wait for the historical samples, and the test that they are there. The callbacks that have
  -- run meanwhile are taken in after the wait, and before and after the flag is set.
  pub await_history : M NoSample SubState (Unit {0})
  await_history = do
    rc ← invoke env (wait_for_historical_data (record { sec = pos 10; nanosec = 0 }))
    check (is_ok rc) "FAIL: wait_for_historical_data() returned %d\n" (num (rc_number rc) ∷ [])
    printf "Subscriber: wait_for_historical_data() returned\n" []
    deliver env on_data_available
    st ← get
    check (count_raised st.historical_received == historical_count)
        "FAIL: wait_for_historical_data() returned OK but only %d/%d historical samples were actually received\n"
        (num (count_raised st.historical_received) ∷ num historical_count ∷ [])
    printf "HISTORICAL BATCH COMPLETE (%d samples)\n" (num historical_count ∷ [])
    deliver env on_data_available
    modify λ st. record st { historical_confirmed = true }
    deliver env on_data_available
    st' ← get
    when (ready_to_finish st') (modify λ st. record st { all_done = true })

  pub body : List Text → M NoSample SubState (Unit {0})
  body argv = do
    bring_up env (parse_domain argv) (codes "HistoryEvent")
    must_create env (create_subscriber env.defaults.group) "FAIL: create_subscriber() failed\n" []
    must_create env (create_datareader (codes "HistoryEvent") (reader_qos env.defaults.reader))
        "FAIL: create_datareader() failed\n" []
    printf "Create reader for topic: HistoryEvent\n" []
    must_return env set_listener "FAIL: set_listener() failed\n" []
    await_history
    wait_until env on_data_available (λ st. st.all_done) 30000 20
        "FAIL: did not observe the full live batch within %ds\n" (λ _. num 30 ∷ [])
    rc ← invoke env delete_datareader
    printf "Subscriber: observed historical batch then live batch correctly.\n" []

  pub main : List Text → M NoSample SubState (Unit {0})
  main argv = do body argv; exit 0
