-- ===== src/Apps/Waitset/Subscriber.antt =====
-- cpp/waitset/src/subscriber.cpp. The watchdog is a thread that triggers the guard condition after 30 s:
-- what wait() gives, and when, is a parameter.
pub mod Sights
pub mod Rounds
pub mod Contract
use Prim.Native.String.{String}
use zzdds_examples.Base.{
  ℕ, zero, suc, ◌==◌, ltb, leb, ◌&&◌, ◌||◌, not, Bool, true, false, List, [], ◌∷◌, if◌then◌else◌,
}
use zzdds_examples.Base.Text.{Text, codes}
use zzdds_examples.Base.Int.{ℤ, pos, ltb_ℤ}
use zzdds_examples.Dds.{
  ReaderQos, ReliabilityKind, HistoryKind, SampleInfo, ReturnCode, is_ok, rc_number,
}
use zzdds_examples.Runtime.Event.{
  num, int, Log, create_subscriber, create_datareader, delete_datareader, create_waitset,
  set_enabled_statuses, create_readcondition, create_querycondition, create_guardcondition,
  attach_condition, detach_condition, delete_readcondition, get_conditions, wait,
  get_subscription_matched_status, take_w_condition, take_n,
}
use zzdds_examples.Runtime.Program.{
  M, Env, ◌>>=◌, ◌>>◌, return, exit, out_of_fuel, get, modify, fail, check, printf, query, invoke,
  invoke_with, must_create, must_return, when,
}
use zzdds_examples.Apps.Common.{parse_domain, bring_up}
use zzdds_examples.Apps.Common.Receiver.{NoSample}
use zzdds_examples.Apps.Waitset.{
  WaitsetSample, Condition, status_condition, read_condition, query_condition, guard_condition,
  index, condition_active,
}

-- EXPECTED_SAMPLES
abbrev pub expected_samples : ℕ
expected_samples = 10

-- What the WaitSet and the reader give: the conditions that get_conditions() and wait() list, and the
-- samples of take_w_condition() and of take_n(), none for a negative number.
pub record Answers : Type 0 where
  pub attached : Log NoSample → List Condition
  pub active : Log NoSample → List Condition
  pub high : Log NoSample → List (SampleInfo × WaitsetSample)
  pub low : Log NoSample → List (SampleInfo × WaitsetSample)

-- The locals of main.
pub record SubState : Type 0 where
  pub received : ℕ
  pub matched_logged : Bool

abbrev pub fresh_sub_state : SubState
fresh_sub_state = record { received = 0; matched_logged = false }

abbrev pub number_of : List Condition → ℕ
number_of [] = 0
number_of (c ∷ cs) = suc (number_of cs)

abbrev pub label : ℤ → String
label priority =
    if ltb_ℤ (pos 4) priority
    then "Subscriber: high-priority count=%d priority=%d\n"
    else "Subscriber: low-priority count=%d priority=%d\n"

-- One of the two loops over taken samples.
pub report_all : List (SampleInfo × WaitsetSample) → M NoSample SubState (Unit {0})
report_all [] = return tt
report_all ((info, v) ∷ rest) = do
  when info.valid_data (do
    printf (label v.priority) (int v.count ∷ int v.priority ∷ [])
    modify λ st. record st { received = suc st.received })
  report_all rest

abbrev pub reader_qos : ReaderQos → ReaderQos
reader_qos default = record default {
  reliability = ReliabilityKind.reliable;
  history = HistoryKind.keep_all;
}

module _ (env : Env NoSample NoSample) (answers : Answers) where
  -- `ws->attach_condition(…) != RETCODE_OK || …`: the first failure ends the list.
  pub attach_all : List Condition → M NoSample SubState (Unit {0})
  attach_all [] = return tt
  attach_all (c ∷ cs) = do
    must_return env (attach_condition (index c)) "FAIL: attach_condition() failed\n" []
    attach_all cs

  pub set_up_waitset : M NoSample SubState (Unit {0})
  set_up_waitset = do
    must_create env create_waitset "FAIL: create_waitset() failed\n" []
    must_return env set_enabled_statuses "FAIL: set_enabled_statuses() failed\n" []
    must_create env create_readcondition "FAIL: create_readcondition() failed\n" []
    must_create env (create_querycondition (codes "priority > %0") (codes "4"))
        "FAIL: create_querycondition() failed\n" []
    must_create env create_guardcondition "FAIL: create_guardcondition() failed\n" []
    attach_all (status_condition ∷ read_condition ∷ query_condition ∷ guard_condition ∷ [])
    (rc, attached) ← invoke_with env (λ log c. answers.attached log) get_conditions
    check (is_ok rc) "FAIL: WaitSet::get_conditions() failed\n" []
    check (number_of attached == 4)
        "FAIL: WaitSet::get_conditions() returned %zu conditions, expected 4\n"
        (num (number_of attached) ∷ [])

  pub note_match : List Condition → M NoSample SubState (Unit {0})
  note_match active = do
    st ← get
    when (not st.matched_logged && condition_active active status_condition) (do
      current_count ← query env get_subscription_matched_status
      when (ltb 0 current_count) (do
        printf "Subscriber: writer matched\n" []
        modify λ st. record st { matched_logged = true }))

  -- The two takes of a round.
  pub drain : M NoSample SubState (Unit {0})
  drain = do
    (rc, high) ← invoke_with env (λ log c. answers.high log) take_w_condition
    (rc', low) ← invoke_with env (λ log c. answers.low log) take_n
    report_all high
    report_all low

  -- A round, after its call of wait().
  pub respond : ReturnCode → List Condition → M NoSample SubState (Unit {0})
  respond ReturnCode.timeout active = return tt
  respond ReturnCode.no_data active =
      fail "FAIL: WaitSet.wait() returned %d\n" (num (rc_number ReturnCode.no_data) ∷ [])
  respond (ReturnCode.other n) active = fail "FAIL: WaitSet.wait() returned %d\n" (num n ∷ [])
  respond ReturnCode.ok active = do
    st ← get
    check (not (condition_active active guard_condition))
        "FAIL: watchdog fired -- only received %d/%d samples\n"
        (num st.received ∷ num expected_samples ∷ [])
    note_match active
    when (condition_active active query_condition || condition_active active read_condition) drain

  -- The main loop.
  pub wait_loop : ℕ → M NoSample SubState (Unit {0})
  wait_loop zero = out_of_fuel
  wait_loop (suc fuel) = do
    st ← get
    if leb expected_samples st.received then return tt else do
      (wr, active) ← invoke_with env (λ log c. answers.active log) wait
      respond wr active
      wait_loop fuel

  pub tear_down : M NoSample SubState (Unit {0})
  tear_down = do
    rc ← invoke env (detach_condition 0)
    rc ← invoke env (detach_condition 1)
    rc ← invoke env (detach_condition 2)
    rc ← invoke env (detach_condition 3)
    rc ← invoke env (delete_readcondition 1)
    rc ← invoke env (delete_readcondition 2)
    rc ← invoke env delete_datareader
    printf "Subscriber: done.\n" []

  pub body : List Text → ℕ → M NoSample SubState (Unit {0})
  body argv fuel = do
    bring_up env (parse_domain argv) (codes "WaitsetSample")
    must_create env (create_subscriber env.defaults.group) "FAIL: create_subscriber() failed\n" []
    must_create env (create_datareader (codes "WaitsetSample") (reader_qos env.defaults.reader))
        "FAIL: create_datareader() failed\n" []
    printf "Create reader for topic: WaitsetSample\n" []
    set_up_waitset
    wait_loop fuel
    printf "Subscriber: received all %d samples.\n" (num expected_samples ∷ [])
    tear_down

  pub main : List Text → ℕ → M NoSample SubState (Unit {0})
  main argv fuel = do body argv fuel; exit 0
