-- ===== src/Apps/Waitset/Publisher.antt =====
-- cpp/waitset/src/publisher.cpp. The watchdog is a thread that triggers the guard condition after 25 s:
-- what wait() gives, and when, is a parameter.
pub mod Tale
pub mod Rounds
pub mod Contract
use Prim.Native.String.{String}
use zzdds_examples.Base.{
  ℕ, zero, suc, ◌==◌, ltb, not, Bool, true, false, Option, none, some, List, [], ◌∷◌, if◌then◌else◌,
}
use zzdds_examples.Base.Text.{Text, codes}
use zzdds_examples.Base.Int.{pos}
use zzdds_examples.Dds.{WriterQos, ReliabilityKind, HistoryKind, ReturnCode, rc_number}
use zzdds_examples.Runtime.Event.{
  num, Log, create_publisher, create_datawriter, delete_datawriter, create_waitset,
  set_enabled_statuses, create_guardcondition, attach_condition, detach_condition, wait, write,
  get_publication_matched_status,
}
use zzdds_examples.Runtime.Program.{
  M, Env, ◌>>=◌, ◌>>◌, return, exit, out_of_fuel, modify, fail, check, printf, query, invoke,
  invoke_with, must_create, must_return,
}
use zzdds_examples.Apps.Common.{parse_domain, bring_up}
use zzdds_examples.Apps.Common.Receiver.{NoSample}
use zzdds_examples.Apps.Waitset.{
  WaitsetSample, Condition, status_condition, guard_condition, index, condition_active,
}

-- SAMPLE_COUNT
abbrev pub sample_count : ℕ
sample_count = 10

abbrev pub hello_sample : ℕ → WaitsetSample
hello_sample i = record { count = pos i; priority = pos i; message = codes "Hello waitset!" }

abbrev pub writer_qos : WriterQos → WriterQos
writer_qos default = record default {
  reliability = ReliabilityKind.reliable;
  history = HistoryKind.keep_all;
}

-- The locals of main that its loops leave: `status.current_count` as the first and as the second loop
-- read it last.
pub record PubState : Type 0 where
  pub matched_status : Option ℕ
  pub disconnected_status : Option ℕ

abbrev pub fresh_pub_state : PubState
fresh_pub_state = record { matched_status = none; disconnected_status = none }

abbrev pub set_matched_status : ℕ → PubState → PubState
set_matched_status current_count st = record st { matched_status = some current_count }

abbrev pub set_disconnected_status : ℕ → PubState → PubState
set_disconnected_status current_count st = record st { disconnected_status = some current_count }

-- The two tests of the status, after the first and before the last line on a reader.
abbrev pub is_matched : ℕ → Bool
is_matched current_count = ltb 0 current_count

abbrev pub is_disconnected : ℕ → Bool
is_disconnected current_count = current_count == 0

-- `active` is what wait() lists.
module _ (env : Env WaitsetSample NoSample) (active : Log WaitsetSample → List Condition) where
  pub set_up_conditions : M WaitsetSample PubState (Unit {0})
  set_up_conditions = do
    must_create env create_waitset "FAIL: create_waitset() failed\n" []
    must_return env set_enabled_statuses "FAIL: set_enabled_statuses() failed\n" []
    must_return env (attach_condition (index status_condition))
        "FAIL: attach_condition(StatusCondition) failed\n" []
    must_create env create_guardcondition "FAIL: create_guardcondition() failed\n" []
    must_return env (attach_condition (index guard_condition))
        "FAIL: attach_condition(GuardCondition) failed\n" []

  -- A round of either loop, after its call of wait(): whether it was the last.
  pub settle :
      String
      → (ℕ → PubState → PubState)
      → (ℕ → Bool)
      → String
      → ReturnCode
      → List Condition
      → M WaitsetSample PubState Bool
  settle too_late store enough line ReturnCode.timeout listed = return false
  settle too_late store enough line ReturnCode.no_data listed =
      fail "FAIL: WaitSet.wait() returned %d\n" (num (rc_number ReturnCode.no_data) ∷ [])
  settle too_late store enough line (ReturnCode.other n) listed =
      fail "FAIL: WaitSet.wait() returned %d\n" (num n ∷ [])
  settle too_late store enough line ReturnCode.ok listed = do
    check (not (condition_active listed guard_condition)) too_late []
    if condition_active listed status_condition
        then (do
          current_count ← query env get_publication_matched_status
          modify (store current_count)
          if enough current_count then (do printf line []; return true) else return false)
        else return false

  -- `while (!matched)` and `while (!disconnected)`.
  pub await :
      String
      → (ℕ → PubState → PubState)
      → (ℕ → Bool)
      → String
      → ℕ
      → M WaitsetSample PubState (Unit {0})
  await too_late store enough line zero = out_of_fuel
  await too_late store enough line (suc fuel) = do
    (rc, listed) ← invoke_with env (λ log c. active log) wait
    settled ← settle too_late store enough line rc listed
    if settled then return tt else await too_late store enough line fuel

  pub write_all : (i count : ℕ) → M WaitsetSample PubState (Unit {0})
  write_all i zero = return tt
  write_all i (suc count) = do
    must_return env (write 0 (hello_sample i)) "FAIL: write() failed at count=%d\n" (num i ∷ [])
    printf "Publisher: wrote count=%d priority=%d\n" (num i ∷ num i ∷ [])
    write_all (suc i) count

  pub body : List Text → ℕ → M WaitsetSample PubState (Unit {0})
  body argv fuel = do
    bring_up env (parse_domain argv) (codes "WaitsetSample")
    must_create env (create_publisher env.defaults.group) "FAIL: create_publisher() failed\n" []
    must_create env (create_datawriter (codes "WaitsetSample") (writer_qos env.defaults.writer))
        "FAIL: create_datawriter() failed\n" []
    printf "Create writer for topic: WaitsetSample\n" []
    set_up_conditions
    await "FAIL: watchdog fired before any reader matched\n" set_matched_status is_matched
        "Publisher: reader matched\n" fuel
    write_all 0 sample_count
    await "FAIL: watchdog fired before the reader disconnected\n" set_disconnected_status
        is_disconnected "Publisher: reader disconnected\n" fuel
    rc ← invoke env (detach_condition (index guard_condition))
    printf "Publisher: StatusCondition remained attached through delete_datawriter (safe).\n" []
    rc ← invoke env delete_datawriter
    printf "Publisher: done.\n" []

  pub main : List Text → ℕ → M WaitsetSample PubState (Unit {0})
  main argv fuel = do body argv fuel; exit 0
