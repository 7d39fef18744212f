-- ===== src/Apps/Catchup/Publisher.antt =====
-- cpp/catchup/src/publisher.cpp
pub mod Contract
use Prim.Native.String.{String}
use zzdds_examples.Base.{ℕ, Bool, true, false, ◌==◌, ◌&&◌, ltb, List, [], ◌∷◌, if◌then◌else◌}
use zzdds_examples.Base.Text.{Text, codes}
use zzdds_examples.Base.Int.{pos}
use zzdds_examples.Dds.{WriterQos, ReliabilityKind, DurabilityKind, HistoryKind}
use zzdds_examples.Runtime.Event.{num, create_publisher, create_datawriter, set_listener}
use zzdds_examples.Runtime.Program.{
  M, Env, ◌>>=◌, ◌>>◌, exit, modify, printf, must_create, must_return,
}
use zzdds_examples.Runtime.Wait.{wait_until}
use zzdds_examples.Apps.Common.{parse_domain, bring_up, write_loop}
use zzdds_examples.Apps.Catchup.{HistoryEvent, historical_count, live_count}

-- `PubState`
pub record PubState : Type 0 where
  pub ever_matched : Bool
  pub matched_current_count : ℕ

abbrev pub fresh_pub_state : PubState
fresh_pub_state = record { ever_matched = false; matched_current_count = 0 }

pub on_publication_matched : ℕ → M HistoryEvent PubState (Unit {0})
on_publication_matched current_count = do
  modify λ st. record {
    matched_current_count = current_count;
    ever_matched = if ltb 0 current_count then true else st.ever_matched;
  }
  printf "on_publication_matched() current_count=%d\n" (num current_count ∷ [])

abbrev pub event : ℕ → HistoryEvent
event seq = record { seq_num = pos seq }

abbrev pub drained : PubState → Bool
drained st = st.ever_matched && st.matched_current_count == 0

abbrev pub writer_qos : WriterQos → WriterQos
writer_qos default = record default {
  reliability = ReliabilityKind.reliable;
  durability = DurabilityKind.transient_local;
  history = HistoryKind.keep_all;
}

-- A callback comes with its current_count.
module _ (env : Env HistoryEvent ℕ) where
  pub body : List Text → M HistoryEvent PubState (Unit {0})
  body argv = do
    bring_up env (parse_domain argv) (codes "HistoryEvent")
    must_create env (create_publisher env.defaults.group) "FAIL: create_publisher() failed\n" []
    must_create env (create_datawriter (codes "HistoryEvent") (writer_qos env.defaults.writer))
        "FAIL: create_datawriter() failed\n" []
    printf "Create writer for topic: HistoryEvent\n" []
    must_return env set_listener "FAIL: set_listener failed\n" []
    write_loop env event "Publisher: wrote historical seq_num=%d\n"
        "FAIL: write() failed at seq_num=%d\n" 0 historical_count
    wait_until env on_publication_matched (λ st. st.ever_matched) 15000 20
        "FAIL: no reader matched within %ds\n" (λ _. num 15 ∷ [])
    printf "Publisher: reader matched, writing live batch\n" []
    write_loop env event "Publisher: wrote live seq_num=%d\n" "FAIL: write() failed at seq_num=%d\n"
        historical_count live_count
    wait_until env on_publication_matched drained 15000 20
        "FAIL: subscriber did not disconnect within %ds\n" (λ _. num 15 ∷ [])
    printf "Publisher: done.\n" []

  pub main : List Text → M HistoryEvent PubState (Unit {0})
  main argv = do body argv; exit 0
