-- ===== src/Apps/Discovery/Publisher.antt =====
-- cpp/discovery/src/publisher.cpp
pub mod Contract
use zzdds_examples.Base.{
  ℕ, Bool, true, false, not, Option, none, some, List, [], ◌∷◌, if◌then◌else◌, ◌&&◌,
}
use zzdds_examples.Base.Text.{Text, codes, str_eq}
use zzdds_examples.Base.Int.{pos}
use zzdds_examples.Dds.{WriterQos, ReliabilityKind, HistoryKind, TopicData, is_ok}
use zzdds_examples.Runtime.Event.{
  num, text, create_publisher, create_datawriter, set_listener, get_discovered_topics,
  get_discovered_topic_data, get_matched_subscriptions, get_matched_subscription_data,
}
use zzdds_examples.Runtime.Program.{
  M, Env, ◌>>=◌, ◌>>◌, return, exit, fail, check, printf, invoke_with, must_create, must_return,
}
use zzdds_examples.Runtime.Wait.{wait_until}
use zzdds_examples.Apps.Common.{PubState, PubCallback, pub_listener, drained, bring_up, write_loop}
use zzdds_examples.Apps.Discovery.{DiscoveryPing, ping_name, parse_options, Texts, matched_data}

abbrev pub sample : ℕ → DiscoveryPing
sample i = record { count = pos i }

abbrev writer_qos : WriterQos → WriterQos
writer_qos default = record default {
  reliability = ReliabilityKind.reliable;
  history = HistoryKind.keep_all;
}

subscription_texts : Texts
subscription_texts = record {
  failed_data = "FAIL: get_matched_subscription_data() failed\n";
  mismatch = "FAIL: matched subscription topic_name/type_name mismatch: got '%s'/'%s'\n";
  found = "Discovery OK (writer): matched_subscription.topic_name='%s' type_name='%s'\n";
}

module _ (env : Env DiscoveryPing PubCallback) where
  -- `for (auto h : handles)`, with the data of the topic when it is found.
  find_topic : List ℕ → M DiscoveryPing PubState (Option TopicData)
  find_topic [] = return none
  find_topic (h ∷ handles) = do
    (rc, topic) ← invoke_with env env.topic_data (get_discovered_topic_data h)
    if is_ok rc && str_eq topic.topic_name ping_name
        then return (some topic)
        else find_topic handles

  report_topic : Option TopicData → M DiscoveryPing PubState (Unit {0})
  report_topic none =
      fail "FAIL: get_discovered_topic_data() never returned '%s'\n" (text ping_name ∷ [])
  report_topic (some topic) = do
    check (str_eq topic.type_name ping_name)
        "FAIL: discovered topic type_name mismatch: expected '%s', got '%s'\n"
        (text ping_name ∷ text topic.type_name ∷ [])
    printf "Discovery OK (participant): topic.name='%s' topic.type_name='%s'\n"
        (text topic.topic_name ∷ text topic.type_name ∷ [])

  discover_topic : M DiscoveryPing PubState (Unit {0})
  discover_topic = do
    (rc, handles) ← invoke_with env env.handles get_discovered_topics
    check (is_ok rc) "FAIL: get_discovered_topics() failed\n" []
    topic ← find_topic handles
    report_topic topic

  -- `handles.empty()`, and `handles[0]`.
  matched_subscription : List ℕ → M DiscoveryPing PubState (Unit {0})
  matched_subscription [] = fail "FAIL: get_matched_subscriptions() returned no matches\n" []
  matched_subscription (h ∷ handles) =
      matched_data env subscription_texts (get_matched_subscription_data h)

  discover_subscription : M DiscoveryPing PubState (Unit {0})
  discover_subscription = do
    (rc, handles) ← invoke_with env env.handles get_matched_subscriptions
    check (is_ok rc) "FAIL: get_matched_subscriptions() failed\n" []
    matched_subscription handles

  body : List Text → M DiscoveryPing PubState (Unit {0})
  body argv = do
    bring_up env (parse_options argv) ping_name
    discover_topic
    must_create env (create_publisher env.defaults.group) "FAIL: create_publisher() failed\n" []
    must_create env (create_datawriter ping_name (writer_qos env.defaults.writer))
        "FAIL: create_datawriter() failed\n" []
    printf "Create writer for topic: %s\n" (text ping_name ∷ [])
    must_return env set_listener "FAIL: set_listener_ex failed\n" []
    wait_until env pub_listener (λ st. st.reader_ready) 10000 20
        "FAIL: no reliable reader became ready within %ds\n" (λ _. num 10 ∷ [])
    discover_subscription
    write_loop env sample "Publisher: wrote count=%d\n" "FAIL: write() failed at count=%d\n" 0 3
    wait_until env pub_listener drained 15000 20 "FAIL: subscriber did not disconnect within %ds\n"
        (λ _. num 15 ∷ [])
    printf "Publisher: done.\n" []

  pub main : List Text → M DiscoveryPing PubState (Unit {0})
  main argv = do body argv; exit 0
