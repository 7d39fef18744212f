-- ===== src/Apps/Discovery/Subscriber.antt =====
-- cpp/discovery/src/subscriber.cpp
pub mod Contract
use zzdds_examples.Base.{
  ℕ, zero, suc, ◌+◌, ◌*◌, ◌/◌, leb, Bool, true, false, List, [], ◌∷◌, if◌then◌else◌,
}
use zzdds_examples.Base.Text.{Text}
use zzdds_examples.Dds.{ReaderQos, ReliabilityKind, HistoryKind, Taken, is_ok}
use zzdds_examples.Runtime.Event.{
  Arg, num, text, create_subscriber, create_datareader, delete_datareader, set_listener,
  get_matched_publications, get_matched_publication_data,
}
use zzdds_examples.Runtime.Program.{
  M, Env, ◌>>=◌, ◌>>◌, return, exit, fail, check, out_of_fuel, printf, usleep, invoke, invoke_with,
  must_create, must_return,
}
use zzdds_examples.Runtime.Wait.{wait_until}
use zzdds_examples.Apps.Common.{bring_up}
use zzdds_examples.Apps.Common.Receiver.{SubState, NoSample, on_data_available}
use zzdds_examples.Apps.Discovery.{DiscoveryPing, ping_name, parse_options, Texts, matched_data}

abbrev reader_qos : ReaderQos → ReaderQos
reader_qos default = record default {
  reliability = ReliabilityKind.reliable;
  history = HistoryKind.keep_all;
}

-- `SubListener::on_data_available`
abbrev listener : List (Taken DiscoveryPing) → M NoSample SubState (Unit {0})
listener =
    on_data_available 3 (λ (v : DiscoveryPing). v.count) "Subscriber: received count=%d\n" (λ v. [])

abbrev timed_out : SubState → List Arg
timed_out st = num st.expected_next ∷ num 3 ∷ num 30 ∷ []

publication_texts : Texts
publication_texts = record {
  failed_data = "FAIL: get_matched_publication_data() failed\n";
  mismatch = "FAIL: matched publication topic_name/type_name mismatch: got '%s'/'%s'\n";
  found = "Discovery OK (reader): matched_publication.topic_name='%s' type_name='%s'\n";
}

-- `if (!pub_handles.empty()) break;`, with `pub_handles[0]` as the result.
first_match : List ℕ → M NoSample SubState ℕ → M NoSample SubState ℕ
first_match (h ∷ handles) later = return h
first_match [] later = later

module _ (env : Env NoSample (List (Taken DiscoveryPing))) where
  -- The loop that waits for a matched publication, up to MATCH_TIMEOUT_MS. Its result is
  -- `pub_handles[0]`.
  await_match : ℕ → ℕ → M NoSample SubState ℕ
  await_match zero waited = out_of_fuel
  await_match (suc fuel) waited = do
    (rc, pub_handles) ← invoke_with env env.handles get_matched_publications
    check (is_ok rc) "FAIL: get_matched_publications() failed\n" []
    first_match pub_handles (
        if leb 10000 waited
        then fail "FAIL: no matched publication within %ds\n" (num 10 ∷ [])
        else (do usleep (20 * 1000); await_match fuel (waited + 20)))

  body : List Text → M NoSample SubState (Unit {0})
  body argv = do
    bring_up env (parse_options argv) ping_name
    must_create env (create_subscriber env.defaults.group) "FAIL: create_subscriber() failed\n" []
    must_create env (create_datareader ping_name (reader_qos env.defaults.reader))
        "FAIL: create_datareader() failed\n" []
    printf "Create reader for topic: %s\n" (text ping_name ∷ [])
    must_return env set_listener "FAIL: set_listener() failed\n" []
    h ← await_match 502 0
    matched_data env publication_texts (get_matched_publication_data h)
    printf "Subscriber: waiting for %d samples...\n" (num 3 ∷ [])
    wait_until env listener (λ st. st.all_received) 30000 20
        "FAIL: only received %d/%d samples within %ds\n" timed_out
    rc ← invoke env delete_datareader
    printf "Subscriber: received all %d samples in order.\n" (num 3 ∷ [])

  pub main : List Text → M NoSample SubState (Unit {0})
  main argv = do body argv; exit 0
