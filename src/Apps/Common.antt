-- ===== src/Apps/Common.antt =====
-- What the reference applications share by copies: `parse_domain`, the publisher's state and its
-- listener, the steps that bring a participant up, and the loop that writes samples 0, 1, ….
pub mod Keeps
pub mod Receiver
pub mod Script
use Prim.Native.String.{String}
use zzdds_examples.Base.{
  ℕ, zero, suc, ◌==◌, ◌||◌, ◌&&◌, ltb, Bool, true, false, List, [], ◌∷◌, if◌then◌else◌,
}
use zzdds_examples.Base.Text.{Text, codes, str_eq}
use zzdds_examples.Base.Int.{to_u32}
use zzdds_examples.Base.Number.{strtoul}
use zzdds_examples.Dds.{WriterQos, ReaderQos, ReliabilityKind, HistoryKind, DurabilityKind}
use zzdds_examples.Runtime.Event.{
  Arg, num, text, Call, Event, printed, create_factory, create_participant, register_type,
  create_topic, create_publisher, create_subscriber, write,
}
use zzdds_examples.Runtime.Program.{
  M, Env, ◌>>=◌, ◌>>◌, return, modify, printf, must_create, must_return,
}

-- The domain is the word after the first -d or --domain; the last argument is not looked at as an
-- option. `argv` is without the program's name.
unfoldable pub parse_domain : List Text → ℕ
unfolding str_eq
parse_domain [] = 0
parse_domain (arg ∷ []) = 0
parse_domain (arg ∷ v ∷ rest) =
    let more = parse_domain (v ∷ rest) in
    if str_eq arg (codes "-d") || str_eq arg (codes "--domain") then to_u32 (strtoul v) else more

-- `PubState`: what the listener's thread tells the main thread.
pub record PubState : Type 0 where
  pub reader_ready : Bool
  pub ever_matched : Bool
  pub matched_current_count : ℕ

abbrev pub fresh_pub_state : PubState
fresh_pub_state = record { reader_ready = false; ever_matched = false; matched_current_count = 0 }

-- The callbacks of `PubListener`.
pub data PubCallback : Type 0 where
  publication_matched : ℕ → PubCallback
  reliable_reader_ready : Bool → PubCallback

abbrev yes_no : Bool → Text
yes_no b = if b then codes "true" else codes "false"

module _ {S : Type 0} where
  pub pub_listener : PubCallback → M S PubState (Unit {0})
  pub_listener (publication_matched current_count) = do
    modify λ st. record st {
      matched_current_count = current_count;
      ever_matched = if ltb 0 current_count then true else st.ever_matched;
    }
    printf "on_publication_matched() current_count=%d\n" (num current_count ∷ [])
  pub_listener (reliable_reader_ready is_ready) = do
    modify λ st. record st { reader_ready = if is_ready then true else st.reader_ready }
    printf "on_reliable_reader_ready() is_ready=%s\n" (text (yes_no is_ready) ∷ [])

-- The subscriber has matched and is gone again.
abbrev pub drained : PubState → Bool
drained st = st.ever_matched && st.matched_current_count == 0

module _ {S St B : Type 0} (env : Env S B) where
  -- create_factory(), create_participant(), register_type() and create_topic().
  pub bring_up : ℕ → Text → M S St (Unit {0})
  bring_up domain topic = do
    must_create env create_factory "FAIL: createFactory() failed\n" []
    must_create env (create_participant domain) "FAIL: create_participant() failed on domain %u\n"
        (num domain ∷ [])
    must_return env register_type "FAIL: register_type failed\n" []
    must_create env (create_topic topic topic) "FAIL: create_topic() failed\n" []
    printf "Create topic: %s\n" (text topic ∷ [])

  -- `for (; i < i + count; i++) { write(sample(i)); }`, stopping at the first failure.
  pub write_loop : (ℕ → S) → String → String → ℕ → ℕ → M S St (Unit {0})
  write_loop sample wrote broken i zero = return tt
  write_loop sample wrote broken i (suc count) = do
    must_return env (write 0 (sample i)) broken (num i ∷ [])
    printf wrote (num i ∷ [])
    write_loop sample wrote broken (suc i) count
