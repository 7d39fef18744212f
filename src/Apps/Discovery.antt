-- ===== src/Apps/Discovery.antt =====
-- cpp/discovery
pub mod Matched
pub mod Publisher
pub mod Subscriber
use Prim.Native.String.{String}
use zzdds_examples.Base.{
  ℕ, ◌||◌, ◌&&◌, not, Bool, true, false, Option, none, some, List, [], ◌∷◌, if◌then◌else◌,
}
use zzdds_examples.Base.Text.{Text, codes, str_eq}
use zzdds_examples.Base.Int.{ℤ, to_u32}
use zzdds_examples.Base.Number.{strtoul}
use zzdds_examples.Dds.{TopicData, ReturnCode, is_ok}
use zzdds_examples.Runtime.Event.{Call, text}
use zzdds_examples.Runtime.Program.{M, Env, ◌>>=◌, ◌>>◌, return, check, fail, printf, invoke_with}

-- `DiscoveryPing` of cpp/discovery/idl/discovery_ping.idl
pub record DiscoveryPing : Type 0 where
  pub count : ℤ

-- TOPIC_NAME and TYPE_NAME
abbrev pub ping_name : Text
ping_name = codes "DiscoveryPing"

-- `parse_args`: the last -d or --domain that has a word after it counts. `argv` is without the
-- program's name.
pub parse_from : List Text → ℕ → ℕ
unfolding str_eq
parse_from [] domain_id = domain_id
parse_from (arg ∷ []) domain_id = domain_id
parse_from (arg ∷ v ∷ rest) domain_id =
    let with_value = parse_from rest (to_u32 (strtoul v)) in
    let without = parse_from (v ∷ rest) domain_id in
    if str_eq arg (codes "-d") || str_eq arg (codes "--domain") then with_value else without

pub parse_options : List Text → ℕ
parse_options argv = parse_from argv 0

abbrev pub is_ping : TopicData → Bool
is_ping topic = str_eq topic.topic_name ping_name && str_eq topic.type_name ping_name

-- The texts of one look-up: its failures, the mismatch, and the line that it prints.
pub record Texts : Type 0 where
  pub failed_data : String
  pub mismatch : String
  pub found : String

module _ {S St B : Type 0} (env : Env S B) where
  -- `get_matched_*_data(topic, handles[0])`, the test of both names and the line on stdout.
  pub matched_data : Texts → Call S → M S St (Unit {0})
  matched_data texts c = do
    (rc, topic) ← invoke_with env env.topic_data c
    check (is_ok rc) texts.failed_data []
    check (is_ping topic) texts.mismatch (text topic.topic_name ∷ text topic.type_name ∷ [])
    printf texts.found (text topic.topic_name ∷ text topic.type_name ∷ [])
