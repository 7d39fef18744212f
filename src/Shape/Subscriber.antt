-- ===== src/Shape/Subscriber.antt =====
-- The take loop of `run_subscriber` in cpp/shape/src/shape_main.cpp, with `print_not_alive`,
-- `assert_sample_content`, the cache of colours and `ShapeDataReaderListener`. A list of `Taken` is what the calls of take()
-- or take_next_instance() give, up to the one that says RETCODE_NO_DATA.
pub mod Accepts
pub mod Forgotten
pub mod Run
use Prim.Native.String.{String}
use zzdds_examples.Base.{
  ℕ, ◌==◌, ◌++◌, Bool, true, false, not, Option, none, some, List, [], ◌∷◌, if◌then◌else◌,
}
use zzdds_examples.Base.Text.{Text, codes, str_eq}
use zzdds_examples.Base.Int.{ℤ, pos, negsuc}
use zzdds_examples.Dds.{InstanceState, SampleInfo, Taken, sample, take_error}
use zzdds_examples.Runtime.Event.{Arg, num, int, text}
use zzdds_examples.Runtime.Program.{M, ◌>>=◌, ◌>>◌, return, get, modify, printf, fail}
use zzdds_examples.Shape.Qos.{policy_name}
use zzdds_examples.Shape.Sample.{ShapeType, out_of_bounds, shape_line}
use zzdds_examples.Apps.Common.Receiver.{NoSample}

-- `std::unordered_map<DDS_InstanceHandle_t, std::string>`, with at most one entry for a handle that
-- counts: the first.
abbrev pub Cache : Type 0
Cache = List (ℕ × Text)

unfoldable pub find : Cache → ℕ → Option Text
find [] ih = none
find ((h, c) ∷ cache) ih = let rest = find cache ih in if h == ih then some c else rest

pub assign : Cache → ℕ → Text → Cache
assign cache ih color = (ih, color) ∷ cache

pub record SubRun : Type 0 where
  pub ih_cache : Cache

-- `ShapeDataReaderListener`
pub data ReaderCallback : Type 0 where
  requested_incompatible_qos : Text → ℕ → ReaderCallback
  requested_deadline_missed : Text → ℕ → ℕ → ReaderCallback

pub reader_listener : ReaderCallback → M NoSample SubRun (Unit {0})
reader_listener (requested_incompatible_qos topic id) =
    printf "on_requested_incompatible_qos() topic: '%s'  type: 'ShapeType' : %d (%s)\n"
      (text topic ∷ num id ∷ text (policy_name id) ∷ [])
reader_listener (requested_deadline_missed topic total change) =
    printf
      "on_requested_deadline_missed() topic: '%s'  type: 'ShapeType' : (total = %d, change = %d)\n"
      (text topic ∷ num total ∷ num change ∷ [])

-- `cache[ih]`, which inserts an empty string where there is no entry.
pub entry : Option Text → Cache → ℕ → Text × Cache
entry none cache ih = ([], assign cache ih [])
entry (some c) cache ih = (c, cache)

pub state_name : InstanceState → Text
state_name InstanceState.not_alive_disposed = codes "NOT_ALIVE_DISPOSED_INSTANCE_STATE"
state_name InstanceState.alive = codes "NOT_ALIVE_NO_WRITERS_INSTANCE_STATE"
state_name InstanceState.not_alive_no_writers = codes "NOT_ALIVE_NO_WRITERS_INSTANCE_STATE"
state_name (InstanceState.unknown_state n) = codes "NOT_ALIVE_NO_WRITERS_INSTANCE_STATE"

pub print_not_alive : Text → Text → InstanceState → M NoSample SubRun (Unit {0})
print_not_alive topic color state =
    printf "%-10s %-10s %s\n" (text topic ∷ text color ∷ text (state_name state) ∷ [])

abbrev pub is_not_alive : InstanceState → Bool
is_not_alive InstanceState.alive = false
is_not_alive InstanceState.not_alive_disposed = true
is_not_alive InstanceState.not_alive_no_writers = true
is_not_alive (InstanceState.unknown_state n) = false

abbrev pub is_empty : Text → Bool
is_empty [] = true
is_empty (c ∷ s) = false

-- `it != end && it->second != color`
abbrev pub differs : Option Text → Text → Bool
differs none color = false
differs (some c) color = not (str_eq c color)

abbrev known_color : Option Text → Text
known_color none = []
known_color (some c) = c

-- The colour to print for an instance that is not alive: its key, or what the cache has.
pub key_color : ℕ → ShapeType → M NoSample SubRun Text
key_color ih v = if not (is_empty v.color) then return v.color else do
  st ← get
  let (color, cache) = entry (find st.ih_cache ih) st.ih_cache ih
  modify λ st. record { ih_cache = cache }
  return color

pub assert_sample_content : ℕ → ShapeType → M NoSample SubRun (Unit {0})
assert_sample_content ih v = do
  st ← get
  if differs (find st.ih_cache ih) v.color
      then fail "FAIL: instance %llu color changed from '%s' to '%s'\n"
          (num ih ∷ text (known_color (find st.ih_cache ih)) ∷ text v.color ∷ [])
      else if out_of_bounds v
      then fail "FAIL: sample out of bounds: x=%d y=%d shapesize=%d\n"
          (int v.x ∷ int v.y ∷ int v.shapesize ∷ [])
      else return tt

-- `additional_payload_size.back()`, where there is one.
abbrev last_byte : List ℕ → List Arg
last_byte [] = []
last_byte (b ∷ []) = num b ∷ []
last_byte (b ∷ c ∷ bytes) = last_byte (c ∷ bytes)

-- "%-10s %-10s %03d %03d [%d] {%d}\n", or without the last where there is no payload.
pub print_sample : Text → ShapeType → List ℕ → M NoSample SubRun (Unit {0})
print_sample topic v [] = printf "%-10s %-10s %03d %03d [%d]\n" (shape_line topic v)
print_sample topic v (b ∷ bytes) =
    printf "%-10s %-10s %03d %03d [%d] {%d}\n" (shape_line topic v ++ last_byte (b ∷ bytes))

pub accept_sample : Text → ℕ → ShapeType → M NoSample SubRun (Unit {0})
accept_sample topic ih v = do
  assert_sample_content ih v
  modify λ st. record { ih_cache = assign st.ih_cache ih v.color }
  print_sample topic v v.additional_payload_size

-- The loop for one topic.
pub take_all : Text → List (Taken ShapeType) → M NoSample SubRun (Unit {0})
take_all topic [] = return tt
take_all topic (take_error rc ∷ rest) = return tt
take_all topic (sample info v ∷ rest) =
    if info.valid_data
    then (do accept_sample topic info.instance_handle v; take_all topic rest)
    else if is_not_alive info.instance_state
    then (do
      color ← key_color info.instance_handle v
      print_not_alive topic color info.instance_state
      take_all topic rest)
    else return tt
