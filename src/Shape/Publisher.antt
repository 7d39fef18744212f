-- ===== src/Shape/Publisher.antt =====
-- `ShapeDataWriterListener` and the rounds of `run_publisher` in cpp/shape/src/shape_main.cpp. A writer has the
-- number of its topic. `srand` and the mutual order of the listener's lines are the environment's.
pub mod Run
pub mod Samples
use Prim.Native.String.{String}
use zzdds_examples.Base.{
  ℕ, zero, suc, ◌+◌, ◌*◌, ◌-◌, ◌%◌, ◌^◌, ltb, leb, ◌==◌, ◌&&◌, ◌||◌, not, Bool, true, false, Option,
  none, some, List, [], ◌∷◌, if◌then◌else◌, get_elem?,
}
use zzdds_examples.Base.Text.{Text, codes}
use zzdds_examples.Base.Int.{ℤ, pos, negsuc, pos_part, ltb_ℤ, ◌==ℤ◌, is_negative}
use zzdds_examples.Dds.{WriterQos, ReturnCode, is_ok, rc_number}
use zzdds_examples.Runtime.Event.{
  Arg, num, int, text, create_publisher, create_datawriter, get_publication_matched_status, write,
  dispose, unregister_instance, wait_for_acknowledgments, begin_coherent_changes,
  end_coherent_changes, random, clock,
}
use zzdds_examples.Runtime.Program.{
  M, Env, ◌>>=◌, ◌>>◌, return, exit, fail, check, out_of_fuel, out_of_range, get, modify, printf,
  usleep, create, invoke, query, signalled, must_create, for_range, for_each, when,
}
use zzdds_examples.Runtime.Wait.{deliver}
use zzdds_examples.Shape.Options.{Options}
use zzdds_examples.Shape.Qos.{group_qos, build_writer_qos, policy_name}
use zzdds_examples.Shape.Topics.{
  ExtraTopics, create_extra_topics, topic_at, name_at, instance_color,
}
use zzdds_examples.Shape.Sample.{ShapeType, empty_shape, shape_line, increment, payload}

-- What `run_publisher` keeps in local variables.
pub record PubRun : Type 0 where
  pub shape : ShapeType
  pub printed_matched : Bool

pub data WriterCallback : Type 0 where
  offered_incompatible_qos : Text → ℕ → WriterCallback
  offered_deadline_missed : Text → ℕ → ℕ → WriterCallback

pub writer_listener : WriterCallback → M ShapeType PubRun (Unit {0})
writer_listener (offered_incompatible_qos topic id) =
    printf "on_offered_incompatible_qos() topic: '%s'  type: 'ShapeType' : %d (%s)\n"
      (text topic ∷ num id ∷ text (policy_name id) ∷ [])
writer_listener (offered_deadline_missed topic total change) =
    printf
      "on_offered_deadline_missed() topic: '%s'  type: 'ShapeType' : (total = %d, change = %d)\n"
      (text topic ∷ num total ∷ num change ∷ [])

abbrev color_or : Text → Option Text → Text
color_or default none = default
color_or default (some c) = c

abbrev pub base_color : Options → Text
base_color opts = color_or (codes "BLUE") opts.color

-- The sample before the loop.
pub first_shape : Options → ShapeType
first_shape opts = record empty_shape {
  color = base_color opts;
  shapesize = if opts.shapesize ==ℤ pos 0 then pos 1 else opts.shapesize;
  additional_payload_size = payload opts.additional_payload;
}

-- `shape.shapesize++; if (size_modulo > 0 && shape.shapesize > size_modulo) shape.shapesize = 1;`
pub next_size : ℤ → ℤ → ℤ
next_size size_modulo size =
    let more = increment size in
    if ltb_ℤ (pos 0) size_modulo && ltb_ℤ size_modulo more then pos 1 else more

pub grow : Options → M ShapeType PubRun (Unit {0})
grow opts = when (opts.shapesize ==ℤ pos 0) (
    modify λ st. record st {
      shape = record st.shape { shapesize = next_size opts.size_modulo st.shape.shapesize };
    })

pub paint : Options → ℕ → M ShapeType PubRun (Unit {0})
paint opts inst =
    modify
      λ st. record st { shape = record st.shape { color = instance_color (base_color opts) inst } }

-- `static_cast<useconds_t>(ms * 1000)`
pub useconds : ℤ → ℕ
useconds (pos ms) = ms * 1000 % 2 ^ 32
useconds (negsuc n) = (2 ^ 32 - suc n * 1000 % 2 ^ 32) % 2 ^ 32

abbrev pub gating : Options → Bool
gating opts = opts.coherent_access || opts.ordered_access

-- `sc`
abbrev pub set_count : Options → ℕ
set_count opts = if ltb 0 opts.coherent_sample_count then opts.coherent_sample_count else 1

module _ (env : Env ShapeType WriterCallback) (opts : Options) where
  pub place : M ShapeType PubRun (Unit {0})
  place = do
    x ← query env random
    y ← query env random
    modify λ st. record st { shape = record st.shape { x = pos (x % 320); y = pos (y % 240) } }

  pub write_shape : ℕ → Text → M ShapeType PubRun (Unit {0})
  write_shape ti name = do
    st ← get
    rc ← invoke env (write ti st.shape)
    check (is_ok rc) "FAIL: DataWriter::write (rc=%d)\n" (num (rc_number rc) ∷ [])
    when opts.print_writer_samples
        (printf "%-10s %-10s %03d %03d [%d]\n" (shape_line name st.shape))

  -- The inner loop of a coherent set.
  pub write_set : ℕ → Text → M ShapeType PubRun (Unit {0})
  write_set ti name = for_range (λ s. do place; write_shape ti name; grow opts) 0 (set_count opts)

  pub coherent_round : List Text → M ShapeType PubRun (Unit {0})
  coherent_round names = do
    rc ← invoke env begin_coherent_changes
    for_each
        (λ ti name. for_range (λ inst. do paint opts inst; write_set ti name) 0 opts.num_instances)
        0 names
    rc ← invoke env end_coherent_changes
    return tt

  pub plain_round : List Text → M ShapeType PubRun (Unit {0})
  plain_round names = do
    place
    for_each
        (λ ti name.
          for_range (λ inst. do paint opts inst; write_shape ti name) 0 opts.num_instances)
        0 names
    grow opts

  -- One look for a matched reader; the process ends with status 0 when none came in time.
  pub look_for_reader : Text → ℕ → M ShapeType PubRun (Unit {0})
  look_for_reader name match_deadline = do
    st ← get
    if st.printed_matched then return tt else do
      current_count ← query env get_publication_matched_status
      if ltb 0 current_count
          then (do
            printf
                "on_publication_matched() topic: '%s'  type: 'ShapeType' : matched readers %d (change = 1)\n"
                (text name ∷ num current_count ∷ [])
            modify λ st. record st { printed_matched = true })
          else do now ← query env clock; if ltb match_deadline now then exit 0 else return tt

  pub write_round : List Text → M ShapeType PubRun (Unit {0})
  write_round names = if gating opts then coherent_round names else plain_round names
